-- ===== src/AuditTrail/Tests.antt =====
-- The audit trail on small inputs (contracts/predictify-hybrid/src/audit_trail.rs). The digest of
-- the examples tells apart the records that they hold.
use predictify_contracts.Base.{ℕ, ◌+◌, ◌*◌, ◌≡◌, refl, none, some, true, false, [], arith}
use predictify_contracts.Base.Maps.{empty, update}
use predictify_contracts.Base.Host.{Env}
use predictify_contracts.Base.Action.{ok}
use predictify_contracts.AuditTrail.{
  AuditAction, AuditRecord, AuditStore, get_record, get_latest_records, append_record,
  verify_integrity, verify_from,
}
use predictify_contracts.AuditTrail.Integrity.{
  IsChained, appended, append_record-IsChained, extended, new_record,
}
use predictify_contracts.AuditTrail.Tamper.{verify_integrity_agree}

abbrev digest : AuditRecord → ℕ
digest r = r.prev_record_hash * 1000 + r.timestamp * 10 + r.actor

abbrev at_5 : Env
at_5 = record { now = 5; authorized = λ a. true }

abbrev no_records : AuditStore
no_records = record { head = none; records = empty }

abbrev one_record : AuditStore
one_record = extended digest at_5 AuditAction.market_created 1 [] none no_records

abbrev two_records : AuditStore
two_records = extended digest at_5 AuditAction.dispute_created 2 [] (some 7) one_record

-- the same trail, with a stray record behind its end
abbrev stray_record : AuditStore
stray_record = record two_records {
  records = update two_records.records 9 (
      some (record {
        index = 9;
        action = AuditAction.fees_collected;
        actor = 4;
        timestamp = 5;
        details = [];
        prev_record_hash = 0;
        override_nonce = none;
      }));
}

two_records_appended :
    append_record digest at_5 AuditAction.dispute_created 2 [] (some 7) one_record
    ≡ (ok 2, two_records)
unfolding append_record
two_records_appended = refl

one_record-IsChained : IsChained digest one_record
one_record-IsChained =
    (new_record digest at_5 AuditAction.market_created 1 [] none no_records, refl, refl, refl, refl)

two_records-IsChained : IsChained digest two_records
two_records-IsChained = (
  new_record digest at_5 AuditAction.dispute_created 2 [] (some 7) one_record,
  refl,
  refl,
  refl,
  one_record-IsChained,
)

append_record-IsChained_example :
    IsChained digest (appended digest at_5 AuditAction.market_resolved 3 [] none two_records).1
append_record-IsChained_example =
    append_record-IsChained digest at_5 AuditAction.market_resolved 3 [] none two_records
      two_records-IsChained

-- a trail whose first record was exchanged does not pass
exchanged_fails :
    verify_integrity digest (record two_records { records = update two_records.records 1 none }) 10
    ≡ false
unfolding verify_integrity verify_from get_record
exchanged_fails = refl

verify_integrity_agree_example :
    get_latest_records two_records 10 ≡ get_latest_records stray_record 10
unfolding verify_integrity verify_from get_record
verify_integrity_agree_example =
    verify_integrity_agree digest two_records stray_record 10 (λ j r r' e e' d. ground arith) refl
      refl refl
