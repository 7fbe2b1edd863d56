-- ===== src/AuditTrail.antt =====
-- The append-only audit trail (contracts/predictify-hybrid/src/audit_trail.rs): a head, and one
-- record for each index, each with the digest of the record before it. The digest of a record,
-- sha256 of its XDR form, is the host's: it is a parameter. Digests are only compared.
pub mod Integrity
pub mod Tamper
mod Tests
use Prim.Native.String.{String}
use predictify_contracts.Base.{
  ℕ, zero, suc, Option, none, some, Bool, true, false, List, [], ◌∷◌, ◌==◌,
}
use predictify_contracts.Errors.{Error}
use predictify_contracts.Base.Maps.{Address, Symbol, Map, update, get_or}
use predictify_contracts.Base.Words.{add_u64}
use predictify_contracts.Base.Host.{Env}
use predictify_contracts.Base.Action.{Action, gets, or_abort, modify, pure, ◌>>=◌, ◌>>◌}

pub data AuditAction : Type 0 where
  contract_initialized admin_added admin_removed admin_role_updated contract_paused : AuditAction
  contract_unpaused admin_transferred market_created event_created : AuditAction
  event_description_updated event_outcomes_updated event_category_updated : AuditAction
  event_tags_updated event_cancelled market_updated fees_collected fees_withdrawn : AuditAction
  fee_config_updated oracle_config_updated token_verified bet_limits_updated : AuditAction
  market_resolved market_force_resolved dispute_created dispute_resolved : AuditAction
  oracle_verification_override storage_optimized storage_migrated contract_upgraded : AuditAction
  upgrade_rolled_back error_recovered partial_refund_executed : AuditAction

pub record AuditRecord : Type 0 where
  pub index : ℕ
  pub action : AuditAction
  pub actor : Address
  pub timestamp : ℕ
  pub details : List (Symbol × String)
  pub prev_record_hash : ℕ
  pub override_nonce : Option ℕ

pub record AuditTrailHead : Type 0 where
  pub latest_index : ℕ
  pub latest_hash : ℕ

-- the entries "AUDIT_HEAD" and ("AUDIT_REC", index)
pub record AuditStore : Type 0 where
  pub head : Option AuditTrailHead
  pub records : Map AuditRecord

-- the head that is assumed where none is stored: no record, the digest of 32 zero bytes
abbrev pub first_head : AuditTrailHead
first_head = record { latest_index = 0; latest_hash = 0 }

pub get_record : ℕ → AuditStore → Option AuditRecord
get_record index store = store.records index

-- the loop of `get_latest_records`, on the index to read next and the rounds left
pub latest_from : AuditStore → ℕ → ℕ → List AuditRecord
unfolding get_record
latest_from store zero limit = []
latest_from store (suc i) zero = []
latest_from store (suc i) (suc limit) =
    let rest = latest_from store i limit in
    elim (get_record (suc i) store) [ none ↦ rest | some r ↦ r ∷ rest ]

pub get_latest_records : AuditStore → ℕ → List AuditRecord
unfolding latest_from
get_latest_records store limit = elim store.head [
  | none ↦ []
  | some h ↦ latest_from store h.latest_index limit
]

-- the record that is appended behind the head `h`
abbrev pub record_of :
    Env
    → AuditAction
    → Address
    → List (Symbol × String)
    → Option ℕ
    → AuditTrailHead
    → ℕ
    → AuditRecord
record_of env act who det nonce h i = record {
  index = i;
  action = act;
  actor = who;
  timestamp = env.now;
  details = det;
  prev_record_hash = h.latest_hash;
  override_nonce = nonce;
}

module _ (digest : AuditRecord → ℕ) where
  unfoldable pub append_record :
      Env → AuditAction → Address → List (Symbol × String) → Option ℕ → Action AuditStore Error ℕ
  append_record env action actor details override_nonce = do
    head ← gets (λ s. get_or s.head first_head)
    new_index ← or_abort (add_u64 head.latest_index 1)
    let rec = record_of env action actor details override_nonce head new_index
    modify (λ s. record s { records = update s.records new_index (some rec) })
    modify (λ s. record s {
      head = some (record { latest_index = new_index; latest_hash = digest rec });
    })
    pure new_index

  -- the loop of `verify_integrity`, on the index to check next, the digest expected there and the
  -- rounds left
  pub verify_from : AuditStore → ℕ → ℕ → ℕ → Bool
  unfolding get_record
  verify_from store zero expected depth = true
  verify_from store (suc i) expected zero = true
  verify_from store (suc i) expected (suc depth) = elim (get_record (suc i) store) [
    | none ↦ false
    | some r ↦ elim (digest r == expected) [
      | true ↦ verify_from store i r.prev_record_hash depth
      | false ↦ false
    ]
  ]

  pub verify_integrity : AuditStore → ℕ → Bool
  unfolding verify_from
  verify_integrity store depth = elim store.head [
    | none ↦ true
    | some h ↦ verify_from store h.latest_index h.latest_hash depth
  ]
