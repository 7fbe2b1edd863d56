-- ===== src/Fees/Withdraw/Tests.antt =====
-- A withdrawal of fees on small inputs (contracts/predictify-hybrid/src/fees.rs), with a token whose
-- ledger is what each address holds.
use predictify_contracts.Base.{
  ℕ, ◌≤◌, ◌≡◌, ◌⊎◌, refl, Option, none, some, true, ◌==◌, if◌then◌else◌,
}
use predictify_contracts.Base.Int.{ℤ, pos, ◌+ℤ◌, ◌-ℤ◌, ◌≤ℤ◌, ◌<ℤ◌, ltb_ℤ}
use predictify_contracts.Base.Maps.{Address, empty, update, get_or}
use predictify_contracts.Base.Host.{Env}
use predictify_contracts.Base.Action.{ok, is_ok}
use predictify_contracts.Guard.{with_guard}
use predictify_contracts.AuditTrail.{AuditRecord, append_record}
use predictify_contracts.Fees.{FeeStore}
use predictify_contracts.Fees.Withdraw.{
  withdraw_fees, pay_capped, pay_out, next_allowed, get_last_withdrawal_ts, get_schedule,
}
use predictify_contracts.Fees.Withdraw.Timelock.{IsPaid, withdraw_fees_ok}

abbrev at : ℕ → Env
at t = record { now = t; authorized = λ a. true }

abbrev transfer : Address → Address → Address → ℤ → (Address → ℤ) → Option (Address → ℤ)
transfer token from to n holds =
    if ltb_ℤ (holds from) n
    then none
    else (let paid = update holds from (holds from -ℤ n) in some (update paid to (paid to +ℤ n)))

abbrev digest : AuditRecord → ℕ
digest r = 0

-- the contract 9 holds 500, all of it fees, and paid the administrator 1 at the time 10
abbrev till : FeeStore (Address → ℤ)
till = record {
  admin = some 1;
  vault = some (pos 500);
  last_withdrawal = some 10;
  schedule = none;
  active = none;
  pending = none;
  pending_eta = none;
  history = none;
  token_id = some 4;
  locks = empty;
  audit = record { records = empty; head = none };
  ledger = λ a. if a == 9 then pos 500 else pos 0;
}

withdrawal_accepted :
    is_ok (withdraw_fees transfer digest (pos 10000) 9 (at 604810) 1 (pos 300) till).0 ≡ true
unfolding withdraw_fees pay_capped pay_out with_guard append_record ◌+ℤ◌ ◌-ℤ◌
withdrawal_accepted = refl

withdraw_fees_ok_example :
    let s' = (withdraw_fees transfer digest (pos 10000) 9 (at 604810) 1 (pos 300) till).1 in
    (n : ℤ) × ((withdraw_fees transfer digest (pos 10000) 9 (at 604810) 1 (pos 300) till).0 ≡ ok n)
    × (((n ≡ pos 0) × (s' ≡ till))
        ⊎ ((pos 0 <ℤ n)
            × (n ≤ℤ get_or till.vault (pos 0))
            × (next_allowed (get_last_withdrawal_ts till) (get_schedule till) ≤ 604810)
            × IsPaid transfer digest
                (pos 10000)
                9
                (at 604810)
                1
                (get_or till.vault (pos 0))
                n
                till
                s'))
withdraw_fees_ok_example =
    withdraw_fees_ok transfer digest (pos 10000) 9 (at 604810) 1 (pos 300) till withdrawal_accepted
