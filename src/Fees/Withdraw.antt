-- ===== src/Fees/Withdraw.antt =====
-- Withdrawing the collected fees (contracts/predictify-hybrid/src/fees.rs, `FeeWithdrawalManager`).
-- The token contract and the digest of an audit record are not part of the repository: `transfer`
-- and `digest` are parameters, where a transfer that is `none` fails and so panics, and so is the
-- denominator of the basis points.
pub mod Timelock
mod Tests
use predictify_contracts.Base.{
  ℕ, ◌-◌, ◌≤◌, ◌<◌, ◌≡◌, Option, some, none, Bool, true, false, not, ◌&&◌, ◌||◌, List, [], ◌==◌,
  ltb, if◌then◌else◌,
}
use predictify_contracts.Base.Int.{ℤ, pos, pos_part, neg_part, ltb_ℤ, leb_ℤ, checked_sub}
use predictify_contracts.Base.Words.{saturating_add_u64}
use predictify_contracts.Base.Maps.{Address, Symbol, has, get_or}
use predictify_contracts.Base.Host.{Env}
use predictify_contracts.Base.Action.{
  Action, Result, ok, err, pure, raise_if, gets, or_raise, or_abort, modify, zoom, ◌>>=◌, ◌>>◌,
}
use predictify_contracts.Errors.{Error, invalid_input, invalid_state}
use predictify_contracts.Guard.{with_guard}
use predictify_contracts.AuditTrail.{AuditRecord, fees_withdrawn, append_record}
use predictify_contracts.Balances.{external_call_scope}
use predictify_contracts.Fees.{
  FeeWithdrawalSchedule, FeeStore, checked_bps_floor, validate_admin_permissions,
}

-- seven days in seconds
abbrev pub default_timelock : ℕ
default_timelock = 604800

abbrev pub default_schedule : FeeWithdrawalSchedule
default_schedule = record { timelock_seconds = default_timelock; max_withdrawal_bps = 10000 }

-- whether a schedule loosens the one that is stored
abbrev pub loosens : FeeWithdrawalSchedule → Option FeeWithdrawalSchedule → Bool
loosens new none = false
loosens new (some old) =
    ltb new.timelock_seconds old.timelock_seconds
    || ltb old.max_withdrawal_bps new.max_withdrawal_bps

-- the earliest time of the next withdrawal, 0 before the first one
abbrev pub next_allowed : ℕ → FeeWithdrawalSchedule → ℕ
next_allowed last sch = if last == 0 then 0 else saturating_add_u64 last sch.timelock_seconds

-- what is paid for a request, from what is available and the cap's amount
abbrev pub amount_for : ℤ → ℤ → ℤ → ℤ
amount_for requested available cap =
    let desired =
      if pos_part requested == 0 && neg_part requested == 0 then available else requested in
    let amount = if ltb_ℤ available desired then available else desired in
    if ltb_ℤ cap amount then cap else amount

-- a cap that rounds to nothing lets one stroop through
abbrev pub raised_cap : ℕ → ℤ → ℤ
raised_cap bps cap = if ltb bps 10000 && pos_part cap == 0 && neg_part cap == 0 then pos 1 else cap

module _ {L : Type 0} where
  abbrev pub get_schedule : FeeStore L → FeeWithdrawalSchedule
  get_schedule s = get_or s.schedule default_schedule

  abbrev pub get_last_withdrawal_ts : FeeStore L → ℕ
  get_last_withdrawal_ts s = get_or s.last_withdrawal 0

  pub set_schedule : Address → FeeWithdrawalSchedule → Action (FeeStore L) Error (Unit {0})
  set_schedule admin new = do
    (λ s. (validate_admin_permissions admin s, s))
    raise_if (ltb new.timelock_seconds default_timelock) invalid_input
    raise_if (new.max_withdrawal_bps == 0 || ltb 10000 new.max_withdrawal_bps) invalid_input
    current ← gets (λ s. s.schedule)
    raise_if (loosens new current) invalid_input
    modify (λ s. record s { schedule = some new })

  module _ (transfer : Address → Address → Address → ℤ → L → Option L) (digest : AuditRecord → ℕ)
      (denominator : ℤ) (contract : Address) where
    abbrev pub move : Address → Address → ℤ → Action (FeeStore L) Error (Unit {0})
    move token to amount = do
      ledger ← gets (λ s. s.ledger)
      ledger' ← or_abort (transfer token contract to amount ledger)
      modify (λ s. record s { ledger = ledger' })

    abbrev pub transfer_fees_to_admin : Address → ℤ → Action (FeeStore L) Error (Unit {0})
    transfer_fees_to_admin admin amount = do
      entry ← gets (λ s. s.token_id)
      token ← or_raise entry invalid_state
      with_guard (λ s. s.locks) (λ m s. record s { locks = m }) invalid_state external_call_scope
          (move token admin amount)

    -- the withdrawal of an amount once the schedule allows it
    pub pay_out : Env → Address → ℤ → ℤ → Action (FeeStore L) Error ℤ
    pay_out env admin available amount = do
      remaining ← or_raise (checked_sub available amount) invalid_input
      modify (λ s. record s { vault = some remaining })
      modify (λ s. record s { last_withdrawal = some env.now })
      transfer_fees_to_admin admin amount
      zoom (λ s. s.audit) (λ a s. record s { audit = a })
          (append_record digest env fees_withdrawn admin [] none)
      pure amount

    -- the amount that the schedule lets through, and its payment
    pub pay_capped : Env → Address → ℤ → ℤ → ℕ → Action (FeeStore L) Error ℤ
    pay_capped env admin requested available bps = do
      cap ← checked_bps_floor denominator available (pos bps)
      let amount = amount_for requested available (raised_cap bps cap)
      elim (leb_ℤ amount (pos 0)) [
        | true ↦ pure (pos 0)
        | false ↦ pay_out env admin available amount
      ]

    pub withdraw_fees : Env → Address → ℤ → Action (FeeStore L) Error ℤ
    withdraw_fees env admin requested = do
      raise_if (ltb_ℤ requested (pos 0)) invalid_input
      sch ← gets get_schedule
      last ← gets get_last_withdrawal_ts
      available ← gets (λ s. get_or s.vault (pos 0))
      let next = next_allowed last sch
      elim (leb_ℤ available (pos 0) || (not (next == 0) && ltb env.now next)) [
        | true ↦ pure (pos 0)
        | false ↦ pay_capped env admin requested available sch.max_withdrawal_bps
      ]
