-- ===== src/Bets/Limits.antt =====
-- The limits on a bet's amount and on the fee (contracts/predictify-hybrid/src/bets.rs).
use predictify_contracts.Base.{◌≡◌, ◌↔◌, Option, none, some, true, if◌then◌else◌, List, arith}
use predictify_contracts.Base.Int.{ℤ, pos, ltb_ℤ, ◌≤ℤ◌}
use predictify_contracts.Base.Maps.{Symbol, update, get_or}
use predictify_contracts.Base.Action.{Action, Result, ok, err, panic, lift, modify, ◌>>◌}
use predictify_contracts.Errors.{Error, insufficient_stake, invalid_input, fee_exceeds_max}
use predictify_contracts.Markets.{Outcome, validate_outcome}
use predictify_contracts.Bets.{
  BetLimits, FeeTerms, BetStore, min_bet_amount, max_bet_amount, default_platform_fee,
}

unfoldable pub validate_limits_bounds : BetLimits → Result Error (Unit {0})
validate_limits_bounds l =
    if ltb_ℤ l.max_bet l.min_bet
    then err invalid_input
    else (if ltb_ℤ l.min_bet (pos min_bet_amount)
        then err insufficient_stake
        else (if ltb_ℤ (pos max_bet_amount) l.max_bet then err invalid_input else ok tt))

-- Limits that `validate_limits_bounds` accepts: ordered, and within the absolute bounds.
abbrev pub IsSane : BetLimits → Type 0
IsSane l =
    (l.min_bet ≤ℤ l.max_bet) × (pos min_bet_amount ≤ℤ l.min_bet) × (l.max_bet ≤ℤ pos max_bet_amount)

abbrev pub default_limits : BetLimits
default_limits = record { min_bet = pos min_bet_amount; max_bet = pos max_bet_amount }

-- the slippage guard's fee: it does not ask whether fees are enabled
abbrev pub effective_fee_bps : Option FeeTerms → Option ℤ → ℤ
effective_fee_bps (some c) _ = c.platform_fee_percentage
effective_fee_bps none legacy = get_or legacy default_platform_fee

abbrev pub enabled_fee : FeeTerms → ℤ
enabled_fee c = if c.fees_enabled then c.platform_fee_percentage else pos 0

-- The bounds check accepts exactly the sane limits.
pub validate_limits_bounds_iff : (l : BetLimits) → (validate_limits_bounds l ≡ ok tt) ↔ IsSane l
unfolding validate_limits_bounds
validate_limits_bounds_iff l = (λ h. ground arith, λ h. ground arith)

module _ {L : Type 0} where
  abbrev pub get_effective_bet_limits : Symbol → BetStore L → BetLimits
  get_effective_bet_limits id s = get_or (s.event_limits id) (get_or s.global_limits default_limits)

  unfoldable pub set_global_bet_limits : BetLimits → Action (BetStore L) Error (Unit {0})
  set_global_bet_limits l = do
    lift (validate_limits_bounds l)
    modify (λ s. record s { global_limits = some l })

  unfoldable pub set_event_bet_limits : Symbol → BetLimits → Action (BetStore L) Error (Unit {0})
  set_event_bet_limits id l = do
    lift (validate_limits_bounds l)
    modify (λ s. record s { event_limits = update s.event_limits id (some l) })

  abbrev pub validate_bet_amount_against_limits : Symbol → ℤ → BetStore L → Result Error (Unit {0})
  validate_bet_amount_against_limits id amount s =
      let limits = get_effective_bet_limits id s in
      if ltb_ℤ amount limits.min_bet
      then err insufficient_stake
      else (if ltb_ℤ limits.max_bet amount then err invalid_input else ok tt)

  unfoldable pub validate_bet_parameters :
      Symbol → Outcome → List Outcome → ℤ → BetStore L → Result Error (Unit {0})
  validate_bet_parameters id outcome valid amount s = elim (validate_outcome outcome valid) [
    | ok _ ↦ validate_bet_amount_against_limits id amount s
    | err e ↦ err e
    | panic ↦ panic
  ]

  unfoldable pub validate_fee_slippage : ℤ → BetStore L → Result Error (Unit {0})
  validate_fee_slippage max_fee s =
      if ltb_ℤ max_fee (effective_fee_bps s.config_fees s.plat_fee)
      then err fee_exceeds_max
      else ok tt

  -- the configuration of the fees always answers, so the code's later sources are never asked
  abbrev pub get_live_fee_percentage : BetStore L → ℤ
  get_live_fee_percentage s = elim s.config_fees [
    | some c ↦ enabled_fee c
    | none ↦ enabled_fee (
        get_or s.fee_config
          (record { platform_fee_percentage = default_platform_fee; fees_enabled = true }))
  ]

  -- the first slippage check of `place_bet_inner` and `place_bets`
  unfoldable pub check_live_fee : ℤ → BetStore L → Result Error (Unit {0})
  check_live_fee max_fee s =
      if ltb_ℤ (pos 0) max_fee
      then (if ltb_ℤ max_fee (get_live_fee_percentage s) then err fee_exceeds_max else ok tt)
      else ok tt

  -- The limits of every market are sane.
  abbrev pub IsLimited : BetStore L → Type 0
  IsLimited s = (id : Symbol) → IsSane (get_effective_bet_limits id s)
