-- ===== src/Bets.antt =====
-- Bets (contracts/predictify-hybrid/src/bets.rs, and `Bet`, `BetStatus`, `BetStats` and `BetLimits`
-- of contracts/predictify-hybrid/src/types.rs): what is stored, the limits on an amount, and the
-- checks before a bet. Of the two fee configurations only the entries that betting reads are kept.
-- Events are left out.
pub mod Limits
pub mod Storage
pub mod Place
pub mod Settle
use predictify_contracts.Base.{
  ℕ, Option, none, some, Bool, true, false, not, ◌&&◌, List, ◌==◌, ltb, leb, if◌then◌else◌,
}
use predictify_contracts.Base.Int.{ℤ, pos, ltb_ℤ}
use predictify_contracts.Base.Maps.{Address, Symbol, Map, has}
use predictify_contracts.Base.Host.{Env}
use predictify_contracts.Base.Action.{Action, Result, ok, err, panic, zoom}
use predictify_contracts.Errors.{Error, market_closed, market_resolved, invalid_state}
use predictify_contracts.Breaker.{BreakerStore}
use predictify_contracts.Markets.{Outcome, Market, active as trading, same_state}
use predictify_contracts.Markets.Cache.{MarketStore}

pub data BetStatus : Type 0 where
  active won lost refunded cancelled : BetStatus

abbrev pub status_number : BetStatus → ℕ
status_number active = 0
status_number won = 1
status_number lost = 2
status_number refunded = 3
status_number cancelled = 4

pub record Bet : Type 0 where
  pub user : Address
  pub market_id : Symbol
  pub outcome : Outcome
  pub amount : ℤ
  pub timestamp : ℕ
  pub status : BetStatus

-- `Bet::new`
abbrev pub new_bet : Env → Address → Symbol → Outcome → ℤ → Bet
new_bet env user market_id outcome amount = record {
  user = user;
  market_id = market_id;
  outcome = outcome;
  amount = amount;
  timestamp = env.now;
  status = active;
}

abbrev pub is_active : Bet → Bool
is_active b = status_number b.status == 0

abbrev pub is_winner : Bet → Bool
is_winner b = status_number b.status == 1

abbrev pub is_cancelled : Bet → Bool
is_cancelled b = status_number b.status == 4

abbrev pub mark_as : BetStatus → Bet → Bet
mark_as status b = record b { status = status }

pub record BetStats : Type 0 where
  pub total_bets : ℕ
  pub total_amount_locked : ℤ
  pub unique_bettors : ℕ
  pub outcome_totals : Map ℤ

pub record BetLimits : Type 0 where
  pub min_bet : ℤ
  pub max_bet : ℤ

-- of `FeeConfig` in config.rs and in fees.rs
pub record FeeTerms : Type 0 where
  pub platform_fee_percentage : ℤ
  pub fees_enabled : Bool

-- the entries of the bets, of the markets, of the limits and of the fees, the reentrancy locks, the
-- keys of the batches that were applied, and the token contract's ledger
pub record BetStore (L : Type 0) : Type 0 where
  pub bets : Symbol → Address → Option Bet
  pub registry : Symbol → Option (List Address)
  pub stats : Symbol → Option BetStats
  pub event_limits : Map BetLimits
  pub global_limits : Option BetLimits
  pub config_fees : Option FeeTerms
  pub fee_config : Option FeeTerms
  pub plat_fee : Option ℤ
  pub batches : Address → ℕ → Bool
  pub locks : Map Bool
  pub token_id : Option Address
  pub breaker : BreakerStore
  pub markets : MarketStore
  pub ledger : L

-- `MIN_BET_AMOUNT` and `MAX_BET_AMOUNT`, in stroops
abbrev pub min_bet_amount : ℕ
min_bet_amount = 1000000

abbrev pub max_bet_amount : ℕ
max_bet_amount = 100000000000

-- `DEFAULT_PLATFORM_FEE_PERCENTAGE`, and `PLATFORM_FEE_PERCENTAGE` of fees.rs
abbrev pub default_platform_fee : ℤ
default_platform_fee = pos 200

-- `BetValidator::effective_bet_deadline`
abbrev pub effective_bet_deadline : Market → Result Error ℕ
effective_bet_deadline m =
    if m.bet_deadline == 0
    then ok m.end_time
    else (if ltb m.end_time m.bet_deadline then err invalid_state else ok m.bet_deadline)

abbrev pub negative_pool : Option ℤ → Bool
negative_pool none = false
negative_pool (some n) = ltb_ℤ n (pos 0)

abbrev pub before_deadline : Env → Market → Result Error ℕ → Result Error (Unit {0})
before_deadline env m (ok deadline) =
    if leb deadline env.now
    then err market_closed
    else (if has m.winning_outcomes then err market_resolved else ok tt)
before_deadline env m (err e) = err e
before_deadline env m panic = panic

-- `BetValidator::validate_market_for_betting`
pub validate_market_for_betting : Env → Market → Result Error (Unit {0})
validate_market_for_betting env m =
    if not (same_state m.state trading)
    then err market_closed
    else (if negative_pool m.min_pool_size
        then err invalid_state
        else before_deadline env m (effective_bet_deadline m))

module _ {L : Type 0} where
  -- a check that reads the store
  abbrev pub check : {A : Type 0} → (BetStore L → Result Error A) → Action (BetStore L) Error A
  check f s = (f s, s)

  abbrev pub on_breaker : {A : Type 0} → Action BreakerStore Error A → Action (BetStore L) Error A
  on_breaker = zoom (λ s. s.breaker) (λ b s. record s { breaker = b })

  abbrev pub on_markets : {A : Type 0} → Action MarketStore Error A → Action (BetStore L) Error A
  on_markets = zoom (λ s. s.markets) (λ m s. record s { markets = m })
