-- ===== src/Markets.antt =====
-- Markets (contracts/predictify-hybrid/src/types.rs, markets.rs): what is stored of a market, the
-- states it goes through, and the checks on them. Outcomes are texts that are only compared with
-- one another and are numbers. The fallback's configuration, the metadata commitment and the extension
-- history are left out: no operation below reads them.
pub mod Lifecycle
pub mod Updates
pub mod Cache
pub mod Pause
pub mod Payout
mod Tests
use Prim.Native.String.{String}
use text.Mathlib.Text.{◌==◌ as str_eq}
use predictify_contracts.Base.{
  ℕ, Option, none, some, Bool, true, false, not, ◌&&◌, ◌||◌, List, [], ◌∷◌, ◌==◌, ltb, leb,
  if◌then◌else◌,
}
use predictify_contracts.Base.Int.{ℤ}
use predictify_contracts.Base.Lists.{is_empty, contains}
use predictify_contracts.Base.Maps.{Address, Symbol, Map, has}
use predictify_contracts.Base.Host.{Env}
use predictify_contracts.Base.Action.{Result, ok, err}
use predictify_contracts.Errors.{
  Error, illegal_market_state_transition, market_closed, market_resolved, oracle_unavailable,
  invalid_outcome, invalid_state,
}

abbrev pub Outcome : Type 0
Outcome = ℕ

pub data MarketState : Type 0 where
  active ended disputed resolved closed cancelled : MarketState

abbrev pub state_number : MarketState → ℕ
state_number active = 0
state_number ended = 1
state_number disputed = 2
state_number resolved = 3
state_number closed = 4
state_number cancelled = 5

-- `==` on states
abbrev pub same_state : MarketState → MarketState → Bool
same_state a b = state_number a == state_number b

pub record ClaimInfo : Type 0 where
  pub claimed : Bool
  pub timestamp : ℕ
  pub payout_amount : ℤ

-- what a market's oracle is asked, without the provider and the address
pub record OracleConfig : Type 0 where
  pub feed_id : String
  pub threshold : ℤ
  pub comparison : String

pub record Market : Type 0 where
  pub admin : Address
  pub question : String
  pub outcomes : List Outcome
  pub end_time : ℕ
  pub oracle_config : OracleConfig
  pub has_fallback : Bool
  pub resolution_timeout : ℕ
  pub oracle_result : Option Outcome
  pub votes : Map Outcome
  pub stakes : Map ℤ
  pub claimed : Map ClaimInfo
  pub total_staked : ℤ
  -- a `Map` that is asked whether it is empty: its entries, the latest first
  pub dispute_stakes : List (Address × ℤ)
  pub winning_outcomes : Option (List Outcome)
  pub fee_collected : Bool
  pub state : MarketState
  pub total_extension_days : ℕ
  pub max_extension_days : ℕ
  pub category : Option String
  pub tags : List String
  pub min_pool_size : Option ℤ
  pub bet_deadline : ℕ
  pub dispute_window_seconds : ℕ
  pub winnings_swept : Bool

-- `MarketStateLogic::validate_state_transition`, its table
abbrev pub transition_allowed : MarketState → MarketState → Bool
transition_allowed active t =
    same_state t ended || same_state t cancelled || same_state t closed || same_state t disputed
transition_allowed ended t =
    same_state t resolved || same_state t disputed || same_state t closed || same_state t cancelled
transition_allowed disputed t =
    same_state t resolved || same_state t closed || same_state t cancelled
transition_allowed resolved t = same_state t closed
transition_allowed closed t = false
transition_allowed cancelled t = false

abbrev pub validate_state_transition : MarketState → MarketState → Result Error (Unit {0})
validate_state_transition s t =
    if transition_allowed s t then ok tt else err illegal_market_state_transition

-- `MarketStateLogic::check_function_access_for_state`, its table
abbrev pub function_allowed : String → MarketState → Bool
function_allowed f s =
    if str_eq f "vote"
    then same_state s active
    else (if str_eq f "dispute"
        then same_state s ended
        else (if str_eq f "resolve"
            then same_state s ended || same_state s disputed
            else (if str_eq f "claim"
                then same_state s resolved
                else (if str_eq f "close"
                    then same_state s resolved || same_state s cancelled || same_state s closed
                    else true))))

abbrev pub check_function_access_for_state : String → MarketState → Result Error (Unit {0})
check_function_access_for_state f s = if function_allowed f s then ok tt else err market_closed

-- `MarketStateLogic::validate_market_state_consistency`
pub validate_market_state_consistency : Env → Market → Result Error (Unit {0})
validate_market_state_consistency env m = elim m.state [
  | active ↦ if leb m.end_time env.now || has m.winning_outcomes then err invalid_state else ok tt
  | ended ↦ if ltb env.now m.end_time || has m.winning_outcomes then err invalid_state else ok tt
  | disputed ↦ if is_empty m.dispute_stakes then err invalid_state else ok tt
  | resolved ↦ if has m.winning_outcomes then ok tt else err invalid_state
  | closed ↦ ok tt
  | cancelled ↦ ok tt
]

-- `MarketValidator::validate_market_for_voting`
abbrev pub validate_market_for_voting : Env → Market → Result Error (Unit {0})
validate_market_for_voting env m =
    if leb m.end_time env.now
    then err market_closed
    else (if has m.oracle_result then err market_resolved else ok tt)

-- `MarketValidator::validate_market_for_resolution`
abbrev pub validate_market_for_resolution : Env → Market → Result Error (Unit {0})
validate_market_for_resolution env m =
    if ltb env.now m.end_time
    then err market_closed
    else (if has m.oracle_result then ok tt else err oracle_unavailable)

-- `MarketValidator::validate_outcome`
abbrev pub validate_outcome : Outcome → List Outcome → Result Error (Unit {0})
validate_outcome o outcomes = if contains outcomes o then ok tt else err invalid_outcome
