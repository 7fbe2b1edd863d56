-- ===== src/Markets/Updates.antt =====
-- `MarketStateManager` (contracts/predictify-hybrid/src/markets.rs): the changes to a market that
-- its callers hold in memory. A check that the code unwraps panics where it fails.
pub mod Course
use predictify_contracts.Base.{
  ℕ, ◌+◌, ◌*◌, Option, none, some, Bool, true, false, ◌&&◌, ◌||◌, List, [], ◌∷◌, ◌==◌, ltb,
  if◌then◌else◌,
}
use predictify_contracts.Base.Int.{ℤ, pos, checked_add}
use predictify_contracts.Base.Maps.{Address, update, get_or}
use predictify_contracts.Base.Words.{add_u64, mul_u64, saturating_add_u32}
use predictify_contracts.Base.Host.{Env}
use predictify_contracts.Base.Action.{
  Action, Result, ok, err, panic, pure, raise_if, gets, or_abort, modify, ◌>>=◌, ◌>>◌,
}
use predictify_contracts.Errors.{Error, extension_cap_exceeded}
use predictify_contracts.Markets.{
  Outcome, MarketState, ended, disputed, resolved, closed, ClaimInfo, Market, same_state,
  validate_state_transition, check_function_access_for_state,
}

-- `unwrap()` on the result of a check
abbrev pub unwrap : {S : Type 0} → Result Error (Unit {0}) → Action S Error (Unit {0})
unwrap (ok _) s = (ok tt, s)
unwrap (err _) s = (panic, s)
unwrap panic s = (panic, s)

-- a change of state behind its unwrapped check
abbrev pub move_to : MarketState → Action Market Error (Unit {0})
move_to t s =
    (unwrap (validate_state_transition s.state t) >> modify (λ m. record m { state = t })) s

-- the unwrapped access check of a function
abbrev pub access : (MarketState → Result Error (Unit {0})) → Action Market Error (Unit {0})
access check s = unwrap (check s.state) s

pub add_vote : Address → Outcome → ℤ → Action Market Error (Unit {0})
add_vote user outcome stake = do
  access (check_function_access_for_state "vote")
  modify (λ m. record m { votes = update m.votes user (some outcome) })
  modify (λ m. record m { stakes = update m.stakes user (some stake) })
  before ← gets (λ m. m.total_staked)
  total ← or_abort (checked_add before stake)
  modify (λ m. record m { total_staked = total })

-- the entry of `user` in a map that is its list of entries, and the list without it
abbrev pub stake_of : List (Address × ℤ) → Address → ℤ
stake_of [] user = pos 0
stake_of ((u, n) ∷ l) user = if user == u then n else stake_of l user

abbrev pub without : List (Address × ℤ) → Address → List (Address × ℤ)
without [] user = []
without ((u, n) ∷ l) user = if user == u then without l user else (u, n) ∷ without l user

pub add_dispute_stake : Address → ℤ → Action Market Error (Unit {0})
add_dispute_stake user stake = do
  access (check_function_access_for_state "dispute")
  existing ← gets (λ m. stake_of m.dispute_stakes user)
  sum ← or_abort (checked_add existing stake)
  modify (λ m. record m { dispute_stakes = (user, sum) ∷ without m.dispute_stakes user })
  state ← gets (λ m. m.state)
  elim (same_state state ended) [ true ↦ move_to disputed | false ↦ pure tt ]

pub mark_claimed : Env → Address → ℤ → Action Market Error (Unit {0})
mark_claimed env user payout_amount = do
  access (check_function_access_for_state "claim")
  modify (λ m. record m {
    claimed =
        update m.claimed user
          (some (record { claimed = true; timestamp = env.now; payout_amount = payout_amount }));
  })

pub set_oracle_result : Outcome → Action Market Error (Unit {0})
set_oracle_result result = modify (λ m. record m { oracle_result = some result })

unfoldable pub set_winning_outcomes : List Outcome → Action Market Error (Unit {0})
set_winning_outcomes outcomes = do
  access (check_function_access_for_state "resolve")
  modify (λ m. record m { winning_outcomes = some outcomes })
  state ← gets (λ m. m.state)
  elim (same_state state ended || same_state state disputed) [
    | true ↦ move_to resolved
    | false ↦ pure tt
  ]

pub set_winning_outcome : Outcome → Action Market Error (Unit {0})
unfolding set_winning_outcomes
set_winning_outcome outcome = set_winning_outcomes (outcome ∷ [])

pub mark_fees_collected : Action Market Error (Unit {0})
mark_fees_collected = do
  access (check_function_access_for_state "close")
  state ← gets (λ m. m.state)
  elim (same_state state resolved) [ true ↦ move_to closed | false ↦ pure tt ]
  modify (λ m. record m { fee_collected = true })

-- `MAX_CUMULATIVE_EXTENSION_HOURS`
abbrev pub max_extension_hours : ℕ
max_extension_hours = 72

-- the hours are added to `total_extension_days`, as the code does
pub extend_for_dispute : Env → ℕ → Action Market Error (Unit {0})
extend_for_dispute env extension_hours = do
  days ← gets (λ m. m.total_extension_days)
  total ← or_abort (add_u64 days extension_hours)
  raise_if (ltb max_extension_hours total) extension_cap_exceeded
  minutes ← or_abort (mul_u64 extension_hours 60)
  seconds ← or_abort (mul_u64 minutes 60)
  later ← or_abort (add_u64 env.now seconds)
  modify (λ m. if ltb m.end_time later then record m { end_time = later } else m)
  modify (λ m. record m {
    total_extension_days = saturating_add_u32 m.total_extension_days extension_hours;
  })
