-- ===== src/Markets/Updates/Course.antt =====
-- The course of a market through its updates (contracts/predictify-hybrid/src/markets.rs,
-- `MarketStateManager`).
use predictify_contracts.Base.{
  ℕ, ◌+◌, ◌*◌, ◌≤◌, ◌≡◌, none, some, Bool, true, false, List, [], ◌∷◌, arith, ◌⊎◌, ◌||◌, Bool-cases,
  subst, inl, inr,
}
use predictify_contracts.Base.Int.{ℤ}
use predictify_contracts.Base.Maps.{Address, has}
use predictify_contracts.Base.Host.{Env}
use predictify_contracts.Base.Action.{Action, is_ok, commit, commit_keeps}
use predictify_contracts.Errors.{Error}
use predictify_contracts.Markets.{
  Outcome, Market, MarketState, same_state, transition_allowed, active, ended, disputed, resolved,
  closed,
}
use predictify_contracts.Base.Lists.{is_empty}
use predictify_contracts.Markets.Lifecycle.{
  Reach, Reach-refl, Step-Reach, Reach-trans, validate_state_transition_iff, same_state_sound,
}
use predictify_contracts.Markets.Updates.{
  add_vote, add_dispute_stake, mark_claimed, set_oracle_result, set_winning_outcomes,
  mark_fees_collected, extend_for_dispute, max_extension_hours,
}

-- The updates.
pub data Op : Type 0 where
  vote : Address → Outcome → ℤ → Op
  dispute : Address → ℤ → Op
  claim : Env → Address → ℤ → Op
  oracle : Outcome → Op
  resolve : List Outcome → Op
  collect : Op
  extend : Env → ℕ → Op

abbrev pub run : Op → Action Market Error (Unit {0})
run (Op.vote user outcome stake) = add_vote user outcome stake
run (Op.dispute user stake) = add_dispute_stake user stake
run (Op.claim env user payout) = mark_claimed env user payout
run (Op.oracle result) = set_oracle_result result
run (Op.resolve outcomes) = set_winning_outcomes outcomes
run Op.collect = mark_fees_collected
run (Op.extend env hours) = extend_for_dispute env hours

module _ (op : Op) (m : Market) where
  -- what holds where an update ends with a value, given that it does for each of them
  abbrev Ends : (Market → Type 0) → Type 0
  Ends P = is_ok (run op m).0 ≡ true → P (run op m).1

-- the test on two states that an update leads from one to the other
abbrev moves : MarketState → MarketState → Bool
moves s t = same_state s t || transition_allowed s t

run_moves : (op : Op) (m : Market) → Ends op m (λ m'. moves m.state m'.state ≡ true)
unfolding add_vote add_dispute_stake mark_claimed set_oracle_result set_winning_outcomes
    mark_fees_collected extend_for_dispute
run_moves (Op.vote user outcome stake) m h = ground arith
run_moves (Op.dispute user stake) m h = ground arith
run_moves (Op.claim env user payout) m h = ground arith
run_moves (Op.oracle result) m h = ground arith
run_moves (Op.resolve outcomes) m h = ground arith
run_moves Op.collect m h = ground arith
run_moves (Op.extend env hours) m h = ground arith

moves-Reach : (s t : MarketState) → moves s t ≡ true → Reach s t
moves-Reach s t h = elim (Bool-cases (transition_allowed s t)) [
  | inl a ↦ Step-Reach ((validate_state_transition_iff s t).0 (ground arith))
  | inr n ↦ subst (Reach s) (same_state_sound s t (ground arith)) (Reach-refl s)
]

-- One invocation for each update, rolled back where it fails.
abbrev pub run_all : List Op → Market → Market
run_all [] m = m
run_all (op ∷ ops) m = run_all ops (commit (run op) m).1

-- Any sequence of votes, disputes, claims, oracle results, resolutions, collections and extensions,
-- failures included, moves the state of a market only along steps that the table of transitions
-- allows.
pub run_all-Reach : (ops : List Op) (m : Market) → Reach m.state (run_all ops m).state
run_all-Reach [] m = Reach-refl m.state
run_all-Reach (op ∷ ops) m =
    Reach-trans
      (commit_keeps (λ m'. Reach m.state m'.state) (run op) m (Reach-refl m.state)
        (λ h. moves-Reach m.state (run op m).1.state (run_moves op m h)))
      (run_all-Reach ops (commit (run op) m).1)

-- What a state says about the rest of a market, whatever the time is.
pub record IsCoherent (m : Market) : Type 0 where
  pub unresolved :
      (m.state ≡ active) ⊎ ((m.state ≡ ended) ⊎ (m.state ≡ disputed)) → m.winning_outcomes ≡ none
  pub resolved : m.state ≡ resolved → has m.winning_outcomes ≡ true
  pub disputed : m.state ≡ disputed → is_empty m.dispute_stakes ≡ false

run-IsCoherent : (op : Op) (m : Market) → IsCoherent m → Ends op m IsCoherent
unfolding add_vote add_dispute_stake mark_claimed set_oracle_result set_winning_outcomes
    mark_fees_collected extend_for_dispute
run-IsCoherent (Op.vote user outcome stake) m c h = record {
  unresolved = λ i. ground (arith, c.unresolved);
  resolved = λ i. ground (arith, c.resolved);
  disputed = λ i. ground (arith, c.disputed);
}
run-IsCoherent (Op.dispute user stake) m c h = record {
  unresolved = λ i. ground (arith, c.unresolved);
  resolved = λ i. ground (arith, c.resolved);
  disputed = λ i. ground (arith, c.disputed);
}
run-IsCoherent (Op.claim env user payout) m c h = record {
  unresolved = λ i. ground (arith, c.unresolved);
  resolved = λ i. ground (arith, c.resolved);
  disputed = λ i. ground (arith, c.disputed);
}
run-IsCoherent (Op.oracle result) m c h = record {
  unresolved = λ i. ground (arith, c.unresolved);
  resolved = λ i. ground (arith, c.resolved);
  disputed = λ i. ground (arith, c.disputed);
}
run-IsCoherent (Op.resolve outcomes) m c h = record {
  unresolved = λ i. ground (arith, c.unresolved);
  resolved = λ i. ground (arith, c.resolved);
  disputed = λ i. ground (arith, c.disputed);
}
run-IsCoherent Op.collect m c h = record {
  unresolved = λ i. ground (arith, c.unresolved);
  resolved = λ i. ground (arith, c.resolved);
  disputed = λ i. ground (arith, c.disputed);
}
run-IsCoherent (Op.extend env hours) m c h = record {
  unresolved = λ i. ground (arith, c.unresolved);
  resolved = λ i. ground (arith, c.resolved);
  disputed = λ i. ground (arith, c.disputed);
}

pub run_all-IsCoherent : (ops : List Op) (m : Market) → IsCoherent m → IsCoherent (run_all ops m)
run_all-IsCoherent [] m c = c
run_all-IsCoherent (op ∷ ops) m c =
    run_all-IsCoherent ops (commit (run op) m).1
      (commit_keeps IsCoherent (run op) m c (run-IsCoherent op m c))

-- the states behind the resolution
abbrev is_settled : MarketState → Bool
is_settled resolved = true
is_settled closed = true
is_settled _ = false

-- A market that is resolved to these outcomes, and perhaps closed since.
abbrev pub Settled : List Outcome → Market → Type 0
Settled outcomes m = (is_settled m.state ≡ true) × (m.winning_outcomes ≡ some outcomes)

run-Settled :
    (outcomes : List Outcome) (op : Op) (m : Market)
    → Settled outcomes m
    → Ends op m (Settled outcomes)
unfolding add_vote add_dispute_stake mark_claimed set_oracle_result set_winning_outcomes
    mark_fees_collected extend_for_dispute
run-Settled outcomes (Op.vote user outcome stake) m s h = (ground arith, ground arith)
run-Settled outcomes (Op.dispute user stake) m s h = (ground arith, ground arith)
run-Settled outcomes (Op.claim env user payout) m s h = (ground arith, ground arith)
run-Settled outcomes (Op.oracle result) m s h = (ground arith, ground arith)
run-Settled outcomes (Op.resolve others) m s h = (ground arith, ground arith)
run-Settled outcomes Op.collect m s h = (ground arith, ground arith)
run-Settled outcomes (Op.extend env hours) m s h = (ground arith, ground arith)

run_all-Settled :
    (outcomes : List Outcome) (ops : List Op) (m : Market)
    → Settled outcomes m
    → Settled outcomes (run_all ops m)
run_all-Settled outcomes [] m s = s
run_all-Settled outcomes (op ∷ ops) m s =
    run_all-Settled outcomes ops (commit (run op) m).1
      (commit_keeps (Settled outcomes) (run op) m s (run-Settled outcomes op m s))

resolve-Settled :
    (outcomes : List Outcome) (m : Market)
    → is_ok (set_winning_outcomes outcomes m).0 ≡ true
    → Settled outcomes (set_winning_outcomes outcomes m).1
unfolding set_winning_outcomes
resolve-Settled outcomes m h = (ground arith, ground arith)

-- Once winning outcomes were set on a market in a state that accepts them, they stay as they are
-- and the market stays resolved or closed, whatever updates follow.
pub resolved_once :
    (outcomes : List Outcome) (ops : List Op) (m : Market)
    → is_ok (set_winning_outcomes outcomes m).0 ≡ true
    → Settled outcomes (run_all ops (set_winning_outcomes outcomes m).1)
resolved_once outcomes ops m h = run_all-Settled outcomes ops _ (resolve-Settled outcomes m h)

-- An extension that is accepted never brings the end forward.
pub extend_for_dispute_ok :
    (env : Env) (hours : ℕ) (m : Market)
    → is_ok (extend_for_dispute env hours m).0 ≡ true
    → let m' = (extend_for_dispute env hours m).1 in
      (m.end_time ≤ m'.end_time)
      × (env.now + hours * 3600 ≤ m'.end_time)
      × (m'.total_extension_days ≡ m.total_extension_days + hours)
      × (m'.total_extension_days ≤ max_extension_hours)
unfolding extend_for_dispute
extend_for_dispute_ok env hours m h = (ground arith, ground arith, ground arith, ground arith)
