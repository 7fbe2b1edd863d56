-- ===== src/Markets/Lifecycle.antt =====
-- The states of a market as a step relation (contracts/predictify-hybrid/src/markets.rs,
-- `MarketStateLogic::validate_state_transition`).
use predictify_contracts.Base.{ℕ, ◌+◌, ◌≤◌, ◌<◌, ◌≡◌, ◌↔◌, refl, true, arith}
use predictify_contracts.Base.Action.{ok}
use predictify_contracts.Markets.{
  MarketState, active, ended, disputed, resolved, closed, cancelled, same_state,
  validate_state_transition,
}

-- The changes of state.
pub data Step : MarketState → MarketState → Type 0 where
  active_ended : Step active ended
  active_cancelled : Step active cancelled
  active_closed : Step active closed
  active_disputed : Step active disputed
  ended_resolved : Step ended resolved
  ended_disputed : Step ended disputed
  ended_closed : Step ended closed
  ended_cancelled : Step ended cancelled
  disputed_resolved : Step disputed resolved
  disputed_closed : Step disputed closed
  disputed_cancelled : Step disputed cancelled
  resolved_closed : Step resolved closed

-- A chain of changes, with its length.
pub data Chain : ℕ → MarketState → MarketState → Type 0 where
  stay : {s : MarketState} → Chain 0 s s
  then_step : {n : ℕ} {s t u : MarketState} → Step s t → Chain n t u → Chain (n + 1) s u

abbrev pub Reach : MarketState → MarketState → Type 0
Reach s t = (n : ℕ) × Chain n s t

-- how many changes are left at most
abbrev pub remaining : MarketState → ℕ
remaining active = 4
remaining ended = 3
remaining disputed = 2
remaining resolved = 1
remaining closed = 0
remaining cancelled = 0

Step-remaining : {s t : MarketState} → Step s t → remaining t < remaining s
Step-remaining active_ended = omega arith
Step-remaining active_cancelled = omega arith
Step-remaining active_closed = omega arith
Step-remaining active_disputed = omega arith
Step-remaining ended_resolved = omega arith
Step-remaining ended_disputed = omega arith
Step-remaining ended_closed = omega arith
Step-remaining ended_cancelled = omega arith
Step-remaining disputed_resolved = omega arith
Step-remaining disputed_closed = omega arith
Step-remaining disputed_cancelled = omega arith
Step-remaining resolved_closed = omega arith

allowed-Step : (s t : MarketState) → validate_state_transition s t ≡ ok tt → Step s t
allowed-Step active active h = absurd (ground arith)
allowed-Step active ended h = active_ended
allowed-Step active disputed h = active_disputed
allowed-Step active resolved h = absurd (ground arith)
allowed-Step active closed h = active_closed
allowed-Step active cancelled h = active_cancelled
allowed-Step ended active h = absurd (ground arith)
allowed-Step ended ended h = absurd (ground arith)
allowed-Step ended disputed h = ended_disputed
allowed-Step ended resolved h = ended_resolved
allowed-Step ended closed h = ended_closed
allowed-Step ended cancelled h = ended_cancelled
allowed-Step disputed active h = absurd (ground arith)
allowed-Step disputed ended h = absurd (ground arith)
allowed-Step disputed disputed h = absurd (ground arith)
allowed-Step disputed resolved h = disputed_resolved
allowed-Step disputed closed h = disputed_closed
allowed-Step disputed cancelled h = disputed_cancelled
allowed-Step resolved active h = absurd (ground arith)
allowed-Step resolved ended h = absurd (ground arith)
allowed-Step resolved disputed h = absurd (ground arith)
allowed-Step resolved resolved h = absurd (ground arith)
allowed-Step resolved closed h = resolved_closed
allowed-Step resolved cancelled h = absurd (ground arith)
allowed-Step closed active h = absurd (ground arith)
allowed-Step closed ended h = absurd (ground arith)
allowed-Step closed disputed h = absurd (ground arith)
allowed-Step closed resolved h = absurd (ground arith)
allowed-Step closed closed h = absurd (ground arith)
allowed-Step closed cancelled h = absurd (ground arith)
allowed-Step cancelled active h = absurd (ground arith)
allowed-Step cancelled ended h = absurd (ground arith)
allowed-Step cancelled disputed h = absurd (ground arith)
allowed-Step cancelled resolved h = absurd (ground arith)
allowed-Step cancelled closed h = absurd (ground arith)
allowed-Step cancelled cancelled h = absurd (ground arith)

Step-allowed : {s t : MarketState} → Step s t → validate_state_transition s t ≡ ok tt
Step-allowed active_ended = refl
Step-allowed active_cancelled = refl
Step-allowed active_closed = refl
Step-allowed active_disputed = refl
Step-allowed ended_resolved = refl
Step-allowed ended_disputed = refl
Step-allowed ended_closed = refl
Step-allowed ended_cancelled = refl
Step-allowed disputed_resolved = refl
Step-allowed disputed_closed = refl
Step-allowed disputed_cancelled = refl
Step-allowed resolved_closed = refl

-- The code accepts a change of a market's state exactly if it is one of the steps of the relation.
pub validate_state_transition_iff :
    (s t : MarketState) → (validate_state_transition s t ≡ ok tt) ↔ Step s t
validate_state_transition_iff s t = (allowed-Step s t, Step-allowed)

-- A chain of changes has no more steps than its states have left.
pub Chain-remaining : {n : ℕ} {s t : MarketState} → Chain n s t → n + remaining t ≤ remaining s
Chain-remaining stay = omega arith
Chain-remaining (then_step h c) = omega (arith, Step-remaining h, Chain-remaining c)

-- Every chain of accepted changes ends after four steps at the latest.
pub Chain-bounded : {n : ℕ} {s t : MarketState} → Chain n s t → n ≤ 4
Chain-bounded {n} {s} {t} c = omega (arith, Chain-remaining c, four s)
  where
    four : (s : MarketState) → remaining s ≤ 4
    four active = omega arith
    four ended = omega arith
    four disputed = omega arith
    four resolved = omega arith
    four closed = omega arith
    four cancelled = omega arith

pub Reach-refl : (s : MarketState) → Reach s s
Reach-refl s = (0, stay)

pub Step-Reach : {s t : MarketState} → Step s t → Reach s t
Step-Reach h = (1, then_step h stay)

Chain-trans : {m n : ℕ} {s t u : MarketState} → Chain m s t → Chain n t u → Reach s u
Chain-trans {n = n} stay d = (n, d)
Chain-trans (then_step h c) d = let (k, e) = Chain-trans c d in (k + 1, then_step h e)

pub Reach-trans : {s t u : MarketState} → Reach s t → Reach t u → Reach s u
Reach-trans (m, c) (n, d) = Chain-trans c d

-- A market never comes back to a state that it has left.
pub Step-no_return : {s t : MarketState} → Step s t → Reach t s → ⊥
Step-no_return h (n, c) = omega (arith, Step-remaining h, Chain-remaining c)

pub same_state_sound : (s t : MarketState) → same_state s t ≡ true → s ≡ t
same_state_sound active active h = refl
same_state_sound active ended h = absurd (ground arith)
same_state_sound active disputed h = absurd (ground arith)
same_state_sound active resolved h = absurd (ground arith)
same_state_sound active closed h = absurd (ground arith)
same_state_sound active cancelled h = absurd (ground arith)
same_state_sound ended active h = absurd (ground arith)
same_state_sound ended ended h = refl
same_state_sound ended disputed h = absurd (ground arith)
same_state_sound ended resolved h = absurd (ground arith)
same_state_sound ended closed h = absurd (ground arith)
same_state_sound ended cancelled h = absurd (ground arith)
same_state_sound disputed active h = absurd (ground arith)
same_state_sound disputed ended h = absurd (ground arith)
same_state_sound disputed disputed h = refl
same_state_sound disputed resolved h = absurd (ground arith)
same_state_sound disputed closed h = absurd (ground arith)
same_state_sound disputed cancelled h = absurd (ground arith)
same_state_sound resolved active h = absurd (ground arith)
same_state_sound resolved ended h = absurd (ground arith)
same_state_sound resolved disputed h = absurd (ground arith)
same_state_sound resolved resolved h = refl
same_state_sound resolved closed h = absurd (ground arith)
same_state_sound resolved cancelled h = absurd (ground arith)
same_state_sound closed active h = absurd (ground arith)
same_state_sound closed ended h = absurd (ground arith)
same_state_sound closed disputed h = absurd (ground arith)
same_state_sound closed resolved h = absurd (ground arith)
same_state_sound closed closed h = refl
same_state_sound closed cancelled h = absurd (ground arith)
same_state_sound cancelled active h = absurd (ground arith)
same_state_sound cancelled ended h = absurd (ground arith)
same_state_sound cancelled disputed h = absurd (ground arith)
same_state_sound cancelled resolved h = absurd (ground arith)
same_state_sound cancelled closed h = absurd (ground arith)
same_state_sound cancelled cancelled h = refl
