-- ===== src/Breaker/Control/Admission.antt =====
-- The admission quota of a half-open breaker (contracts/predictify-hybrid/src/circuit_breaker.rs,
-- `half_open_admit`).
use Prim.Native.String.{String}
use native.Mathlib.Nat.{add-zero}
use predictify_contracts.Base.{
  ℕ, suc, ◌+◌, ◌≤◌, ◌<◌, ◌≡◌, refl, some, Bool, true, false, List, [], ◌∷◌, arith,
}
use predictify_contracts.Base.Lists.{length}
use predictify_contracts.Base.Words.{u32_max, u64_max}
use predictify_contracts.Base.Host.{Env}
use predictify_contracts.Base.Action.{Result, ok}
use predictify_contracts.Errors.{Error}
use predictify_contracts.Breaker.{
  closed, half_open, CircuitBreakerConfig, CircuitBreakerState, HalfOpenWindow, BreakerStore,
  get_config, get_state, update_state, emit_circuit_breaker_event,
}
use predictify_contracts.Breaker.Control.{half_open_admit, is_operation_allowed}

-- A half-open breaker with `n` calls admitted in a window that began at `start` and recorded no
-- failure.
pub record Admitting (c : CircuitBreakerConfig) (st : CircuitBreakerState) (start n : ℕ)
    (s : BreakerStore) : Type 0 where
  pub configured : s.config ≡ some c
  pub stated : s.state ≡ some st
  pub testing : st.state ≡ half_open
  pub quota : 0 < c.half_open_quota.calls_per_minute
  pub small : c.half_open_quota.calls_per_minute ≤ u32_max
  pub period : c.half_open_quota.evaluation_window_s + 86400 ≤ u32_max
  pub clock : start + c.half_open_quota.evaluation_window_s ≤ u64_max
  pub window :
      (w : HalfOpenWindow) × (s.window ≡ some w)
      × (w.admitted ≡ n)
      × (w.failures ≡ 0)
      × (w.window_start ≡ start)

module _ (c : CircuitBreakerConfig) (st : CircuitBreakerState) (start : ℕ) (env : Env)
    (within : env.now < start + c.half_open_quota.evaluation_window_s) (op : String) where
  admit_one :
      (n : ℕ) (s : BreakerStore)
      → Admitting c st start n s
      → n < c.half_open_quota.calls_per_minute
      → ((is_operation_allowed env op s).0 ≡ ok true)
        × Admitting c st start (n + 1) (is_operation_allowed env op s).1
  unfolding is_operation_allowed half_open_admit get_state get_config
  admit_one n s a room =
      let (w, e, an, af, aw) = a.window in
      let sm = a.small in
      let cl = a.clock in
      let pe = a.period in
      (
        ground arith,
        record {
          configured = ground arith;
          stated = ground arith;
          testing = a.testing;
          quota = a.quota;
          small = a.small;
          period = a.period;
          clock = a.clock;
          window = (record w { admitted = n + 1 }, ground arith, refl, af, aw);
        },
      )

  -- In a window with no recorded failure, the call that comes after the quota is used up is refused
  -- and closes the breaker, before the cooldown too, and `half_open_since` stays as it was.
  pub admit_closes :
      (n : ℕ) (s : BreakerStore)
      → Admitting c st start n s
      → c.half_open_quota.calls_per_minute ≤ n
      → ((is_operation_allowed env op s).0 ≡ ok false)
        × ((is_operation_allowed env op s).1.state
            ≡ some (record st { state = closed; failure_count = 0; half_open_requests = 0 }))
  unfolding is_operation_allowed half_open_admit get_state get_config update_state
      emit_circuit_breaker_event
  admit_closes n s a used =
      let (w, e, an, af, aw) = a.window in let cl = a.clock in (ground arith, ground arith)

-- Checks one after the other, each for an operation at a time.
abbrev pub ask : List (Env × String) → BreakerStore → List (Result Error Bool) × BreakerStore
ask [] s = ([], s)
ask ((env, op) ∷ rest) s =
    let (r, s') = is_operation_allowed env op s in let (rs, s'') = ask rest s' in (r ∷ rs, s'')

abbrev pub AllWithin : ℕ → List (Env × String) → Type 0
AllWithin end [] = Unit
AllWithin end ((env, op) ∷ rest) = (env.now < end) × AllWithin end rest

abbrev pub AllAdmitted : List (Result Error Bool) → Type 0
AllAdmitted [] = Unit
AllAdmitted (r ∷ rs) = (r ≡ ok true) × AllAdmitted rs

-- In one window as many calls as the quota has left are admitted, whatever they are, and the window
-- counts them.
pub ask_admits :
    (calls : List (Env × String)) (c : CircuitBreakerConfig) (st : CircuitBreakerState)
    (start n : ℕ) (s : BreakerStore)
    → Admitting c st start n s
    → AllWithin (start + c.half_open_quota.evaluation_window_s) calls
    → n + length calls ≤ c.half_open_quota.calls_per_minute
    → AllAdmitted (ask calls s).0 × Admitting c st start (n + length calls) (ask calls s).1
ask_admits [] c st start n s a within fits = (tt, rw (add-zero n) a)
ask_admits ((env, op) ∷ calls) c st start n s a (now, within) fits =
    let (r, a') = admit_one c st start env now op n s a (omega arith) in
    let rest = ask_admits calls c st start (n + 1) _ a' within (omega arith) in
    let e : n + suc (length calls) ≡ n + 1 + length calls = omega arith in
    ((r, rest.0), rw e rest.1)
