-- ===== src/Breaker/Control/Probes.antt =====
-- Probes of a half-open breaker (contracts/predictify-hybrid/src/circuit_breaker.rs,
-- `record_success`, `record_failure`).
use predictify_contracts.Base.{
  ℕ, ◌+◌, ◌≤◌, ◌<◌, ◌≡◌, refl, some, List, [], ◌∷◌, arith, leb, if◌then◌else◌,
}
use predictify_contracts.Base.Lists.{length}
use predictify_contracts.Base.Words.{u32_max, u64_max}
use predictify_contracts.Base.Host.{Env}
use predictify_contracts.Breaker.{
  closed, opened, half_open, CircuitBreakerConfig, CircuitBreakerState, BreakerStore, get_config,
  get_state, update_state, emit_circuit_breaker_event,
}
use predictify_contracts.Breaker.Control.{probed, record_success, record_failure}
use predictify_contracts.Breaker.Control.Machine.{state_of}

-- A breaker that is half open with `n` probes counted.
pub record Probing (c : CircuitBreakerConfig) (due n total : ℕ) (s : BreakerStore)
    (st : CircuitBreakerState) : Type 0 where
  pub configured : s.config ≡ some c
  pub stated : s.state ≡ some st
  pub testing : st.state ≡ half_open
  pub counted : st.half_open_requests ≡ n
  pub all : st.total_requests ≡ total
  pub cooled : st.half_open_since + c.recovery_timeout ≡ due

-- the state after a probe that is counted
abbrev counted_probe : Env → CircuitBreakerConfig → CircuitBreakerState → CircuitBreakerState
counted_probe env c st =
    probed c (record st { total_requests = st.total_requests + 1; last_success_time = env.now })
      (st.half_open_requests + 1)

module _ (c : CircuitBreakerConfig) (due n total : ℕ) (s : BreakerStore) (st : CircuitBreakerState)
    (p : Probing c due n total s st) (fits : total + 1 ≤ u32_max) (clock : due ≤ u64_max)
    (env : Env) where
  -- Before the cooldown has passed a success is counted among the requests and not as a probe.
  pub record_success_early :
      env.now < due
      → let s' = (record_success env s).1 in
        (s'.config ≡ some c)
        × (s'.state ≡ some (record st { total_requests = total + 1; last_success_time = env.now }))
  unfolding record_success get_state get_config update_state
  record_success_early early = (ground arith, ground arith)

  record_success_probe :
      due ≤ env.now
      → n + 1 ≤ u32_max
      → let s' = (record_success env s).1 in
        (s'.config ≡ some c) × (s'.state ≡ some (counted_probe env c st))
  unfolding record_success get_state get_config update_state emit_circuit_breaker_event
  record_success_probe late small = (ground arith, ground arith)

-- Successes one after the other, at these times.
abbrev pub succeed : List Env → BreakerStore → BreakerStore
succeed [] s = s
succeed (env ∷ envs) s = succeed envs (record_success env s).1

abbrev pub AllFrom : ℕ → List Env → Type 0
AllFrom due [] = Unit
AllFrom due (env ∷ envs) = (due ≤ env.now) × AllFrom due envs

-- Once the cooldown has passed, a half-open breaker closes with the success that makes up the
-- configured number of probes, and stays half open before it, if no counter overflows.
pub succeed_closes :
    (envs : List Env) (c : CircuitBreakerConfig) (due n total : ℕ) (s : BreakerStore)
    (st : CircuitBreakerState)
    → Probing c due n total s st
    → AllFrom due envs
    → due ≤ u64_max
    → c.half_open_max_requests ≤ u32_max
    → total + length envs ≤ u32_max
    → n + length envs ≤ c.half_open_max_requests
    → n < c.half_open_max_requests
    → state_of (succeed envs s)
      ≡ (if leb c.half_open_max_requests (n + length envs) then closed else half_open)
succeed_closes [] c due n total s st p from clock small fits few more =
    let i = p.stated in let j = p.testing in ground arith
succeed_closes (env ∷ []) c due n total s st p from clock small fits few more =
    let q =
      record_success_probe c due n total s st p (omega arith) clock env from.0 (omega arith) in
    let i = p.counted in let j = p.testing in ground (arith, q)
succeed_closes (env ∷ next ∷ envs) c due n total s st p from clock small fits few more =
    let q =
      record_success_probe c due n total s st p (omega arith) clock env from.0 (omega arith) in
    let e : n + length (env ∷ next ∷ envs) ≡ n + 1 + length (next ∷ envs) = omega arith in
    rw e (
      succeed_closes (next ∷ envs) c due (n + 1) (total + 1) _ (counted_probe env c st)
        (record {
          configured = q.0;
          stated = q.1;
          testing = ground arith;
          counted = ground arith;
          all = ground arith;
          cooled = ground arith;
        })
        from.1 clock small (omega arith) (omega arith) (omega arith))

-- One failure while the breaker is half open opens it at once, at the present time, with no probe
-- counted, if no counter overflows.
pub record_failure_opens :
    (env : Env) (c : CircuitBreakerConfig) (due n total : ℕ) (s : BreakerStore)
    (st : CircuitBreakerState)
    → Probing c due n total s st
    → total + 1 ≤ u32_max
    → st.error_count + 1 ≤ u32_max
    → (st' : CircuitBreakerState) × ((record_failure env s).1.state ≡ some st')
      × (st'.state ≡ opened)
      × (st'.opened_time ≡ env.now)
      × (st'.half_open_requests ≡ 0)
      × (st'.half_open_since ≡ 0)
      × (st'.error_count ≡ st.error_count + 1)
unfolding record_failure get_state update_state emit_circuit_breaker_event
record_failure_opens env c due n total s st p fits errs = (
  record st {
    state = opened;
    opened_time = env.now;
    half_open_requests = 0;
    half_open_since = 0;
    total_requests = st.total_requests + 1;
    error_count = st.error_count + 1;
    last_failure_time = env.now;
  },
  ground arith,
  refl,
  refl,
  refl,
  refl,
  refl,
)
