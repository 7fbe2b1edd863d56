-- ===== src/Breaker/Control/Trigger.antt =====
-- The automatic trigger of the circuit breaker and the wrapper around an operation
-- (contracts/predictify-hybrid/src/circuit_breaker.rs).
use predictify_contracts.Base.{◌/◌, none, Bool, true, false, not, ◌&&◌, ltb, leb}
use predictify_contracts.Base.Words.{add_u32, mul_u32, sub_word}
use predictify_contracts.Base.Host.{Env}
use predictify_contracts.Base.Action.{
  Result, ok, err, panic, pure, raise, raise_if, or_abort, modify, ◌>>=◌, ◌>>◌,
}
use predictify_contracts.Errors.{Error, cb_error}
use predictify_contracts.Breaker.{
  closed, opened, half_open, trigger, reset, BreakerCondition, high_error_rate, manual_override,
  CircuitBreakerConfig, CircuitBreakerState, Call, is_open_state, get_config, get_state,
  update_state, emit_circuit_breaker_event,
}
use predictify_contracts.Breaker.Control.{half_open_allowed, record_success, record_failure}

-- `CircuitBreakerUtils::should_allow_operation`
pub should_allow_operation : Env → Call Bool
should_allow_operation env = do
  st ← get_state env
  elim st.state [ closed ↦ pure true | opened ↦ pure false | half_open ↦ half_open_allowed env st ]

-- the error rate of a condition that is tracked, at or above the limit
abbrev pub should_trigger :
    CircuitBreakerConfig → CircuitBreakerState → BreakerCondition → Call Bool
should_trigger config st high_error_rate = elim (ltb 0 st.total_requests) [
  | true ↦ (do
    scaled ← or_abort (mul_u32 st.error_count 100)
    pure (leb config.max_error_rate (scaled / st.total_requests)))
  | false ↦ pure false
]
should_trigger config st _ = pure false

-- the move to `HalfOpen` after the recovery timeout
abbrev pub auto_recover :
    Env → CircuitBreakerConfig → CircuitBreakerState → Call CircuitBreakerState
auto_recover env config st = elim (config.auto_recovery_enabled && is_open_state st.state) [
  | false ↦ pure st
  | true ↦ (do
    waited ← or_abort (sub_word env.now st.opened_time)
    elim (leb config.recovery_timeout waited) [
      | false ↦ pure st
      | true ↦ (do
        let st' = record st { state = half_open; half_open_requests = 0; half_open_since = env.now }
        modify (update_state st')
        modify (
            emit_circuit_breaker_event env reset manual_override
              "Auto-recovery: transitioning to half-open" none)
        pure st')
    ])
]

unfoldable pub automatic_circuit_breaker_trigger : Env → BreakerCondition → Call Bool
automatic_circuit_breaker_trigger env condition = do
  config ← get_config env
  st₀ ← get_state env
  st ← auto_recover env config st₀
  fire ← should_trigger config st condition
  elim (fire && not (is_open_state st.state)) [
    | false ↦ pure false
    | true ↦ (do
      failures ← or_abort (add_u32 st.failure_count 1)
      modify (
          update_state (record st {
            state = opened;
            failure_count = failures;
            last_failure_time = env.now;
            opened_time = env.now;
          }))
      modify (
          emit_circuit_breaker_event env trigger condition "Automatic circuit breaker triggered"
            none)
      pure true)
  ]

-- `CircuitBreakerUtils::with_circuit_breaker` around an operation on a state that holds the
-- breaker's entries
abbrev pub outcome : {A : Type 0} → Env → Result Error A → Call A
outcome env (ok a) = record_success env >> pure a
outcome env (err e) = record_failure env >> raise e
outcome env panic = λ s. (panic, s)

pub with_circuit_breaker : {A : Type 0} → Env → Call A → Call A
with_circuit_breaker env operation = do
  allowed ← should_allow_operation env
  raise_if (not allowed) cb_error
  λ s. (let (r, s') = operation s in outcome env r s')
