-- ===== src/Breaker/Control.antt =====
-- The operations of the circuit breaker (contracts/predictify-hybrid/src/circuit_breaker.rs). The
-- administrators' entries are only read, so an operation takes them as an argument.
pub mod Trigger
pub mod Machine
pub mod Probes
pub mod Admission
pub mod Pause
mod Tests
use Prim.Native.String.{String}
use text.Mathlib.Text.{◌==◌ as str_eq}
use predictify_contracts.Base.{
  ℕ, ◌+◌, ◌*◌, ◌/◌, ◌%◌, Option, none, some, Bool, true, false, not, ◌&&◌, ◌||◌, List, [], ◌∷◌,
  ◌==◌, ltb, leb, if◌then◌else◌,
}
use predictify_contracts.Base.Int.{ℤ, pos, ltb_ℤ}
use predictify_contracts.Base.Maps.{Address, get_or}
use predictify_contracts.Base.Words.{
  add_u32, mul_u32, add_u64, sub_word, saturating_add_u32, saturating_add_u64,
}
use predictify_contracts.Base.Host.{Env}
use predictify_contracts.Base.Action.{
  Result, ok, err, panic, pure, raise, raise_if, lift, gets, or_abort, modify, ◌>>=◌, ◌>>◌,
}
use predictify_contracts.Errors.{Error, cb_error, cb_open, invalid_input}
use predictify_contracts.Admin.{AdminStore, validate_admin_for_action}
use predictify_contracts.Breaker.{
  BreakerState, closed, opened, half_open, BreakerAction, pause, resume, trigger, reset,
  BreakerCondition, high_error_rate, manual_override, PauseScope, betting_only, full,
  CircuitBreakerConfig, CircuitBreakerState, HalfOpenWindow, BreakerStore, Call, is_closed_state,
  is_open_state, is_half_open_state, get_config, get_state, update_state,
  emit_circuit_breaker_event,
}

-- the check that an administrator may do what is asked
abbrev pub admin_check : Env → AdminStore → Address → String → Call (Unit {0})
admin_check env adm a action = lift (validate_admin_for_action env a action adm).0

pub validate_config : CircuitBreakerConfig → Result Error (Unit {0})
validate_config c =
    if ltb 100 c.max_error_rate
      || c.max_latency_ms == 0
      || ltb_ℤ c.min_liquidity (pos 0)
      || c.failure_threshold == 0
      || c.recovery_timeout == 0
      || c.half_open_max_requests == 0
      || c.half_open_quota.calls_per_minute == 0
      || c.half_open_quota.evaluation_window_s == 0
    then err invalid_input
    else ok tt

pub update_config : Env → AdminStore → Address → CircuitBreakerConfig → Call (Unit {0})
unfolding validate_config
update_config env adm admin config = do
  admin_check env adm admin "update_circuit_breaker_config"
  lift (validate_config config)
  modify (λ s. record s { config = some config })
  modify (emit_circuit_breaker_event env reset manual_override "Configuration updated" (some admin))

pub pause_with_options : Env → AdminStore → Address → String → PauseScope → Bool → Call (Unit {0})
pause_with_options env adm admin reason scope allow_withdrawals = do
  admin_check env adm admin "emergency_actions"
  st ← get_state env
  raise_if (is_open_state st.state) cb_error
  modify (
      update_state (record st {
        state = opened;
        opened_time = env.now;
        pause_scope = scope;
        allow_withdrawals = allow_withdrawals;
      }))
  modify (emit_circuit_breaker_event env pause manual_override reason (some admin))

pub emergency_pause : Env → AdminStore → Address → String → Call (Unit {0})
unfolding pause_with_options
emergency_pause env adm admin reason = pause_with_options env adm admin reason betting_only false

pub circuit_breaker_recovery : Env → AdminStore → Address → Call (Unit {0})
circuit_breaker_recovery env adm admin = do
  admin_check env adm admin "emergency_actions"
  st ← get_state env
  raise_if (is_closed_state st.state) cb_error
  modify (
      update_state (record st {
        state = closed;
        failure_count = 0;
        half_open_requests = 0;
        half_open_since = 0;
        last_success_time = env.now;
        pause_scope = betting_only;
        allow_withdrawals = false;
      }))
  modify (
      emit_circuit_breaker_event env resume manual_override "Circuit breaker recovered"
        (some admin))

pub request_resume : Env → AdminStore → Address → Call (Unit {0})
request_resume env adm admin = do
  admin_check env adm admin "emergency_actions"
  st ← get_state env
  raise_if (not (is_open_state st.state)) cb_error
  modify (
      update_state
        (record st { state = half_open; half_open_requests = 0; half_open_since = env.now }))
  modify (
      emit_circuit_breaker_event env resume manual_override
        "Admin requested resume: entering half-open with cooldown" (some admin))

-- the state after one more probe that went well
abbrev pub probed : CircuitBreakerConfig → CircuitBreakerState → ℕ → CircuitBreakerState
probed config st n =
    if leb config.half_open_max_requests n
    then record st {
      state = closed;
      failure_count = 0;
      half_open_requests = 0;
      half_open_since = 0;
    }
    else record st { half_open_requests = n }

pub record_success : Env → Call (Unit {0})
record_success env = do
  st₀ ← get_state env
  total ← or_abort (add_u32 st₀.total_requests 1)
  let st = record st₀ { total_requests = total; last_success_time = env.now }
  elim (is_half_open_state st.state) [
    | false ↦ modify (update_state st)
    | true ↦ (do
      config ← get_config env
      due ← or_abort (add_u64 st.half_open_since config.recovery_timeout)
      elim (ltb env.now due) [
        | true ↦ modify (update_state st)
        | false ↦ (do
          n ← or_abort (add_u32 st.half_open_requests 1)
          modify (λ s.
              if leb config.half_open_max_requests n
              then emit_circuit_breaker_event env resume manual_override
                  "Auto-recovery: circuit breaker closed" none s
              else s)
          modify (update_state (probed config st n)))
      ])
  ]

abbrev pub fresh_window : Env → HalfOpenWindow
fresh_window env = record { admitted = 0; completed = 0; failures = 0; window_start = env.now }

pub record_failure : Env → Call (Unit {0})
record_failure env = do
  st₀ ← get_state env
  total ← or_abort (add_u32 st₀.total_requests 1)
  errors ← or_abort (add_u32 st₀.error_count 1)
  let st = record st₀ { total_requests = total; error_count = errors; last_failure_time = env.now }
  elim (is_half_open_state st.state) [
    | false ↦ modify (update_state st)
    | true ↦ (do
      window ← gets (λ s. get_or s.window (fresh_window env))
      modify (λ s. record s {
        window = some (record window {
          failures = saturating_add_u32 window.failures 1;
          completed = saturating_add_u32 window.completed 1;
        });
      })
      modify (
          emit_circuit_breaker_event env trigger high_error_rate
            "Failure in half-open state, reopening circuit breaker" none)
      modify (
          update_state (record st {
            state = opened;
            opened_time = env.now;
            half_open_requests = 0;
            half_open_since = 0;
          })))
  ]

-- the admission window, begun anew where it has run out
abbrev pub current_window : Env → CircuitBreakerConfig → BreakerStore → HalfOpenWindow
current_window env config s =
    let w = get_or s.window (fresh_window env) in
    if leb (saturating_add_u64 w.window_start config.half_open_quota.evaluation_window_s) env.now
    then fresh_window env
    else w

pub half_open_admit : Env → CircuitBreakerConfig → Call Bool
half_open_admit env config = do
  window ← gets (current_window env config)
  elim (ltb window.admitted config.half_open_quota.calls_per_minute) [
    | true ↦ (do
      modify (λ s. record s {
        window = some (record window { admitted = saturating_add_u32 window.admitted 1 });
      })
      or_abort (add_u32 (config.half_open_quota.evaluation_window_s % 4294967296) 86400)
      pure true)
    | false ↦ (do
      st ← get_state env
      elim (window.failures == 0) [
        | true ↦ (do
          modify (
              update_state
                (record st { state = closed; failure_count = 0; half_open_requests = 0 }))
          modify (
              emit_circuit_breaker_event env resume manual_override
                "Quota exhausted with no failures: closing circuit" none)
          pure false)
        | false ↦ (do
          modify (
              update_state
                (record st { state = opened; opened_time = env.now; half_open_requests = 0 }))
          modify (
              emit_circuit_breaker_event env trigger high_error_rate
                "Quota exhausted with failures: reopening circuit" none)
          pure false)
      ])
  ]

-- the admission of a call while the breaker is half open
abbrev pub half_open_allowed : Env → CircuitBreakerState → Call Bool
half_open_allowed env st = do
  config ← get_config env
  elim (ltb 0 config.half_open_quota.calls_per_minute) [
    | true ↦ half_open_admit env config
    | false ↦ pure (ltb st.half_open_requests config.half_open_max_requests)
  ]

-- `is_operation_allowed`, and `is_write_allowed`, which only calls it
pub is_operation_allowed : Env → String → Call Bool
is_operation_allowed env op = do
  st ← get_state env
  elim st.state [
    | closed ↦ pure true
    | opened ↦
        pure (elim st.pause_scope [ full ↦ false | betting_only ↦ not (str_eq op "betting") ])
    | half_open ↦ half_open_allowed env st
  ]

pub require_write_allowed : Env → String → Call (Unit {0})
require_write_allowed env op = do
  allowed ← is_operation_allowed env op
  raise_if (not allowed) cb_open

pub are_withdrawals_allowed : Env → Call Bool
are_withdrawals_allowed env = do
  st ← get_state env
  pure (not (is_open_state st.state && not st.allow_withdrawals))
