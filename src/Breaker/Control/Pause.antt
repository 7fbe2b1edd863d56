-- ===== src/Breaker/Control/Pause.antt =====
-- What a pause blocks, what ends it, and who can change the configuration
-- (contracts/predictify-hybrid/src/circuit_breaker.rs).
use Prim.Native.String.{String}
use text.Mathlib.Text.{◌==◌ as str_eq}
use predictify_contracts.Base.{◌≡◌, some, Bool, true, false, arith, if◌then◌else◌}
use predictify_contracts.Base.Maps.{Address}
use predictify_contracts.Base.Host.{Env}
use predictify_contracts.Base.Action.{ok, err, is_ok}
use predictify_contracts.Errors.{cb_open}
use predictify_contracts.Admin.{AdminStore, validate_admin_for_action}
use predictify_contracts.Admin.Access.{
  validate_admin_for_action_unknown, update_circuit_breaker_config_unknown,
}
use predictify_contracts.Breaker.{
  closed, opened, PauseScope, betting_only, full, CircuitBreakerConfig, CircuitBreakerState,
  BreakerStore, get_state, update_state, emit_circuit_breaker_event,
}
use predictify_contracts.Breaker.Control.{
  update_config, pause_with_options, circuit_breaker_recovery, is_operation_allowed,
  require_write_allowed, are_withdrawals_allowed,
}

-- No caller can change the configuration of the breaker: the call always fails and writes nothing.
pub update_config_refused :
    (env : Env) (adm : AdminStore) (a : Address) (c : CircuitBreakerConfig) (s : BreakerStore)
    → (is_ok (update_config env adm a c s).0 ≡ false) × ((update_config env adm a c s).1 ≡ s)
unfolding update_config
update_config_refused env adm a c s =
    let refused =
      validate_admin_for_action_unknown env a "update_circuit_breaker_config" adm
        update_circuit_breaker_config_unknown in
    (ground (arith, refused), ground (arith, refused))

-- The writes that a pause of this scope blocks.
abbrev pub blocked : PauseScope → String → Bool
blocked full op = true
blocked betting_only op = str_eq op "betting"

-- After a pause that succeeds, at every later time each write in its scope fails with `CBOpen`,
-- each other one goes through, withdrawals are allowed exactly as the pause asked, and these checks
-- write nothing.
pub pause_with_options_ok :
    (env : Env) (adm : AdminStore) (a : Address) (reason : String) (scope : PauseScope)
    (allow : Bool) (s : BreakerStore)
    → is_ok (pause_with_options env adm a reason scope allow s).0 ≡ true
    → let s' = (pause_with_options env adm a reason scope allow s).1 in
      ((later : Env) (op : String)
        → require_write_allowed later op s' ≡ (if blocked scope op then err cb_open else ok tt, s'))
      × ((later : Env) → are_withdrawals_allowed later s' ≡ (ok allow, s'))
unfolding pause_with_options require_write_allowed is_operation_allowed are_withdrawals_allowed
    get_state update_state emit_circuit_breaker_event
pause_with_options_ok env adm a reason scope allow s h =
    (λ later op. ground arith, λ later. ground arith)

-- A pause is accepted exactly if the administrator's check passes and the breaker is not open yet.
pub pause_with_options_iff :
    (env : Env) (adm : AdminStore) (a : Address) (reason : String) (scope : PauseScope)
    (allow : Bool) (s : BreakerStore) {st : CircuitBreakerState}
    → s.state ≡ some st
    → is_ok (pause_with_options env adm a reason scope allow s).0
      ≡ (elim (validate_admin_for_action env a "emergency_actions" adm).0 [
        | ok _ ↦ elim st.state [ opened ↦ false | _ ↦ true ]
        | _ ↦ false
      ])
unfolding pause_with_options get_state update_state emit_circuit_breaker_event
pause_with_options_iff env adm a reason scope allow s e = ground arith

-- After a recovery that succeeds all writes and withdrawals go through at every later time.
pub circuit_breaker_recovery_ok :
    (env : Env) (adm : AdminStore) (a : Address) (s : BreakerStore)
    → is_ok (circuit_breaker_recovery env adm a s).0 ≡ true
    → let s' = (circuit_breaker_recovery env adm a s).1 in
      ((later : Env) (op : String) → require_write_allowed later op s' ≡ (ok tt, s'))
      × ((later : Env) → are_withdrawals_allowed later s' ≡ (ok true, s'))
unfolding circuit_breaker_recovery require_write_allowed is_operation_allowed
    are_withdrawals_allowed get_state update_state emit_circuit_breaker_event
circuit_breaker_recovery_ok env adm a s h = (λ later op. ground arith, λ later. ground arith)

-- A closed breaker lets every write and every withdrawal through, and its checks write nothing.
pub closed_allows :
    (env : Env) (op : String) (s : BreakerStore) {st : CircuitBreakerState}
    → s.state ≡ some st
    → st.state ≡ closed
    → (require_write_allowed env op s ≡ (ok tt, s)) × (are_withdrawals_allowed env s ≡ (ok true, s))
unfolding require_write_allowed is_operation_allowed are_withdrawals_allowed get_state
closed_allows env op s e c = (ground arith, ground arith)
