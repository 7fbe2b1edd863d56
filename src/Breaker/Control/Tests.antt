-- ===== src/Breaker/Control/Tests.antt =====
-- The circuit breaker on small inputs (contracts/predictify-hybrid/src/circuit_breaker.rs).
use predictify_contracts.Base.{ℕ, ◌≡◌, refl, inl, none, some, true, List, [], ◌∷◌, arith}
use predictify_contracts.Base.Maps.{empty}
use predictify_contracts.Base.Host.{Env}
use predictify_contracts.Base.Action.{ok, is_ok}
use predictify_contracts.Admin.{AdminStore, emergency, validate_admin_for_action}
use predictify_contracts.Admin.Access.{validate_admin_for_action_iff, emergency_actions_known}
use predictify_contracts.Breaker.{
  BreakerState, closed, opened, half_open, betting_only, CircuitBreakerState, BreakerStore,
  default_config, default_state, get_state,
}
use predictify_contracts.Breaker.Control.{pause_with_options, circuit_breaker_recovery}
use predictify_contracts.Breaker.Control.Machine.{IsReady, state_of, Op, run, may, run-Fine}
use predictify_contracts.Breaker.Control.Probes.{Probing}
use predictify_contracts.Breaker.Control.Admission.{Admitting}

abbrev at : ℕ → Env
at t = record { now = t; authorized = λ a. true }

-- 1 is the admin of a contract that was migrated to several admins
abbrev admins : AdminStore
admins = record {
  admin = some 1;
  admin_role = none;
  migrated = some true;
  admin_key = λ a. a;
  multi_admin = empty;
  admin_list = none;
  admin_count = none;
  paused = none;
  multisig_config = none;
  pending_threshold = none;
  next_action_id = none;
  pending_action = empty;
  audit = record { head = none; records = empty };
}

abbrev state_in : BreakerState → ℕ → CircuitBreakerState
state_in b since = record (default_state (at 1)) { state = b; half_open_since = since }

-- two calls are admitted in the window that began at 100
abbrev store_in : BreakerState → BreakerStore
store_in b = record {
  config = some default_config;
  state = some (state_in b 100);
  events = some [];
  conditions = some [];
  window = some (record { admitted = 2; completed = 0; failures = 0; window_start = 100 });
}

store_in-IsReady : (b : BreakerState) → IsReady (store_in b)
store_in-IsReady b = record { stated = refl; configured = refl; calm = λ w e. ground arith }

run-Fine_example :
    IsReady (run (Op.failure (at 120)) (store_in half_open))
    × (may
          (Op.failure (at 120))
          half_open
          (state_of (run (Op.failure (at 120)) (store_in half_open)))
        ≡ true)
run-Fine_example = run-Fine (Op.failure (at 120)) (store_in half_open) (store_in-IsReady half_open)

abbrev script : List Op
script = Op.failure (at 120) ∷ Op.admit (at 121) "betting" ∷ Op.success (at 122) ∷ []

-- the state after the admin has paused betting at 9 and left withdrawals open
abbrev paused : BreakerStore
paused = (pause_with_options (at 9) admins 1 "test" betting_only true (store_in closed)).1

check_passes : (validate_admin_for_action (at 9) 1 "emergency_actions" admins).0 ≡ ok tt
check_passes =
    (validate_admin_for_action_iff (at 9) 1 "emergency_actions" admins).1
      (refl, refl, (emergency, emergency_actions_known, inl refl))

pause_accepted :
    is_ok (pause_with_options (at 9) admins 1 "test" betting_only true (store_in closed)).0 ≡ true
unfolding pause_with_options get_state
pause_accepted = ground (arith, check_passes)

recovery_accepted : is_ok (circuit_breaker_recovery (at 9) admins 1 (store_in opened)).0 ≡ true
unfolding circuit_breaker_recovery get_state
recovery_accepted = ground (arith, check_passes)

-- half open since 100, so that probes count from 400 on
probing : Probing default_config 400 0 0 (store_in half_open) (state_in half_open 100)
probing = record {
  configured = refl;
  stated = refl;
  testing = refl;
  counted = refl;
  all = refl;
  cooled = refl;
}

admitting :
    (n : ℕ)
    → Admitting default_config (state_in half_open 100) 100 n (record (store_in half_open) {
      window = some (record { admitted = n; completed = 0; failures = 0; window_start = 100 });
    })
admitting n = record {
  configured = refl;
  stated = refl;
  testing = refl;
  quota = omega arith;
  small = omega arith;
  period = omega arith;
  clock = omega arith;
  window = (
    record { admitted = n; completed = 0; failures = 0; window_start = 100 },
    refl,
    refl,
    refl,
    refl,
  );
}

-- the quota of three is used up at 130, and no admitted call has reported a result
abbrev used_up : BreakerStore
used_up = record (store_in half_open) {
  window = some (record { admitted = 3; completed = 0; failures = 0; window_start = 100 });
}
