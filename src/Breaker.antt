-- ===== src/Breaker.antt =====
-- The circuit breaker (contracts/predictify-hybrid/src/circuit_breaker.rs): configuration, state,
-- history and admission window, and the operations on them. `open` is a word of the language, so
-- the state `Open` is `opened`. Published events are not modelled; the stored history is.
pub mod Control
use Prim.Native.String.{String}
use text.Mathlib.Text.{◌==◌ as str_eq}
use predictify_contracts.Base.{
  ℕ, ◌+◌, ◌*◌, ◌/◌, ◌%◌, Option, none, some, Bool, true, false, not, ◌&&◌, ◌||◌, List, [], ◌∷◌,
  ◌++◌, ◌==◌, ltb, leb, if◌then◌else◌,
}
use predictify_contracts.Base.Int.{ℤ, pos, ltb_ℤ}
use predictify_contracts.Base.Lists.{length, drop_first}
use predictify_contracts.Base.Maps.{Address, get_or, has}
use predictify_contracts.Base.Words.{
  u32_max, add_u32, mul_u32, add_u64, sub_word, saturating_add_u32, saturating_add_u64,
}
use predictify_contracts.Base.Host.{Env}
use predictify_contracts.Base.Action.{
  Action, Result, ok, err, panic, pure, raise, raise_if, lift, gets, or_raise, or_abort, modify,
  ◌>>=◌, ◌>>◌,
}
use predictify_contracts.Errors.{Error, cb_error, cb_open, invalid_input}
use predictify_contracts.Admin.{AdminStore, validate_admin_for_action}

pub data BreakerState : Type 0 where
  closed opened half_open : BreakerState

pub data BreakerAction : Type 0 where
  pause resume trigger reset : BreakerAction

pub data BreakerCondition : Type 0 where
  high_error_rate high_latency low_liquidity oracle_failure network_congestion : BreakerCondition
  security_threat manual_override system_overload invalid_data : BreakerCondition
  unauthorized_access : BreakerCondition

pub data PauseScope : Type 0 where
  betting_only full : PauseScope

pub record HalfOpenQuota : Type 0 where
  pub calls_per_minute : ℕ
  pub evaluation_window_s : ℕ

pub record CircuitBreakerConfig : Type 0 where
  pub max_error_rate : ℕ
  pub max_latency_ms : ℕ
  pub min_liquidity : ℤ
  pub failure_threshold : ℕ
  pub recovery_timeout : ℕ
  pub half_open_max_requests : ℕ
  pub auto_recovery_enabled : Bool
  pub half_open_quota : HalfOpenQuota

pub record CircuitBreakerState : Type 0 where
  pub state : BreakerState
  pub failure_count : ℕ
  pub last_failure_time : ℕ
  pub last_success_time : ℕ
  pub opened_time : ℕ
  pub half_open_requests : ℕ
  pub total_requests : ℕ
  pub error_count : ℕ
  pub pause_scope : PauseScope
  pub allow_withdrawals : Bool
  pub half_open_since : ℕ

pub record HalfOpenWindow : Type 0 where
  pub admitted : ℕ
  pub completed : ℕ
  pub failures : ℕ
  pub window_start : ℕ

pub record CircuitBreakerEvent : Type 0 where
  pub action : BreakerAction
  pub condition : BreakerCondition
  pub reason : String
  pub timestamp : ℕ
  pub admin : Option Address

-- The instance entries `CONFIG_KEY`, `STATE_KEY`, `EVENTS_KEY` and `CONDITIONS_KEY`, and the
-- temporary entry `HalfOpenWindow`.
pub record BreakerStore : Type 0 where
  pub config : Option CircuitBreakerConfig
  pub state : Option CircuitBreakerState
  pub events : Option (List CircuitBreakerEvent)
  pub conditions : Option (List (String × Bool))
  pub window : Option HalfOpenWindow

abbrev pub Call : Type 0 → Type 0
Call = Action BreakerStore Error

abbrev pub is_closed_state : BreakerState → Bool
is_closed_state closed = true
is_closed_state opened = false
is_closed_state half_open = false

abbrev pub is_open_state : BreakerState → Bool
is_open_state closed = false
is_open_state opened = true
is_open_state half_open = false

abbrev pub is_half_open_state : BreakerState → Bool
is_half_open_state closed = false
is_half_open_state opened = false
is_half_open_state half_open = true

abbrev pub default_config : CircuitBreakerConfig
default_config = record {
  max_error_rate = 10;
  max_latency_ms = 5000;
  min_liquidity = pos 1000000000;
  failure_threshold = 5;
  recovery_timeout = 300;
  half_open_max_requests = 3;
  auto_recovery_enabled = true;
  half_open_quota = record { calls_per_minute = 3; evaluation_window_s = 60 };
}

abbrev pub default_state : Env → CircuitBreakerState
default_state env = record {
  state = closed;
  failure_count = 0;
  last_failure_time = 0;
  last_success_time = env.now;
  opened_time = 0;
  half_open_requests = 0;
  total_requests = 0;
  error_count = 0;
  pause_scope = betting_only;
  allow_withdrawals = false;
  half_open_since = 0;
}

pub initialize : Env → BreakerStore → BreakerStore
initialize env s = record s {
  config = some default_config;
  state = some (default_state env);
  events = some [];
  conditions = some [];
}

pub get_config : Env → Call CircuitBreakerConfig
unfolding initialize
get_config env = do
  modify (λ s. if has s.config then s else initialize env s)
  entry ← gets (λ s. s.config)
  or_raise entry cb_error

pub get_state : Env → Call CircuitBreakerState
unfolding initialize
get_state env = do
  modify (λ s. if has s.state then s else initialize env s)
  entry ← gets (λ s. s.state)
  or_raise entry cb_error

abbrev pub cleared : HalfOpenWindow
cleared = record { admitted = 0; completed = 0; failures = 0; window_start = 0 }

-- leaving or not being in `HalfOpen` clears the admission window
pub update_state : CircuitBreakerState → BreakerStore → BreakerStore
update_state st s = record s {
  state = some st;
  window = if is_half_open_state st.state then s.window else some cleared;
}

-- the history after one more event: the last hundred
pub remember : List CircuitBreakerEvent → CircuitBreakerEvent → List CircuitBreakerEvent
remember l e = let l' = l ++ e ∷ [] in if ltb 100 (length l') then drop_first l' else l'

pub emit_circuit_breaker_event :
    Env → BreakerAction → BreakerCondition → String → Option Address → BreakerStore → BreakerStore
unfolding remember
emit_circuit_breaker_event env act cond reason admin s = record s {
  events = some (
      remember (get_or s.events []) (record {
        action = act;
        condition = cond;
        reason = reason;
        timestamp = env.now;
        admin = admin;
      }));
}
