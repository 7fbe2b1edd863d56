-- ===== src/Breaker/Control/Machine.antt =====
-- The states of the circuit breaker and the operations that move it between them
-- (contracts/predictify-hybrid/src/circuit_breaker.rs).
use Prim.Native.String.{String}
use predictify_contracts.Base.{
  ◌≡◌, inl, inr, none, some, Bool, true, false, List, [], ◌∷◌, arith, Option-cases,
}
use predictify_contracts.Base.Maps.{Address, has, get_or}
use predictify_contracts.Base.Host.{Env}
use predictify_contracts.Admin.{AdminStore}
use predictify_contracts.Breaker.{
  BreakerState, closed, opened, half_open, BreakerCondition, PauseScope, CircuitBreakerConfig,
  CircuitBreakerState, HalfOpenWindow, BreakerStore, get_config, get_state, update_state,
  emit_circuit_breaker_event,
}
use predictify_contracts.Breaker.Control.{
  fresh_window, pause_with_options, circuit_breaker_recovery, request_resume, record_success,
  record_failure, half_open_admit, is_operation_allowed,
}
use predictify_contracts.Breaker.Control.Trigger.{automatic_circuit_breaker_trigger}

-- The entries are there, and no failure stands in the admission window.
pub record IsReady (s : BreakerStore) : Type 0 where
  pub stated : has s.state ≡ true
  pub configured : has s.config ≡ true
  pub calm : (w : HalfOpenWindow) → s.window ≡ some w → w.failures ≡ 0

abbrev pub state_of : BreakerStore → BreakerState
state_of s = elim s.state [ none ↦ closed | some st ↦ st.state ]

-- The operations that change what is stored.
pub data Op : Type 0 where
  pause : Env → AdminStore → Address → String → PauseScope → Bool → Op
  recover resume : Env → AdminStore → Address → Op
  success failure : Env → Op
  admit : Env → String → Op
  trigger : Env → BreakerCondition → Op

abbrev pub run : Op → BreakerStore → BreakerStore
run (Op.pause env adm a reason scope allow) s =
    (pause_with_options env adm a reason scope allow s).1
run (Op.recover env adm a) s = (circuit_breaker_recovery env adm a s).1
run (Op.resume env adm a) s = (request_resume env adm a s).1
run (Op.success env) s = (record_success env s).1
run (Op.failure env) s = (record_failure env s).1
run (Op.admit env op) s = (is_operation_allowed env op s).1
run (Op.trigger env c) s = (automatic_circuit_breaker_trigger env c s).1

-- The changes of state that an operation can make; any can also leave the state as it is.
abbrev pub may : Op → BreakerState → BreakerState → Bool
may (Op.pause _ _ _ _ _ _) closed opened = true
may (Op.pause _ _ _ _ _ _) half_open opened = true
may (Op.recover _ _ _) opened closed = true
may (Op.recover _ _ _) half_open closed = true
may (Op.resume _ _ _) opened half_open = true
may (Op.success _) half_open closed = true
may (Op.failure _) half_open opened = true
may (Op.admit _ _) half_open closed = true
may (Op.trigger _ _) opened half_open = true
may (Op.trigger _ _) closed opened = true
may (Op.trigger _ _) half_open opened = true
may _ closed closed = true
may _ opened opened = true
may _ half_open half_open = true
may _ _ _ = false

abbrev Fine : Op → BreakerStore → BreakerStore → Type 0
Fine op s t = IsReady t × (may op (state_of s) (state_of t) ≡ true)

module _ (s : BreakerStore) (ready : IsReady s) {st : CircuitBreakerState}
    {c : CircuitBreakerConfig} (es : s.state ≡ some st) (ec : s.config ≡ some c) where
  pause_with_options-Fine :
      (env : Env) (adm : AdminStore) (a : Address) (reason : String) (scope : PauseScope)
      (allow : Bool)
      → let op = Op.pause env adm a reason scope allow in Fine op s (run op s)
  unfolding pause_with_options get_state update_state emit_circuit_breaker_event
  pause_with_options-Fine env adm a reason scope allow = (
    record {
      stated = ground arith;
      configured = ground arith;
      calm = λ w e. ground (arith, ready.calm w);
    },
    ground arith,
  )

  circuit_breaker_recovery-Fine :
      (env : Env) (adm : AdminStore) (a : Address)
      → let op = Op.recover env adm a in Fine op s (run op s)
  unfolding circuit_breaker_recovery get_state update_state emit_circuit_breaker_event
  circuit_breaker_recovery-Fine env adm a = (
    record {
      stated = ground arith;
      configured = ground arith;
      calm = λ w e. ground (arith, ready.calm w);
    },
    ground arith,
  )

  request_resume-Fine :
      (env : Env) (adm : AdminStore) (a : Address)
      → let op = Op.resume env adm a in Fine op s (run op s)
  unfolding request_resume get_state update_state emit_circuit_breaker_event
  request_resume-Fine env adm a = (
    record {
      stated = ground arith;
      configured = ground arith;
      calm = λ w e. ground (arith, ready.calm w);
    },
    ground arith,
  )

  record_success-Fine : (env : Env) → let op = Op.success env in Fine op s (run op s)
  unfolding record_success get_state get_config update_state emit_circuit_breaker_event
  record_success-Fine env = (
    record {
      stated = ground arith;
      configured = ground arith;
      calm = λ w e. ground (arith, ready.calm w);
    },
    ground arith,
  )

  record_failure-Fine : (env : Env) → let op = Op.failure env in Fine op s (run op s)
  unfolding record_failure get_state update_state emit_circuit_breaker_event
  record_failure-Fine env = (
    record {
      stated = ground arith;
      configured = ground arith;
      calm = λ w e. ground (arith, ready.calm w);
    },
    ground arith,
  )

  -- the window that an admission goes by has no failure either
  window_calm : (env : Env) → (get_or s.window (fresh_window env)).failures ≡ 0
  window_calm env = elim (Option-cases s.window) [
    | inl e ↦ rw e
    | inr (w, e) ↦ rw e (ready.calm w e)
  ]

  is_operation_allowed-Fine :
      (env : Env) (name : String) → let op = Op.admit env name in Fine op s (run op s)
  unfolding is_operation_allowed half_open_admit get_state get_config update_state
      emit_circuit_breaker_event
  is_operation_allowed-Fine env name = (
    record {
      stated = ground arith;
      configured = ground arith;
      calm = λ w e. ground (arith, ready.calm w, window_calm env);
    },
    ground (arith, window_calm env),
  )

  automatic_circuit_breaker_trigger-Fine :
      (env : Env) (b : BreakerCondition) → let op = Op.trigger env b in Fine op s (run op s)
  unfolding automatic_circuit_breaker_trigger get_state get_config update_state
      emit_circuit_breaker_event
  automatic_circuit_breaker_trigger-Fine env b = (
    record {
      stated = ground arith;
      configured = ground arith;
      calm = λ w e. ground (arith, ready.calm w);
    },
    ground arith,
  )

by_op :
    (op : Op) (s : BreakerStore)
    → IsReady s
    → {st : CircuitBreakerState} {c : CircuitBreakerConfig} → s.state ≡ some st
    → s.config ≡ some c
    → Fine op s (run op s)
by_op (Op.pause env adm a reason scope allow) s ready es ec =
    pause_with_options-Fine s ready es ec env adm a reason scope allow
by_op (Op.recover env adm a) s ready es ec = circuit_breaker_recovery-Fine s ready es ec env adm a
by_op (Op.resume env adm a) s ready es ec = request_resume-Fine s ready es ec env adm a
by_op (Op.success env) s ready es ec = record_success-Fine s ready es ec env
by_op (Op.failure env) s ready es ec = record_failure-Fine s ready es ec env
by_op (Op.admit env name) s ready es ec = is_operation_allowed-Fine s ready es ec env name
by_op (Op.trigger env b) s ready es ec = automatic_circuit_breaker_trigger-Fine s ready es ec env b

-- With the breaker's entries there and no failure in the admission window, every operation, however
-- it ends, leaves this so and moves the state of the breaker only as the table `may` allows; an
-- admission never opens the breaker.
pub run-Fine : (op : Op) (s : BreakerStore) → IsReady s → Fine op s (run op s)
run-Fine op s ready = elim (Option-cases s.state) [
  | inl e ↦ cc (rw e at ready.stated)
  | inr (st, es) ↦ elim (Option-cases s.config) [
    | inl e ↦ cc (rw e at ready.configured)
    | inr (c, ec) ↦ by_op op s ready es ec
  ]
]

abbrev pub run_all : List Op → BreakerStore → BreakerStore
run_all [] s = s
run_all (op ∷ ops) s = run_all ops (run op s)

pub run_all-IsReady : (ops : List Op) (s : BreakerStore) → IsReady s → IsReady (run_all ops s)
run_all-IsReady [] s ready = ready
run_all-IsReady (op ∷ ops) s ready = run_all-IsReady ops (run op s) (run-Fine op s ready).0

abbrev is_return : Op → Bool
is_return (Op.recover _ _ _) = true
is_return (Op.resume _ _ _) = true
is_return (Op.trigger _ _) = true
is_return _ = false

-- None of the operations is one that leads out of the state `Open`.
abbrev pub NoReturn : List Op → Type 0
NoReturn [] = Unit
NoReturn (op ∷ ops) = (is_return op ≡ false) × NoReturn ops

opened_stays :
    (op : Op) (t : BreakerState) → is_return op ≡ false → may op opened t ≡ true → t ≡ opened
opened_stays (Op.pause _ _ _ _ _ _) t n m = ground arith
opened_stays (Op.recover _ _ _) t n m = cc
opened_stays (Op.resume _ _ _) t n m = cc
opened_stays (Op.success _) t n m = ground arith
opened_stays (Op.failure _) t n m = ground arith
opened_stays (Op.admit _ _) t n m = ground arith
opened_stays (Op.trigger _ _) t n m = cc

-- An open breaker stays open through any sequence of pauses, probes and admissions that has no
-- recovery, resume or automatic trigger in it.
pub opened_until_return :
    (ops : List Op) (s : BreakerStore)
    → IsReady s
    → state_of s ≡ opened
    → NoReturn ops
    → state_of (run_all ops s) ≡ opened
opened_until_return [] s ready o n = o
opened_until_return (op ∷ ops) s ready o (this, rest) =
    let (ready', m) = run-Fine op s ready in
    opened_until_return ops (run op s) ready'
      (opened_stays op (state_of (run op s)) this (rw o at m)) rest
