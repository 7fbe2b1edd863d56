-- ===== src/Limiter/Tests.antt =====
-- The rate limiter on small inputs (contracts/predictify-hybrid/src/rate_limiter.rs).
use Prim.Native.Nat.{min}
use predictify_contracts.Base.{ℕ, ◌-◌, ◌≡◌, refl, none, some, true, false, [], ◌∷◌, arith}
use predictify_contracts.Base.Host.{Env}
use predictify_contracts.Base.Action.{ok}
use predictify_contracts.Limiter.{
  RateLimitConfig, Key, same_key, LimiterStore, validate_rate_limit_configuration,
}
use predictify_contracts.Limiter.Counters.Quota.{
  successes, attempt_all, full_forever, successes_in_window,
}

abbrev at : ℕ → Env
at t = record { now = t; authorized = λ a. true }

abbrev settings : RateLimitConfig
settings = record {
  voting_limit = 2;
  dispute_limit = 1;
  oracle_call_limit = 1;
  bet_limit = 0;
  events_per_admin_limit = 1;
  time_window_seconds = 60;
}

abbrev votes : Key
votes = Key.user_voting 1 9

abbrev store_with : ℕ → LimiterStore
store_with n = record {
  config = some settings;
  counter = λ k. elim (same_key votes k) [
    | true ↦ some (record { count = n; window_start = 100 })
    | false ↦ none
  ];
}

settings_fine : validate_rate_limit_configuration settings ≡ ok tt
unfolding validate_rate_limit_configuration
settings_fine = refl

-- both votes were cast in the window that began at 100; the entry still stands at 1000
full_forever_example :
    successes votes
      (at 900 ∷ at 1000 ∷ [])
      (attempt_all ((Key.oracle_calls 9, at 150) ∷ (votes, at 170) ∷ []) (store_with 2))
    ≡ 0
full_forever_example =
    full_forever votes settings ((Key.oracle_calls 9, at 150) ∷ (votes, at 170) ∷ [])
      (at 900 ∷ at 1000 ∷ []) (store_with 2)
      (record {
        configured = refl;
        limited = omega arith;
        limit = record { count = 2; window_start = 100 };
        stored = refl;
        reached = omega arith;
      })

successes_in_window_example :
    successes votes (at 110 ∷ at 120 ∷ at 130 ∷ []) (store_with 1) ≡ min 3 (2 - 1)
successes_in_window_example =
    successes_in_window votes settings (at 110 ∷ at 120 ∷ at 130 ∷ [])
      (record { count = 1; window_start = 100 }) (store_with 1)
      (record {
        configured = refl;
        limited = omega arith;
        stored = refl;
        within = omega arith;
        small = omega arith;
        no_overflow = omega arith;
        short = omega arith;
      })
      (refl, omega arith, (refl, omega arith, (refl, omega arith, tt)))
