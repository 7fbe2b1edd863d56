-- ===== src/Limiter/Counters.antt =====
-- What one attempt does to the counters (contracts/predictify-hybrid/src/rate_limiter.rs, `check_limit`,
-- `update_limit` and the operations that call them).
pub mod Quota
use predictify_contracts.Base.{
  ℕ, ◌+◌, ◌-◌, ◌≤◌, ◌<◌, ◌≡◌, ◌≢◌, refl, inl, inr, Option, none, some, Bool, true, false, List, [],
  ◌∷◌, arith, ltb, leb, ◌==◌, if◌then◌else◌, Option-cases, Bool-cases, subst, sym, ap, ◌∙◌,
}
use predictify_contracts.Base.Maps.{Address, Symbol}
use predictify_contracts.Base.Words.{u64_max}
use predictify_contracts.Base.Host.{Env}
use predictify_contracts.Base.Action.{Result, ok, err, is_ok, commit, commit_keeps, commit_ok}
use predictify_contracts.Limiter.{
  RateLimiterError, RateLimitConfig, RateLimit, Key, same_key, LimiterStore, Call,
  get_or_create_limit, update_limit, enforce, rate_limit_voting, rate_limit_disputes,
  rate_limit_oracle_calls, rate_limit_bets, rate_limit_admin_events, rate_limit_exceeded,
}

-- The limited operation that a key counts.
abbrev pub attempt : Key → Env → Call (Unit {0})
attempt (Key.user_voting u m) env = rate_limit_voting env u m
attempt (Key.user_disputes u m) env = rate_limit_disputes env u m
attempt (Key.oracle_calls m) env = rate_limit_oracle_calls env m
attempt (Key.user_bets u) env = rate_limit_bets env u
attempt (Key.admin_events u) env = rate_limit_admin_events env u

abbrev pub limit_of : Key → RateLimitConfig → ℕ
limit_of (Key.user_voting u m) c = c.voting_limit
limit_of (Key.user_disputes u m) c = c.dispute_limit
limit_of (Key.oracle_calls m) c = c.oracle_call_limit
limit_of (Key.user_bets u) c = c.bet_limit
limit_of (Key.admin_events u) c = c.events_per_admin_limit

-- Whether the signature is there that an operation asks for itself.
abbrev pub signed : Key → Env → Bool
signed (Key.user_voting u m) env = env.authorized u
signed (Key.user_disputes u m) env = env.authorized u
signed (Key.oracle_calls m) env = true
signed (Key.user_bets u) env = true
signed (Key.admin_events u) env = true

-- The counter after one more attempt was counted.
abbrev pub counted : ℕ → ℕ → RateLimit → RateLimit
counted window now l =
    if leb (l.window_start + window) now
    then record { count = 1; window_start = now }
    else record { count = l.count + 1; window_start = l.window_start }

-- What one admitted attempt has checked and done.
pub record Admitted (env : Env) (key : Key) (max window : ℕ) (s s' : LimiterStore) : Type 0 where
  pub below : (get_or_create_limit env key s).count < max
  pub counter : s'.counter key ≡ some (counted window env.now (get_or_create_limit env key s))
  pub others : (k : Key) → same_key key k ≡ false → s'.counter k ≡ s.counter k
  pub config : s'.config ≡ s.config

same_key_refl : (k : Key) → same_key k k ≡ true
same_key_refl (Key.user_voting a m) = ground arith
same_key_refl (Key.user_disputes a m) = ground arith
same_key_refl (Key.oracle_calls m) = ground arith
same_key_refl (Key.user_bets a) = ground arith
same_key_refl (Key.admin_events a) = ground arith

pub enforce_ok :
    (env : Env) (key : Key) (max window : ℕ) (s : LimiterStore)
    → is_ok (enforce env key max window s).0 ≡ true
    → Admitted env key max window s (enforce env key max window s).1
unfolding enforce update_limit
enforce_ok env key max window s h = record {
  below = ground arith;
  counter = ground (arith, same_key_refl key);
  others = λ k e. ground arith;
  config = ground arith;
}

pub attempt_enforced :
    (key : Key) (env : Env) (c : RateLimitConfig) (s : LimiterStore)
    → s.config ≡ some c
    → limit_of key c ≢ 0
    → signed key env ≡ true
    → attempt key env s ≡ enforce env key (limit_of key c) c.time_window_seconds s
unfolding rate_limit_voting rate_limit_disputes rate_limit_oracle_calls rate_limit_bets
    rate_limit_admin_events
attempt_enforced (Key.user_voting u m) env c s e n h = ground arith
attempt_enforced (Key.user_disputes u m) env c s e n h = ground arith
attempt_enforced (Key.oracle_calls m) env c s e n h = ground arith
attempt_enforced (Key.user_bets u) env c s e n h = ground arith
attempt_enforced (Key.admin_events u) env c s e n h = ground arith

pub attempt-signed :
    (key : Key) (env : Env) (s : LimiterStore)
    → is_ok (attempt key env s).0 ≡ true
    → signed key env ≡ true
unfolding rate_limit_voting rate_limit_disputes
attempt-signed (Key.user_voting u m) env s h = ground arith
attempt-signed (Key.user_disputes u m) env s h = ground arith
attempt-signed (Key.oracle_calls m) env s h = refl
attempt-signed (Key.user_bets u) env s h = refl
attempt-signed (Key.admin_events u) env s h = refl

-- A limited operation that succeeds under a limit was below it, counts once, in a window that
-- begins anew where the former has ended, and changes neither another counter nor the settings.
pub attempt_ok :
    (key : Key) (env : Env) (c : RateLimitConfig) (s : LimiterStore)
    → s.config ≡ some c
    → limit_of key c ≢ 0
    → is_ok (attempt key env s).0 ≡ true
    → Admitted env key (limit_of key c) c.time_window_seconds s (attempt key env s).1
attempt_ok key env c s e n h =
    let same = attempt_enforced key env c s e n (attempt-signed key env s h) in
    subst
      (λ (end : Result RateLimiterError (Unit {0}) × LimiterStore).
        is_ok end.0 ≡ true → Admitted env key (limit_of key c) c.time_window_seconds s end.1)
      (sym same) (enforce_ok env key (limit_of key c) c.time_window_seconds s) h
