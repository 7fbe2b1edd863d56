-- ===== src/Limiter/Counters/Quota.antt =====
-- How many attempts succeed, one after the other (contracts/predictify-hybrid/src/rate_limiter.rs,
-- `check_limit`, `update_limit` and the operations that call them).
use Prim.Native.Nat.{min}
use predictify_contracts.Base.Lists.{length}
use predictify_contracts.Base.{
  ℕ, ◌+◌, ◌-◌, ◌≤◌, ◌<◌, ◌≡◌, ◌≢◌, refl, inl, inr, some, true, false, List, [], ◌∷◌, arith, ltb,
  ◌==◌, if◌then◌else◌, Bool-cases, subst, sym, ap, ◌∙◌,
}
use predictify_contracts.Base.Words.{u64_max}
use predictify_contracts.Base.Host.{Env}
use predictify_contracts.Base.Action.{Result, is_ok, commit, commit_keeps, commit_ok}
use predictify_contracts.Limiter.{
  RateLimiterError, RateLimitConfig, RateLimit, Key, same_key, LimiterStore, update_limit, enforce,
  rate_limit_voting, rate_limit_disputes, rate_limit_oracle_calls, rate_limit_bets,
  rate_limit_admin_events,
}
use predictify_contracts.Limiter.Counters.{attempt, limit_of, signed, attempt_enforced, attempt_ok}

-- The number of attempts that succeed, one after the other.
abbrev pub successes : Key → List Env → LimiterStore → ℕ
successes key [] s = 0
successes key (env ∷ envs) s =
    let (r, s') = commit (attempt key env) s in (if is_ok r then 1 else 0) + successes key envs s'

-- Attempts of any kind, at any time, each a whole invocation.
abbrev pub attempt_all : List (Key × Env) → LimiterStore → LimiterStore
attempt_all [] s = s
attempt_all ((key, env) ∷ more) s = attempt_all more (commit (attempt key env) s).1

-- A counter that has reached its limit.
pub record IsFull (key : Key) (c : RateLimitConfig) (s : LimiterStore) : Type 0 where
  pub configured : s.config ≡ some c
  pub limited : limit_of key c ≢ 0
  pub limit : RateLimit
  pub stored : s.counter key ≡ some limit
  pub reached : limit_of key c ≤ limit.count

full_refused :
    (key : Key) (env : Env) (c : RateLimitConfig) (s : LimiterStore)
    → IsFull key c s
    → is_ok (attempt key env s).0 ≡ false
full_refused key env c s f = elim (Bool-cases (is_ok (attempt key env s).0)) [
  | inl h ↦
      let a = attempt_ok key env c s f.configured f.limited h in
      ground (arith, a.below, f.reached, f.stored)
  | inr h ↦ h
]

same_key_sound : (k l : Key) → same_key k l ≡ true → k ≡ l
same_key_sound (Key.user_voting a m) (Key.user_voting b n) h = ground arith
same_key_sound (Key.user_voting a m) (Key.user_disputes b n) h = ground arith
same_key_sound (Key.user_voting a m) (Key.oracle_calls b) h = ground arith
same_key_sound (Key.user_voting a m) (Key.user_bets b) h = ground arith
same_key_sound (Key.user_voting a m) (Key.admin_events b) h = ground arith
same_key_sound (Key.user_disputes a m) (Key.user_voting b n) h = ground arith
same_key_sound (Key.user_disputes a m) (Key.user_disputes b n) h = ground arith
same_key_sound (Key.user_disputes a m) (Key.oracle_calls b) h = ground arith
same_key_sound (Key.user_disputes a m) (Key.user_bets b) h = ground arith
same_key_sound (Key.user_disputes a m) (Key.admin_events b) h = ground arith
same_key_sound (Key.oracle_calls a) (Key.user_voting b n) h = ground arith
same_key_sound (Key.oracle_calls a) (Key.user_disputes b n) h = ground arith
same_key_sound (Key.oracle_calls a) (Key.oracle_calls b) h = ground arith
same_key_sound (Key.oracle_calls a) (Key.user_bets b) h = ground arith
same_key_sound (Key.oracle_calls a) (Key.admin_events b) h = ground arith
same_key_sound (Key.user_bets a) (Key.user_voting b n) h = ground arith
same_key_sound (Key.user_bets a) (Key.user_disputes b n) h = ground arith
same_key_sound (Key.user_bets a) (Key.oracle_calls b) h = ground arith
same_key_sound (Key.user_bets a) (Key.user_bets b) h = ground arith
same_key_sound (Key.user_bets a) (Key.admin_events b) h = ground arith
same_key_sound (Key.admin_events a) (Key.user_voting b n) h = ground arith
same_key_sound (Key.admin_events a) (Key.user_disputes b n) h = ground arith
same_key_sound (Key.admin_events a) (Key.oracle_calls b) h = ground arith
same_key_sound (Key.admin_events a) (Key.user_bets b) h = ground arith
same_key_sound (Key.admin_events a) (Key.admin_events b) h = ground arith

free_keeps :
    (key : Key) (env : Env) (c : RateLimitConfig) (s : LimiterStore)
    → s.config ≡ some c
    → limit_of key c ≡ 0
    → is_ok (attempt key env s).0 ≡ true
    → (attempt key env s).1 ≡ s
unfolding rate_limit_voting rate_limit_disputes rate_limit_oracle_calls rate_limit_bets
    rate_limit_admin_events enforce
free_keeps (Key.user_voting u m) env c s e n h = ground arith
free_keeps (Key.user_disputes u m) env c s e n h = ground arith
free_keeps (Key.oracle_calls m) env c s e n h = ground arith
free_keeps (Key.user_bets u) env c s e n h = ground arith
free_keeps (Key.admin_events u) env c s e n h = ground arith

attempt-IsFull :
    (key other : Key) (env : Env) (c : RateLimitConfig) (s : LimiterStore)
    → IsFull key c s
    → IsFull key c (commit (attempt other env) s).1
attempt-IsFull key other env c s f = commit_keeps (IsFull key c) (attempt other env) s f (λ h.
    elim (Bool-cases (limit_of other c == 0)) [
      | inl z ↦
          subst (IsFull key c) (sym (free_keeps other env c s f.configured (ground arith) h)) f
      | inr z ↦
          let a = attempt_ok other env c s f.configured (ground arith) h in
          elim (Bool-cases (same_key other key)) [
            | inl same ↦
                let e = same_key_sound other key same in
                let refused =
                  subst (λ k. is_ok (attempt k env s).0 ≡ false) (sym e)
                    (full_refused key env c s f) in
                ground (arith, refused, h)
            | inr different ↦ record {
              configured = a.config ∙ f.configured;
              limited = f.limited;
              limit = f.limit;
              stored = a.others key different ∙ f.stored;
              reached = f.reached;
            }
          ]
    ])

full_successes :
    (key : Key) (c : RateLimitConfig) (envs : List Env) (s : LimiterStore)
    → IsFull key c s
    → successes key envs s ≡ 0
full_successes key c [] s f = refl
full_successes key c (env ∷ envs) s f =
    let rest = full_successes key c envs _ (attempt-IsFull key key env c s f) in
    ground (arith, rest, full_refused key env c s f)

-- Once a counter has reached its limit, none of the further attempts that it counts succeeds, at
-- any later time and whatever other attempts come before them, as long as the entry lives.
pub full_forever :
    (key : Key) (c : RateLimitConfig) (before : List (Key × Env)) (envs : List Env)
    (s : LimiterStore)
    → IsFull key c s
    → successes key envs (attempt_all before s) ≡ 0
full_forever key c [] envs s f = full_successes key c envs s f
full_forever key c ((other, env) ∷ before) envs s f =
    full_forever key c before envs _ (attempt-IsFull key other env c s f)

-- Signed attempts that all come before the end of a window.
abbrev pub AllWithin : Key → ℕ → List Env → Type 0
AllWithin key end [] = Unit
AllWithin key end (env ∷ envs) = (signed key env ≡ true) × (env.now < end) × AllWithin key end envs

-- A counter in a window.
pub record IsRunning (key : Key) (c : RateLimitConfig) (l : RateLimit) (s : LimiterStore)
    : Type 0 where
  pub configured : s.config ≡ some c
  pub limited : limit_of key c ≢ 0
  pub stored : s.counter key ≡ some l
  pub within : l.count ≤ limit_of key c
  pub small : limit_of key c ≤ 10000
  pub no_overflow : l.window_start + c.time_window_seconds ≤ u64_max
  pub short : c.time_window_seconds ≤ 2592000

enforce_enough :
    (key : Key) (c : RateLimitConfig) (l : RateLimit) (env : Env) (s : LimiterStore)
    → IsRunning key c l s
    → env.now < l.window_start + c.time_window_seconds
    → l.count < limit_of key c
    → is_ok (enforce env key (limit_of key c) c.time_window_seconds s).0 ≡ true
unfolding enforce update_limit
enforce_enough key c l env s r t b = ground (arith, r.stored, r.small, r.no_overflow, r.short)

admits :
    (key : Key) (c : RateLimitConfig) (l : RateLimit) (env : Env) (s : LimiterStore)
    → IsRunning key c l s
    → signed key env ≡ true
    → env.now < l.window_start + c.time_window_seconds
    → l.count < limit_of key c
    → (is_ok (attempt key env s).0 ≡ true)
      × IsRunning key c (record l { count = l.count + 1 }) (commit (attempt key env) s).1
admits key c l env s r signs t b =
    let same = attempt_enforced key env c s r.configured r.limited signs in
    let fine =
      subst (λ (end : Result RateLimiterError (Unit {0}) × LimiterStore). is_ok end.0 ≡ true)
        (sym same) (enforce_enough key c l env s r t b) in
    let a = attempt_ok key env c s r.configured r.limited fine in
    (
      fine,
      subst (IsRunning key c (record l { count = l.count + 1 }))
          (sym (
            ap (λ (end : Result RateLimiterError (Unit {0}) × LimiterStore). end.1)
              (commit_ok (attempt key env) s fine)))
          (record {
            configured = a.config ∙ r.configured;
            limited = r.limited;
            stored = ground (arith, a.counter, r.stored);
            within = omega arith;
            small = r.small;
            no_overflow = r.no_overflow;
            short = r.short;
          }),
    )

-- Of signed attempts that all come before the end of a running window, exactly the smaller of their
-- number and what the limit has left succeed.
pub successes_in_window :
    (key : Key) (c : RateLimitConfig) (envs : List Env) (l : RateLimit) (s : LimiterStore)
    → IsRunning key c l s
    → AllWithin key (l.window_start + c.time_window_seconds) envs
    → successes key envs s ≡ min (length envs) (limit_of key c - l.count)
successes_in_window key c [] l s r t = ground arith
successes_in_window key c (env ∷ envs) l s r (signs, t, ts) =
    elim (Bool-cases (ltb l.count (limit_of key c))) [
      | inl b ↦
          let (fine, r') = admits key c l env s r signs t (ground arith) in
          let rest = successes_in_window key c envs _ _ r' ts in ground (arith, fine, rest)
      | inr b ↦
          let none_left = full_successes key c (env ∷ envs) s (record {
            configured = r.configured;
            limited = r.limited;
            limit = l;
            stored = r.stored;
            reached = ground arith;
          }) in
          none_left ∙ ground arith
    ]
