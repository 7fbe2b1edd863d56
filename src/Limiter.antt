-- ===== src/Limiter.antt =====
-- The rate limiter (contracts/predictify-hybrid/src/rate_limiter.rs): the configuration in
-- persistent storage, and a counter for each key in temporary storage. A counter's expiry by the
-- host is not modelled: the entries below are those that still live.
pub mod Counters
pub mod Settings
mod Tests
use predictify_contracts.Base.{
  ℕ, ◌+◌, ◌-◌, ◌%◌, Option, none, some, Bool, true, false, ◌&&◌, ◌||◌, ◌==◌, ltb, leb,
  if◌then◌else◌,
}
use predictify_contracts.Base.Maps.{Address, Symbol, get_or}
use predictify_contracts.Base.Words.{add_u32, add_u64}
use predictify_contracts.Base.Host.{Env, require_auth}
use predictify_contracts.Base.Action.{
  Action, Result, ok, err, pure, raise_if, lift, gets, or_raise, or_abort, modify, ◌>>=◌, ◌>>◌,
}

pub record RateLimitConfig : Type 0 where
  pub voting_limit : ℕ
  pub dispute_limit : ℕ
  pub oracle_call_limit : ℕ
  pub bet_limit : ℕ
  pub events_per_admin_limit : ℕ
  pub time_window_seconds : ℕ

pub record RateLimit : Type 0 where
  pub count : ℕ
  pub window_start : ℕ

-- `RateLimiterData`, the keys of the counters
pub data Key : Type 0 where
  user_voting user_disputes : Address → Symbol → Key
  oracle_calls : Symbol → Key
  user_bets admin_events : Address → Key

abbrev pub same_key : Key → Key → Bool
same_key (user_voting a m) (user_voting b n) = a == b && m == n
same_key (user_disputes a m) (user_disputes b n) = a == b && m == n
same_key (oracle_calls m) (oracle_calls n) = m == n
same_key (user_bets a) (user_bets b) = a == b
same_key (admin_events a) (admin_events b) = a == b
same_key _ _ = false

pub data RateLimiterError : Type 0 where
  config_not_found rate_limit_exceeded invalid_voting_limit : RateLimiterError
  invalid_dispute_limit invalid_oracle_call_limit invalid_time_window : RateLimiterError
  unauthorized invalid_bet_limit invalid_events_limit : RateLimiterError

pub record LimiterStore : Type 0 where
  pub config : Option RateLimitConfig
  pub counter : Key → Option RateLimit

abbrev pub Call : Type 0 → Type 0
Call = Action LimiterStore RateLimiterError

pub validate_rate_limit_configuration : RateLimitConfig → Result RateLimiterError (Unit {0})
validate_rate_limit_configuration c =
    if c.voting_limit == 0 || ltb 10000 c.voting_limit
    then err invalid_voting_limit
    else (if c.dispute_limit == 0 || ltb 1000 c.dispute_limit
        then err invalid_dispute_limit
        else (if c.oracle_call_limit == 0 || ltb 1000 c.oracle_call_limit
            then err invalid_oracle_call_limit
            else (if ltb 10000 c.bet_limit
                then err invalid_bet_limit
                else (if ltb 1000 c.events_per_admin_limit
                    then err invalid_events_limit
                    else (if ltb c.time_window_seconds 60 || ltb 2592000 c.time_window_seconds
                        then err invalid_time_window
                        else ok tt)))))

pub init_rate_limiter : Env → Address → RateLimitConfig → Call (Unit {0})
init_rate_limiter env admin config = do
  require_auth env admin
  lift (validate_rate_limit_configuration config)
  modify (λ s. record s { config = some config })

-- the caller has authenticated the administrator
pub update_rate_limits : RateLimitConfig → Call (Unit {0})
update_rate_limits limits = do
  lift (validate_rate_limit_configuration limits)
  modify (λ s. record s { config = some limits })

abbrev pub get_config : Call RateLimitConfig
get_config = do entry ← gets (λ s. s.config); or_raise entry config_not_found

abbrev pub get_or_create_limit : Env → Key → LimiterStore → RateLimit
get_or_create_limit env key s =
    get_or (s.counter key) (record { count = 0; window_start = env.now })

abbrev pub check_limit : ℕ → ℕ → Call (Unit {0})
check_limit current_count limit = raise_if (leb limit current_count) rate_limit_exceeded

pub update_limit : Env → Key → RateLimit → ℕ → Call (Unit {0})
update_limit env key limit time_window = do
  end ← or_abort (add_u64 limit.window_start time_window)
  limit' ←
      (if leb end env.now then pure (record { count = 1; window_start = env.now }) else (do
        n ← or_abort (add_u32 limit.count 1)
        pure (record { count = n; window_start = limit.window_start })))
  modify (λ s. record s { counter = λ k. if same_key k key then some limit' else s.counter k })
  or_abort (add_u32 (time_window % 4294967296) 86400)
  pure tt

-- the part that the limited operations share
pub enforce : Env → Key → ℕ → ℕ → Call (Unit {0})
unfolding update_limit
enforce env key max time_window = do
  limit ← gets (get_or_create_limit env key)
  check_limit limit.count max
  update_limit env key limit time_window

pub rate_limit_voting : Env → Address → Symbol → Call (Unit {0})
rate_limit_voting env user market_id = do
  require_auth env user
  config ← get_config
  enforce env (user_voting user market_id) config.voting_limit config.time_window_seconds

pub rate_limit_disputes : Env → Address → Symbol → Call (Unit {0})
rate_limit_disputes env user market_id = do
  require_auth env user
  config ← get_config
  enforce env (user_disputes user market_id) config.dispute_limit config.time_window_seconds

pub rate_limit_oracle_calls : Env → Symbol → Call (Unit {0})
rate_limit_oracle_calls env market_id = do
  config ← get_config
  enforce env (oracle_calls market_id) config.oracle_call_limit config.time_window_seconds

-- a limit of 0 is no limit
pub rate_limit_bets : Env → Address → Call (Unit {0})
rate_limit_bets env user = do
  config ← get_config
  elim (config.bet_limit == 0) [
    | true ↦ pure tt
    | false ↦ enforce env (user_bets user) config.bet_limit config.time_window_seconds
  ]

pub rate_limit_admin_events : Env → Address → Call (Unit {0})
rate_limit_admin_events env admin = do
  config ← get_config
  elim (config.events_per_admin_limit == 0) [
    | true ↦ pure tt
    | false ↦
        enforce env (admin_events admin) config.events_per_admin_limit config.time_window_seconds
  ]

pub record RateLimitStatus : Type 0 where
  pub voting_remaining : ℕ
  pub dispute_remaining : ℕ
  pub window_reset_time : ℕ
  pub current_time : ℕ

-- `saturating_sub` on words is the subtraction of numbers, which stops at 0
pub get_rate_limit_status : Env → Address → Symbol → Call RateLimitStatus
get_rate_limit_status env user market_id = do
  config ← get_config
  voting ← gets (get_or_create_limit env (user_voting user market_id))
  dispute ← gets (get_or_create_limit env (user_disputes user market_id))
  reset ← or_abort (add_u64 voting.window_start config.time_window_seconds)
  pure (record {
    voting_remaining = config.voting_limit - voting.count;
    dispute_remaining = config.dispute_limit - dispute.count;
    window_reset_time = reset;
    current_time = env.now;
  })
