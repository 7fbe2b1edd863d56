-- ===== src/Limiter/Settings.antt =====
-- Which configurations the rate limiter takes (contracts/predictify-hybrid/src/rate_limiter.rs,
-- `validate_rate_limit_configuration`, `init_rate_limiter`, `update_rate_limits`).
use predictify_contracts.Base.{◌≤◌, ◌≡◌, ◌↔◌, arith}
use predictify_contracts.Base.Action.{ok}
use predictify_contracts.Limiter.{RateLimitConfig, validate_rate_limit_configuration}

-- The ranges of the settings; only the limits on bets and on events may be 0, which is no limit.
pub record InRange (c : RateLimitConfig) : Type 0 where
  pub voting_low : 1 ≤ c.voting_limit
  pub voting_high : c.voting_limit ≤ 10000
  pub dispute_low : 1 ≤ c.dispute_limit
  pub dispute_high : c.dispute_limit ≤ 1000
  pub oracle_low : 1 ≤ c.oracle_call_limit
  pub oracle_high : c.oracle_call_limit ≤ 1000
  pub bet_high : c.bet_limit ≤ 10000
  pub events_high : c.events_per_admin_limit ≤ 1000
  pub window_low : 60 ≤ c.time_window_seconds
  pub window_high : c.time_window_seconds ≤ 2592000

-- A configuration of the rate limiter is accepted exactly if every setting is in its range.
pub validate_rate_limit_configuration_iff :
    (c : RateLimitConfig) → (validate_rate_limit_configuration c ≡ ok tt) ↔ InRange c
unfolding validate_rate_limit_configuration
validate_rate_limit_configuration_iff c = (
  λ h. record {
    voting_low = ground (arith, h);
    voting_high = ground (arith, h);
    dispute_low = ground (arith, h);
    dispute_high = ground (arith, h);
    oracle_low = ground (arith, h);
    oracle_high = ground (arith, h);
    bet_high = ground (arith, h);
    events_high = ground (arith, h);
    window_low = ground (arith, h);
    window_high = ground (arith, h);
  },
  λ r. ground (
    arith, r.voting_low, r.voting_high, r.dispute_low, r.dispute_high, r.oracle_low, r.oracle_high,
    r.bet_high, r.events_high, r.window_low, r.window_high,
  ),
)
