-- ===== src/Statistics.antt =====
-- Counters of the platform and of its users (contracts/predictify-hybrid/src/statistics.rs). The
-- leaderboard belongs to a file that is not a module of the crate: what is pushed to it is kept as a
-- list, the latest first. Events are left out.
use predictify_contracts.Base.{
  ℕ, ◌+◌, ◌-◌, ◌*◌, ◌/◌, ◌%◌, Option, some, List, ◌∷◌, ltb, ◌==◌, if◌then◌else◌,
}
use predictify_contracts.Base.Int.{ℤ, pos, checked_add}
use predictify_contracts.Base.Maps.{Address, Map, update, get_or}
use predictify_contracts.Base.Words.{u32_max, add_u64, add_u32}
use predictify_contracts.Base.Host.{Env}

pub record PlatformStatistics : Type 0 where
  pub total_events_created : ℕ
  pub total_bets_placed : ℕ
  pub total_volume : ℤ
  pub total_fees_collected : ℤ
  pub active_events_count : ℕ

pub record UserStatistics : Type 0 where
  pub total_bets_placed : ℕ
  pub total_amount_wagered : ℤ
  pub total_winnings : ℤ
  pub total_bets_won : ℕ
  pub win_rate : ℕ
  pub last_activity_ts : ℕ

-- "p_stats", "u_stats", and what was pushed to the leaderboard
pub record StatStore : Type 0 where
  pub platform : Option PlatformStatistics
  pub users : Map UserStatistics
  pub pushed : List (Address × UserStatistics)

pub get_platform_stats : StatStore → PlatformStatistics
get_platform_stats s = get_or s.platform (record {
  total_events_created = 0;
  total_bets_placed = 0;
  total_volume = pos 0;
  total_fees_collected = pos 0;
  active_events_count = 0;
})

pub get_user_stats : StatStore → Address → UserStatistics
get_user_stats s user = get_or (s.users user) (record {
  total_bets_placed = 0;
  total_amount_wagered = pos 0;
  total_winnings = pos 0;
  total_bets_won = 0;
  win_rate = 0;
  last_activity_ts = 0;
})

-- a counter stays where it would overflow
abbrev pub kept_or : {A : Type 0} → Option A → A → A
kept_or sum old = get_or sum old

-- `win_rate_bp as u32`, at most all of them
abbrev pub win_rate_of : ℕ → ℕ → ℕ → ℕ
win_rate_of won placed old =
    if placed == 0
    then old
    else (let rate = won * 10000 / placed % (u32_max + 1) in if ltb 10000 rate then 10000 else rate)

abbrev pub with_winnings : Env → ℤ → UserStatistics → UserStatistics
with_winnings env amount u =
    let won = kept_or (add_u64 u.total_bets_won 1) u.total_bets_won in
    record u {
      total_winnings = kept_or (checked_add u.total_winnings amount) u.total_winnings;
      total_bets_won = won;
      last_activity_ts = env.now;
      win_rate = win_rate_of won u.total_bets_placed u.win_rate;
    }

pub record_winnings_claimed : Env → Address → ℤ → StatStore → StatStore
unfolding get_user_stats
record_winnings_claimed env user amount s =
    let u = with_winnings env amount (get_user_stats s user) in
    record s { users = update s.users user (some u); pushed = (user, u) ∷ s.pushed }

pub record_fees_collected : ℤ → StatStore → StatStore
unfolding get_platform_stats
record_fees_collected amount s =
    let p = get_platform_stats s in
    record s {
      platform = some (record p {
        total_fees_collected =
            kept_or (checked_add p.total_fees_collected amount) p.total_fees_collected;
      });
    }

pub record_market_created : StatStore → StatStore
unfolding get_platform_stats
record_market_created s =
    let p = get_platform_stats s in
    record s {
      platform = some (record p {
        total_events_created = kept_or (add_u64 p.total_events_created 1) p.total_events_created;
        active_events_count = kept_or (add_u32 p.active_events_count 1) p.active_events_count;
      });
    }

pub record_market_resolved : StatStore → StatStore
unfolding get_platform_stats
record_market_resolved s =
    let p = get_platform_stats s in
    record s { platform = some (record p { active_events_count = p.active_events_count - 1 }) }

abbrev pub with_wager : Env → ℤ → UserStatistics → UserStatistics
with_wager env amount u = record u {
  total_bets_placed = kept_or (add_u64 u.total_bets_placed 1) u.total_bets_placed;
  total_amount_wagered = kept_or (checked_add u.total_amount_wagered amount) u.total_amount_wagered;
  last_activity_ts = env.now;
}

pub record_bet_placed : Env → Address → ℤ → StatStore → StatStore
unfolding get_platform_stats get_user_stats
record_bet_placed env user amount s =
    let p = get_platform_stats s in
    record s {
      platform = some (record p {
        total_bets_placed = kept_or (add_u64 p.total_bets_placed 1) p.total_bets_placed;
        total_volume = kept_or (checked_add p.total_volume amount) p.total_volume;
      });
      users = update s.users user (some (with_wager env amount (get_user_stats s user)));
    }
