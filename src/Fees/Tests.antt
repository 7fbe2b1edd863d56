-- ===== src/Fees/Tests.antt =====
-- The arithmetic of the fees on small inputs (contracts/predictify-hybrid/src/fees.rs).
use predictify_contracts.Base.{ℕ, ◌+◌, ◌*◌, ◌/◌, ◌≤◌, ◌<◌, ◌≡◌, refl, none, true, false, [], ◌∷◌}
use predictify_contracts.Base.Int.{pos, ◌-ℤ◌}
use predictify_contracts.Base.Maps.{empty}
use predictify_contracts.Base.Action.{ok, is_ok}
use predictify_contracts.Markets.{Market, resolved}
use predictify_contracts.Fees.{checked_bps_floor}
use predictify_contracts.Fees.Breakdown.{
  calculate_platform_fee, calculate_fee_breakdown, calculate_fee_breakdown_ok,
}

abbrev big_market : Market
big_market = record {
  admin = 1;
  question = "?";
  outcomes = 5 ∷ 6 ∷ [];
  end_time = 1000;
  oracle_config = record { feed_id = "BTC"; threshold = pos 5; comparison = "gt" };
  has_fallback = false;
  resolution_timeout = 60;
  oracle_result = none;
  votes = empty;
  stakes = empty;
  claimed = empty;
  total_staked = pos 50000001;
  dispute_stakes = [];
  winning_outcomes = none;
  fee_collected = false;
  state = resolved;
  total_extension_days = 0;
  max_extension_days = 30;
  category = none;
  tags = [];
  min_pool_size = none;
  bet_deadline = 0;
  dispute_window_seconds = 60;
  winnings_swept = false;
}

-- one basis point of 10001 by the denominator of the unit tests, and by config.rs's
one_basis_point :
    (checked_bps_floor {S = ℕ} (pos 10000) (pos 10001) (pos 1) 0 ≡ (ok (pos 1), 0))
    × (checked_bps_floor {S = ℕ} (pos 100) (pos 10001) (pos 1) 0 ≡ (ok (pos 100), 0))
one_basis_point = (refl, refl)

-- by config.rs's denominator, a fee of 200 basis points is twice the pool
fee_refused : is_ok (calculate_platform_fee {S = ℕ} (pos 100) big_market 0).0 ≡ false
unfolding calculate_platform_fee
fee_refused = refl

breakdown_accepted : is_ok (calculate_fee_breakdown {S = ℕ} (pos 10000) big_market 0).0 ≡ true
unfolding calculate_fee_breakdown calculate_platform_fee ◌-ℤ◌
breakdown_accepted = refl

calculate_fee_breakdown_ok_example :
    (fee rest : ℕ) × ((calculate_fee_breakdown {S = ℕ} (pos 10000) big_market 0).0
      ≡ ok (record {
        total_staked = pos 50000001;
        fee_percentage = pos 200;
        fee_amount = pos fee;
        platform_fee = pos fee;
        user_payout_amount = pos rest;
      }))
    × (fee + rest ≡ 50000001)
    × (1000000 ≤ fee)
    × (0 < 10000)
    × (fee ≡ 50000001 * 200 / 10000)
calculate_fee_breakdown_ok_example =
    calculate_fee_breakdown_ok {S = ℕ} 10000 50000001 big_market 0 refl breakdown_accepted
