-- ===== src/Fees/Breakdown.antt =====
-- What a market's fee is and what is left for its users (contracts/predictify-hybrid/src/fees.rs,
-- `FeeCalculator`). The denominator of the percentages is a parameter.
use predictify_contracts.Base.{
  ℕ, ◌+◌, ◌-◌, ◌*◌, ◌/◌, ◌≤◌, ◌<◌, refl, ◌≡◌, true, ◌&&◌, ◌||◌, ◌==◌, arith,
}
use predictify_contracts.Base.Int.{ℤ, pos, pos_part, neg_part, ltb_ℤ, leb_ℤ, checked_sub, ◌-ℤ◌}
use predictify_contracts.Base.Action.{Action, ok, is_ok, raise_if, or_raise, pure, ◌>>=◌, ◌>>◌}
use predictify_contracts.Errors.{
  Error, invalid_fee_config, insufficient_stake, fee_arithmetic_overflow, nothing_to_claim,
}
use predictify_contracts.Markets.{Market}
use predictify_contracts.Fees.{platform_fee, min_fee, checked_mul_div_floor, checked_bps_floor}

pub record FeeBreakdown : Type 0 where
  pub total_staked : ℤ
  pub fee_percentage : ℤ
  pub fee_amount : ℤ
  pub platform_fee : ℤ
  pub user_payout_amount : ℤ

unfoldable pub calculate_platform_fee : {S : Type 0} → ℤ → Market → Action S Error ℤ
calculate_platform_fee denominator m = do
  raise_if (leb_ℤ m.total_staked (pos 0)) invalid_fee_config
  fee ← checked_bps_floor denominator m.total_staked (pos platform_fee)
  raise_if (ltb_ℤ fee (pos min_fee)) insufficient_stake
  raise_if (ltb_ℤ m.total_staked fee) invalid_fee_config
  pure fee

unfoldable pub calculate_fee_breakdown : {S : Type 0} → ℤ → Market → Action S Error FeeBreakdown
unfolding calculate_platform_fee
calculate_fee_breakdown denominator m = do
  fee ← calculate_platform_fee denominator m
  rest ← or_raise (checked_sub m.total_staked fee) fee_arithmetic_overflow
  pure (record {
    total_staked = m.total_staked;
    fee_percentage = pos platform_fee;
    fee_amount = fee;
    platform_fee = fee;
    user_payout_amount = rest;
  })

pub calculate_user_payout_after_fees : {S : Type 0} → ℤ → ℤ → ℤ → ℤ → Action S Error ℤ
calculate_user_payout_after_fees denominator user_stake winning_total total_pool = do
  raise_if (pos_part winning_total == 0 && neg_part winning_total == 0) nothing_to_claim
  raise_if (ltb_ℤ user_stake (pos 0) || ltb_ℤ winning_total (pos 0) || ltb_ℤ total_pool (pos 0))
      invalid_fee_config
  share ← checked_bps_floor denominator user_stake (denominator -ℤ pos platform_fee)
  checked_mul_div_floor share total_pool winning_total

-- For a pool and a denominator `d` that are not negative, a breakdown that is returned has the
-- whole pool, a fee that is the pool times 200 over `d`, rounded down, and at least the smallest
-- fee, and a payout that is the rest, so that the fee and the payout add up to the pool; `d` is
-- then positive.
pub calculate_fee_breakdown_ok :
    {S : Type 0} (d total : ℕ) (m : Market) (s : S)
    → m.total_staked ≡ pos total
    → is_ok (calculate_fee_breakdown (pos d) m s).0 ≡ true
    → (fee rest : ℕ) × ((calculate_fee_breakdown (pos d) m s).0
        ≡ ok (record {
          total_staked = pos total;
          fee_percentage = pos 200;
          fee_amount = pos fee;
          platform_fee = pos fee;
          user_payout_amount = pos rest;
        }))
      × (fee + rest ≡ total)
      × (1000000 ≤ fee)
      × (0 < d)
      × (fee ≡ total * 200 / d)
unfolding calculate_fee_breakdown calculate_platform_fee ◌-ℤ◌
calculate_fee_breakdown_ok d total m s e h =
    let h' = rw e at h in
    (
      total * 200 / d,
      total - total * 200 / d,
      rw e (ground arith),
      ground arith,
      ground arith,
      ground arith,
      refl,
    )
