-- ===== src/Markets/Payout.antt =====
-- The payout of a winner (contracts/predictify-hybrid/src/markets.rs,
-- `MarketUtils::calculate_payout`).
pub mod Solvency
use predictify_contracts.Base.{Option, Bool, true, false, ◌&&◌, ◌==◌, if◌then◌else◌}
use predictify_contracts.Base.Int.{ℤ, pos, pos_part, neg_part, checked_sub, checked_mul, div_i128}
use predictify_contracts.Base.Action.{Action, raise_if, or_raise, or_abort, pure, ◌>>=◌, ◌>>◌}
use predictify_contracts.Errors.{Error, nothing_to_claim, invalid_input}

unfoldable pub calculate_payout : {S : Type 0} → ℤ → ℤ → ℤ → ℤ → Action S Error ℤ
calculate_payout user_stake winning_total total_pool fee_percentage = do
  raise_if (pos_part winning_total == 0 && neg_part winning_total == 0) nothing_to_claim
  rate ← or_abort (checked_sub (pos 100) fee_percentage)
  share ← or_raise (checked_mul user_stake rate) invalid_input
  user_share ← or_abort (div_i128 share (pos 100))
  product ← or_raise (checked_mul user_share total_pool) invalid_input
  or_abort (div_i128 product winning_total)
