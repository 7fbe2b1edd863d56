-- ===== src/Markets/Payout/Solvency.antt =====
-- What all the winners of a market can get together (contracts/predictify-hybrid/src/markets.rs,
-- `MarketUtils::calculate_payout`).
use native.Mathlib.Nat.{
  le_trans, mul-le-mul_left, mul-le-mul_right, div-mul-le_self, le_of_mul-le-mul_left,
}
use predictify_contracts.Base.{
  ℕ, zero, suc, ◌+◌, ◌-◌, ◌*◌, ◌/◌, ◌≤◌, ◌<◌, ◌≡◌, refl, List, [], ◌∷◌, arith,
}
use predictify_contracts.Base.Int.{pos, i128_max, ◌-ℤ◌, pos_part}
use predictify_contracts.Base.Action.{Action, ok, pure, ◌>>=◌}
use predictify_contracts.Errors.{Error}
use predictify_contracts.Markets.Payout.{calculate_payout}

-- the payout on natural numbers
abbrev pub share : ℕ → ℕ → ℕ → ℕ → ℕ
share stake total pool fee = stake * (100 - fee) / 100 * pool / total

-- For amounts that are not negative the code computes the share, as long as the products fit.
pub calculate_payout_lem :
    {S : Type 0} (stake total pool fee : ℕ) (s : S)
    → 0 < total
    → fee ≤ 100
    → stake * (100 - fee) ≤ i128_max
    → stake * (100 - fee) / 100 * pool ≤ i128_max
    → calculate_payout (pos stake) (pos total) (pos pool) (pos fee) s
      ≡ (ok (pos (share stake total pool fee)), s)
unfolding calculate_payout ◌-ℤ◌
calculate_payout_lem stake zero pool fee s p f h k = elim p [ ]
calculate_payout_lem stake (suc total) pool fee s p f h k = ground arith

share_scaled :
    (stake total pool fee : ℕ)
    → total * (100 * share stake total pool fee) ≤ stake * ((100 - fee) * pool)
share_scaled stake total pool fee = omega (
  arith,
  div-mul-le_self (stake * (100 - fee) / 100 * pool) total,
  mul-le-mul_right pool (div-mul-le_self (stake * (100 - fee)) 100),
)

-- the stakes of several winners
abbrev total_of : List ℕ → ℕ
total_of [] = 0
total_of (stake ∷ rest) = stake + total_of rest

abbrev shares : ℕ → ℕ → ℕ → List ℕ → ℕ
shares total pool fee [] = 0
shares total pool fee (stake ∷ rest) = share stake total pool fee + shares total pool fee rest

shares_scaled :
    (total pool fee : ℕ) (stakes : List ℕ)
    → total * (100 * shares total pool fee stakes) ≤ total_of stakes * ((100 - fee) * pool)
shares_scaled total pool fee [] = omega arith
shares_scaled total pool fee (stake ∷ rest) =
    omega (arith, share_scaled stake total pool fee, shares_scaled total pool fee rest)

shares_bounded :
    (total pool fee : ℕ) (stakes : List ℕ)
    → 0 < total
    → total_of stakes ≤ total
    → 100 * shares total pool fee stakes ≤ (100 - fee) * pool
shares_bounded total pool fee stakes p h =
    le_of_mul-le-mul_left
      (le_trans (shares_scaled total pool fee stakes) (mul-le-mul_right ((100 - fee) * pool) h)) p

-- the winners claim one after the other
pub pay_all : {S : Type 0} → ℕ → ℕ → ℕ → List ℕ → Action S Error ℕ
pay_all total pool fee [] = pure 0
pay_all total pool fee (stake ∷ rest) = do
  x ← calculate_payout (pos stake) (pos total) (pos pool) (pos fee)
  y ← pay_all total pool fee rest
  pure (pos_part x + y)

fits :
    (stake total pool fee : ℕ)
    → stake ≤ total
    → fee ≤ 100
    → total * 100 ≤ i128_max
    → total * pool ≤ i128_max
    → (stake * (100 - fee) ≤ i128_max) × (stake * (100 - fee) / 100 * pool ≤ i128_max)
fits stake total pool fee a b c d =
    let whole : stake * (100 - fee) ≤ stake * 100 = mul-le-mul_left stake (omega arith) in
    let part : stake * (100 - fee) / 100 ≤ total = omega arith in
    (omega arith, omega (arith, mul-le-mul_right pool part))

pay_all_lem :
    {S : Type 0} (total pool fee : ℕ) (stakes : List ℕ) (s : S)
    → 0 < total
    → fee ≤ 100
    → total_of stakes ≤ total
    → total * 100 ≤ i128_max
    → total * pool ≤ i128_max
    → pay_all total pool fee stakes s ≡ (ok (shares total pool fee stakes), s)
unfolding pay_all
pay_all_lem total pool fee [] s p f h a b = refl
pay_all_lem total pool fee (stake ∷ rest) s p f h a b =
    let (x, y) = fits stake total pool fee (omega arith) f a b in
    let first = calculate_payout_lem stake total pool fee s p f x y in
    let next = pay_all_lem total pool fee rest s p f (omega arith) a b in
    ground (arith, first, next)

-- Where the stakes of the claiming winners are within the winning total, the fee is at most a
-- hundred percent and the products fit, every claim is computed, and together they pay no more than
-- the pool less the fee.
pub payouts_bounded :
    {S : Type 0} (total pool fee : ℕ) (stakes : List ℕ) (s : S)
    → 0 < total
    → fee ≤ 100
    → total_of stakes ≤ total
    → total * 100 ≤ i128_max
    → total * pool ≤ i128_max
    → (paid : ℕ) × (pay_all total pool fee stakes s ≡ (ok paid, s))
      × (100 * paid ≤ (100 - fee) * pool)
payouts_bounded total pool fee stakes s p f h a b = (
  shares total pool fee stakes,
  pay_all_lem total pool fee stakes s p f h a b,
  shares_bounded total pool fee stakes p h,
)
