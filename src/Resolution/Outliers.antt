-- ===== src/Resolution/Outliers.antt =====
-- Which quotes count as outliers (contracts/predictify-hybrid/src/resolution.rs,
-- `resolve_with_median`, its fifth part).
use native.Mathlib.Nat.{div-le_of_le-mul, div-lt_iff_lt-mul}
use predictify_contracts.Base.{
  ℕ, ◌+◌, ◌-◌, ◌*◌, ◌/◌, ◌≤◌, ◌<◌, ◌≡◌, refl, ap, ap₂, ◌∙◌, inl, inr, some, Bool, true, false, not,
  ◌&&◌, ltb→lt, List, [], ◌∷◌, map, ltb, ◌==◌, arith, Bool-cases, if◌then◌else◌,
}
use predictify_contracts.Base.Int.{ℤ, pos, negsuc, ◌-ℤ◌, ltb_ℤ, pos_part}
use predictify_contracts.Base.Words.{u64_max, saturating_mul_u64}
use predictify_contracts.Resolution.{
  OracleQuote, as_u64, difference, deviation_bps, in_turn, mark_outlier, mark_outliers,
}

as_u64-lt : (a : ℤ) → as_u64 a ≤ u64_max
as_u64-lt (pos n) = omega arith
as_u64-lt (negsuc n) = omega arith

-- A deviation that is computed, with what it is computed from.
deviation_bps_lem :
    (price : ℤ) (m : ℕ)
    → 0 < m
    → m ≤ u64_max
    → deviation_bps price (pos m)
      ≡ some (saturating_mul_u64 (as_u64 (difference price (pos m))) 10000 / m)
deviation_bps_lem price m p h =
    let word : as_u64 (pos m) ≡ m = omega arith in
    let some_m : (m == 0) ≡ false = ground arith in rw (word, some_m) refl

wide_kept :
    (limit m : ℕ) (q : OracleQuote)
    → 0 < m
    → m ≤ u64_max
    → u64_max ≤ m * limit
    → mark_outlier limit (pos m) q ≡ some q
wide_kept limit m q p h k =
    let d = saturating_mul_u64 (as_u64 (difference q.price (pos m))) 10000 in
    let top : d ≤ u64_max = ground arith in
    let small : d / m ≤ limit = div-le_of_le-mul m (omega arith) in
    let within : ltb limit (d / m) ≡ false = ground arith in
    elim (Bool-cases (q.included && ltb_ℤ (pos 0) (pos m))) [
      | inl e ↦ rw (e, deviation_bps_lem q.price m p h, within) refl
      | inr e ↦ rw e refl
    ]

-- Where the median is positive and at most the largest u64, and times the limit is at least the
-- largest u64, no quote is an outlier, whatever its price is.
pub wide_median :
    (limit m : ℕ) (qs : List OracleQuote)
    → 0 < m
    → m ≤ u64_max
    → u64_max ≤ m * limit
    → mark_outliers limit (pos m) qs ≡ some qs
unfolding mark_outliers
wide_median limit m [] p h k = refl
wide_median limit m (q ∷ qs) p h k =
    ap₂ in_turn (wide_kept limit m q p h k) (wide_median limit m qs p h k)

-- the distance of two prices that are not negative
abbrev pub distance : ℕ → ℕ → ℕ
distance a b = if ltb b a then a - b else b - a

-- the quote with its mark by the limit on the distance in basis points of the median
abbrev pub marked : ℕ → ℕ → OracleQuote → OracleQuote
marked limit m q = record q {
  included = q.included && ltb (distance (pos_part q.price) m * 10000) ((limit + 1) * m);
}

-- the largest price whose distances do not saturate
abbrev pub exact_top : ℕ
exact_top = 1844674407370955

unsaturated : (a : ℕ) → a ≤ exact_top → saturating_mul_u64 a 10000 ≡ a * 10000
unsaturated a h = ground arith

difference_lem :
    (n m : ℕ) → n ≤ exact_top → m ≤ exact_top → as_u64 (difference (pos n) (pos m)) ≡ distance n m
unfolding ◌-ℤ◌
difference_lem n m h k = ground arith

-- a mark by the quotient is a mark by the product
quotient_mark : (limit d m : ℕ) → 0 < m → ltb limit (d / m) ≡ not (ltb d ((limit + 1) * m))
quotient_mark limit d m p =
    let (down, up) = div-lt_iff_lt-mul {k = m} {x = d} {y = limit + 1} p in
    elim (Bool-cases (ltb d ((limit + 1) * m))) [
      | inl e ↦ let less = down in rw e (ground (arith, up (ltb→lt d ((limit + 1) * m) e)))
      | inr e ↦ rw e (ground (arith, down))
    ]

exact_kept :
    (limit m n : ℕ) (q : OracleQuote)
    → q.price ≡ pos n
    → 0 < m
    → m ≤ exact_top
    → n ≤ exact_top
    → mark_outlier limit (pos m) q
      ≡ some (record q { included = q.included && ltb (distance n m * 10000) ((limit + 1) * m) })
exact_kept limit m n q e p h k =
    let positive : ltb_ℤ (pos 0) (pos m) ≡ true = ground arith in
    let d = saturating_mul_u64 (as_u64 (difference q.price (pos m))) 10000 in
    let value : d ≡ distance n m * 10000 =
      ap (λ (x : ℤ). saturating_mul_u64 (as_u64 (difference x (pos m))) 10000) e
      ∙ ap (λ (x : ℕ). saturating_mul_u64 x 10000) (difference_lem n m k h)
      ∙ unsaturated (distance n m) (ground arith) in
    let mark =
      ap (λ (x : ℕ). ltb limit (x / m)) value ∙ quotient_mark limit (distance n m * 10000) m p in
    elim (Bool-cases q.included) [
      | inl f ↦ elim (Bool-cases (ltb (distance n m * 10000) ((limit + 1) * m))) [
        | inl g ↦
            rw (f, positive, deviation_bps_lem q.price m p (omega arith), mark, g)
              (ap (λ (b : Bool). some (record q { included = b })) f)
        | inr g ↦ rw (f, positive, deviation_bps_lem q.price m p (omega arith), mark, g) refl
      ]
      | inr f ↦ rw f refl
    ]

-- every price is not negative, and small enough for the products to be exact
abbrev pub AllExact : List OracleQuote → Type 0
AllExact [] = Unit
AllExact (q ∷ qs) =
    (q.price ≡ pos (pos_part q.price)) × (pos_part q.price ≤ exact_top) × AllExact qs

-- Where the median is positive and the prices are not negative, all of them up to 2 ^ 64 / 10000,
-- the quotes that stay included are exactly those that were and whose distance from the median, in
-- basis points of it and rounded down, is within the limit.
pub mark_outliers_lem :
    (limit m : ℕ) (qs : List OracleQuote)
    → 0 < m
    → m ≤ exact_top
    → AllExact qs
    → mark_outliers limit (pos m) qs ≡ some (map (marked limit m) qs)
unfolding mark_outliers
mark_outliers_lem limit m [] p h a = refl
mark_outliers_lem limit m (q ∷ qs) p h a =
    ap₂ in_turn (exact_kept limit m (pos_part q.price) q a.0 p h a.1)
      (mark_outliers_lem limit m qs p h a.2)
