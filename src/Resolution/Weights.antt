-- ===== src/Resolution/Weights.antt =====
-- The weighted median (contracts/predictify-hybrid/src/resolution.rs, `weighted_median`).
pub mod Sorting
use predictify_contracts.Base.{
  ℕ, zero, suc, ◌+◌, ◌*◌, ◌/◌, ◌≤◌, ◌<◌, ◌≡◌, refl, sym, subst, ◌∙◌, ◌⊎◌, inl, inr, Bool, true,
  false, List, [], ◌∷◌, leb, arith, Bool-cases, if◌then◌else◌,
}
use predictify_contracts.Base.Int.{ℤ, pos, ltb_ℤ, ◌≤ℤ◌}
use predictify_contracts.Base.Lists.{length}
use predictify_contracts.Base.Words.{u32_max, u64_max, saturating_add_u64}
use predictify_contracts.Base.Action.{ok}
use predictify_contracts.Resolution.{
  OracleQuote, at_least, pairs_of, sink, insert_all, onto, total_weight, reach, weighted_median,
}
use predictify_contracts.Resolution.Weights.Sorting.{
  mass, sink-mass, insert_all-mass, onto-mass, AllAtMost, AllAtLeast, Descending, Ascending,
  AllAtMost-trans, sink-AllAtMost, sink-Descending, insert_all-Descending, Below, Below-cons,
  onto-Ascending, Below-nil, sorted, sorted-mass, sorted-Ascending,
}

abbrev pub all_prices : ℤ → Bool
all_prices _ = true

abbrev pub cheaper : ℤ → ℤ → Bool
cheaper p x = ltb_ℤ x p

abbrev pub dearer : ℤ → ℤ → Bool
dearer p x = ltb_ℤ p x

total_weight_lem :
    (n : ℕ) (l : List (ℤ × ℕ))
    → n + mass all_prices l ≤ u64_max
    → total_weight n l ≡ n + mass all_prices l
unfolding total_weight
total_weight_lem n [] h = omega arith
total_weight_lem n (x ∷ xs) h = ground (arith, total_weight_lem (n + x.1) xs)

-- nothing is cheaper than a lower bound
no_cheaper : (p : ℤ) (l : List (ℤ × ℕ)) → AllAtLeast p l → mass (cheaper p) l ≡ 0
no_cheaper p [] h = refl
no_cheaper p (x ∷ xs) h = ground (arith, no_cheaper p xs h.1)

mass-le : (t : ℤ → Bool) (l : List (ℤ × ℕ)) → mass t l ≤ mass all_prices l
mass-le t [] = omega arith
mass-le t (x ∷ xs) = ground (arith, mass-le t xs)

-- the result is no less than a lower bound of what is left and of the last price
reach-ge :
    (b : ℤ) (bound n : ℕ) (p : ℤ) (l : List (ℤ × ℕ))
    → b ≤ℤ p
    → AllAtLeast b l
    → b ≤ℤ reach bound n p l
unfolding reach
reach-ge b bound n p [] h k = h
reach-ge b bound n p (x ∷ xs) h k = elim (Bool-cases (leb bound (saturating_add_u64 n x.1))) [
  | inl e ↦ rw e k.0
  | inr e ↦ rw e (reach-ge b bound (saturating_add_u64 n x.1) x.0 xs k.0 k.1)
]

-- less than the bound is cheaper than the price, and as much as is over it is dearer
abbrev Splits : ℕ → ℕ → List (ℤ × ℕ) → ℤ → Type 0
Splits bound n l p =
    (n + mass (cheaper p) l < bound) × (mass (dearer p) l + bound ≤ n + mass all_prices l)

-- at the entry that reaches the bound
Splits-here :
    (bound n : ℕ) (x : ℤ × ℕ) (xs : List (ℤ × ℕ))
    → AllAtLeast x.0 xs
    → n < bound
    → bound ≤ n + x.1
    → Splits bound n (x ∷ xs) x.0
Splits-here bound n x xs a h k =
    let self_low : ltb_ℤ x.0 x.0 ≡ false = ground arith in
    let none_below = no_cheaper x.0 xs a in
    let rest = mass-le (dearer x.0) xs in rw self_low (omega arith, omega arith)

-- past an entry that does not
Splits-later :
    (bound n : ℕ) (x : ℤ × ℕ) (xs : List (ℤ × ℕ)) (p : ℤ)
    → x.0 ≤ℤ p
    → Splits bound (n + x.1) xs p
    → Splits bound n (x ∷ xs) p
Splits-later bound n x xs p h s =
    let not_dearer : ltb_ℤ p x.0 ≡ false = ground arith in
    (ground arith, rw not_dearer (omega arith))

reach-Splits :
    (bound n : ℕ) (p : ℤ) (l : List (ℤ × ℕ))
    → Ascending l
    → n < bound
    → bound ≤ n + mass all_prices l
    → n + mass all_prices l ≤ u64_max
    → Splits bound n l (reach bound n p l)
unfolding reach
reach-Splits bound n p [] a h k w = absurd (omega arith)
reach-Splits bound n p (x ∷ xs) a h k w =
    let sum : saturating_add_u64 n x.1 ≡ n + x.1 = ground arith in
    elim (Bool-cases (leb bound (n + x.1))) [
      | inl e ↦
          let here : reach bound n p (x ∷ xs) ≡ x.0 = rw (sum, e) refl in
          subst (Splits bound n (x ∷ xs)) (sym here) (Splits-here bound n x xs a.0 h (ground arith))
      | inr e ↦
          let later : reach bound n p (x ∷ xs) ≡ reach bound (n + x.1) x.0 xs = rw (sum, e) refl in
          subst (Splits bound n (x ∷ xs)) (sym later) (
            Splits-later bound n x xs (reach bound (n + x.1) x.0 xs)
              (reach-ge x.0 bound (n + x.1) x.0 xs (omega arith) a.0)
              (reach-Splits bound (n + x.1) x.0 xs a.1 (ground arith) (omega arith) (omega arith)))
    ]

-- the price of an included quote
abbrev pub Offers : ℤ → List OracleQuote → Type 0
Offers p [] = ⊥
Offers p (q ∷ qs) = ((q.included ≡ true) × (q.price ≡ p)) ⊎ Offers p qs

-- the weight of the included quotes whose price passes a test; a quote weighs at least 1
abbrev pub weight_where : (ℤ → Bool) → List OracleQuote → ℕ
weight_where t [] = 0
weight_where t (q ∷ qs) =
    (if q.included then (if t q.price then at_least 1 q.weight_bps else 0) else 0)
    + weight_where t qs

-- every weight is a u32
abbrev pub AllWords : List OracleQuote → Type 0
AllWords [] = Unit
AllWords (q ∷ qs) = (q.weight_bps ≤ u32_max) × AllWords qs

pairs_of-mass :
    (t : ℤ → Bool) (room : ℕ) (qs : List OracleQuote)
    → length qs ≤ room
    → mass t (pairs_of room qs) ≡ weight_where t qs
unfolding pairs_of
pairs_of-mass t zero [] h = refl
pairs_of-mass t zero (q ∷ qs) h = absurd (omega arith)
pairs_of-mass t (suc room) [] h = refl
pairs_of-mass t (suc room) (q ∷ qs) h = elim (Bool-cases q.included) [
  | inl e ↦ rw e (omega (arith, pairs_of-mass t room qs))
  | inr e ↦ rw e (omega (arith, pairs_of-mass t (suc room) qs))
]

-- an entry of the array is the price of an included quote
abbrev All : (ℤ → Type 0) → List (ℤ × ℕ) → Type 0
All P [] = Unit
All P (x ∷ xs) = P x.0 × All P xs

module _ (P : ℤ → Type 0) where
  sink-All : (x : ℤ × ℕ) (l : List (ℤ × ℕ)) → P x.0 → All P l → All P (sink x l)
  unfolding sink
  sink-All x [] h k = (h, tt)
  sink-All x (y ∷ ys) h k = elim (Bool-cases (ltb_ℤ x.0 y.0)) [
    | inl e ↦ rw e (k.0, sink-All x ys h k.1)
    | inr e ↦ rw e (h, k)
  ]

  insert_all-All : (done l : List (ℤ × ℕ)) → All P done → All P l → All P (insert_all done l)
  unfolding insert_all
  insert_all-All done [] h k = h
  insert_all-All done (x ∷ xs) h k = insert_all-All (sink x done) xs (sink-All x done k.0 h) k.1

  onto-All : (l xs : List (ℤ × ℕ)) → All P l → All P xs → All P (onto l xs)
  unfolding onto
  onto-All l [] h k = h
  onto-All l (x ∷ xs) h k = onto-All (x ∷ l) xs (k.0, h) k.1

  reach-keeps : (bound n : ℕ) (p : ℤ) (l : List (ℤ × ℕ)) → P p → All P l → P (reach bound n p l)
  unfolding reach
  reach-keeps bound n p [] h k = h
  reach-keeps bound n p (x ∷ xs) h k = elim (Bool-cases (leb bound (saturating_add_u64 n x.1))) [
    | inl e ↦ rw e k.0
    | inr e ↦ rw e (reach-keeps bound (saturating_add_u64 n x.1) x.0 xs k.0 k.1)
  ]

  reach-found :
      (bound n : ℕ) (p : ℤ) (l : List (ℤ × ℕ))
      → 0 < mass all_prices l
      → All P l
      → P (reach bound n p l)
  unfolding reach
  reach-found bound n p [] h k = absurd (omega arith)
  reach-found bound n p (x ∷ xs) h k = elim (Bool-cases (leb bound (saturating_add_u64 n x.1))) [
    | inl e ↦ rw e k.0
    | inr e ↦ rw e (reach-keeps bound (saturating_add_u64 n x.1) x.0 xs k.0 k.1)
  ]

  pairs_of-All :
      (room : ℕ) (qs : List OracleQuote) → ((p : ℤ) → Offers p qs → P p) → All P (pairs_of room qs)
  unfolding pairs_of
  pairs_of-All zero qs h = tt
  pairs_of-All (suc room) [] h = tt
  pairs_of-All (suc room) (q ∷ qs) h = elim (Bool-cases q.included) [
    | inl e ↦ rw e (h q.price (inl (e, refl)), pairs_of-All room qs (λ (p : ℤ) o. h p (inr o)))
    | inr e ↦ rw e (pairs_of-All (suc room) qs (λ (p : ℤ) o. h p (inr o)))
  ]

weight_where-le :
    (t : ℤ → Bool) (qs : List OracleQuote) → AllWords qs → weight_where t qs ≤ length qs * u32_max
weight_where-le t [] h = omega arith
weight_where-le t (q ∷ qs) h = ground (arith, weight_where-le t qs h.1)

pairs_of-pos :
    (room : ℕ) (qs : List OracleQuote)
    → 0 < length (pairs_of room qs)
    → 0 < mass all_prices (pairs_of room qs)
unfolding pairs_of
pairs_of-pos zero qs h = absurd (omega arith)
pairs_of-pos (suc room) [] h = absurd (omega arith)
pairs_of-pos (suc room) (q ∷ qs) h = elim (Bool-cases q.included) [
  | inl e ↦ rw e (ground arith)
  | inr e ↦ rw e (pairs_of-pos (suc room) qs (rw e at h))
]

-- The weighted median of at most three quotes, whose weights are 32-bit numbers, is the price of an
-- included quote, and the cheaper as well as the dearer included quotes have at most half of the
-- weight.
pub weighted_median_lem :
    (qs : List OracleQuote) (p : ℤ)
    → length qs ≤ 3
    → AllWords qs
    → weighted_median qs ≡ ok p
    → Offers p qs
      × (2 * weight_where (cheaper p) qs ≤ weight_where all_prices qs)
      × (2 * weight_where (dearer p) qs ≤ weight_where all_prices qs)
unfolding weighted_median sorted
weighted_median_lem qs p few words h =
    let ps = pairs_of 3 qs in
    let some_pair : 0 < length ps = ground (arith, h) in
    let total : mass all_prices (sorted ps) ≡ weight_where all_prices qs =
      sorted-mass all_prices ps ∙ pairs_of-mass all_prices 3 qs few in
    let low = sorted-mass (cheaper p) ps ∙ pairs_of-mass (cheaper p) 3 qs few in
    let high = sorted-mass (dearer p) ps ∙ pairs_of-mass (dearer p) 3 qs few in
    let positive : 0 < mass all_prices (sorted ps) =
      omega (arith, sorted-mass all_prices ps, pairs_of-pos 3 qs some_pair) in
    let small : mass all_prices (sorted ps) ≤ u64_max =
      omega (arith, total, weight_where-le all_prices qs words) in
    let bound = (total_weight 0 (sorted ps) + 1) / 2 in
    let sum = total_weight_lem 0 (sorted ps) (omega arith) in
    let result : reach bound 0 (pos 0) (sorted ps) ≡ p = ground (arith, h) in
    let splits =
      reach-Splits bound 0 (pos 0) (sorted ps) (sorted-Ascending ps) (omega arith) (omega arith)
        (omega (arith, small)) in
    let (less, more) = subst (Splits bound 0 (sorted ps)) result splits in
    let listed =
      reach-found (λ (x : ℤ). Offers x qs) bound 0 (pos 0) (sorted ps) positive
        (onto-All (λ (x : ℤ). Offers x qs) [] (insert_all [] ps) tt
          (insert_all-All (λ (x : ℤ). Offers x qs) [] ps tt
            (pairs_of-All (λ (x : ℤ). Offers x qs) 3 qs (λ x o. o)))) in
    (
      subst (λ (x : ℤ). Offers x qs) result listed,
      omega (arith, low, total, sum),
      omega (arith, high, total, sum),
    )
