-- ===== src/Resolution.antt =====
-- The resolution of a market by the median of its price sources
-- (contracts/predictify-hybrid/src/resolution.rs, `OracleQuote` and `MedianOracleConfig` of
-- contracts/predictify-hybrid/src/types.rs): quotes, medians and outliers.
pub mod Weights
pub mod Outliers
pub mod Median
use predictify_contracts.Base.{
  ℕ, zero, suc, ◌+◌, ◌-◌, ◌*◌, ◌/◌, ◌%◌, Option, none, some, Bool, true, false, not, ◌&&◌, List, [],
  ◌∷◌, ◌==◌, ltb, leb, if◌then◌else◌,
}
use predictify_contracts.Base.Int.{ℤ, pos, negsuc, neg, ◌+ℤ◌, ltb_ℤ, leb_ℤ, saturating_sub}
use predictify_contracts.Base.Lists.{length, get_elem?}
use predictify_contracts.Base.Maps.{get_or}
use predictify_contracts.Base.Words.{u64_max, saturating_add_u64, saturating_mul_u64}
use predictify_contracts.Base.Action.{Result, ok, err, panic}
use predictify_contracts.Errors.{Error, oracle_no_consensus}
use predictify_contracts.Oracles.{OraclePriceData}

pub record OracleQuote : Type 0 where
  pub price : ℤ
  pub confidence_bps : ℕ
  pub weight_bps : ℕ
  pub included : Bool

-- of `MedianOracleConfig`, without the addresses of the sources
pub record MedianOracleConfig : Type 0 where
  pub max_deviation_bps : ℕ
  pub min_sources : ℕ

-- `as u64` of an i128
abbrev pub as_u64 : ℤ → ℕ
as_u64 (pos n) = n % (u64_max + 1)
as_u64 (negsuc n) = u64_max - n % (u64_max + 1)

-- `saturating_div` of a u64, which panics at 0
abbrev pub div_u64 : ℕ → ℕ → Option ℕ
div_u64 a b = if b == 0 then none else some (a / b)

abbrev pub at_most : ℕ → ℕ → ℕ
at_most top n = if ltb top n then top else n

abbrev pub at_least : ℕ → ℕ → ℕ
at_least low n = if ltb n low then low else n

-- the interval and the weight, both in basis points, of a price with its positive interval
abbrev pub interval_weight : ℕ → ℕ → Option (ℕ × ℕ)
interval_weight price c = elim (div_u64 (saturating_mul_u64 c 10000) price) [
  | none ↦ none
  | some conf ↦ elim (div_u64 (saturating_mul_u64 price 10000) (saturating_add_u64 price c)) [
    | none ↦ none
    | some weight ↦ some (at_most 10000 conf, at_most 10000 (at_least 1 weight))
  ]
]

-- `none` is a division by 0, which panics
pub confidence_to_weight : ℤ → Option ℤ → Option (ℕ × ℕ)
confidence_to_weight price confidence =
    if leb_ℤ price (pos 0) then some (0, 0) else elim confidence [
      | none ↦ some (0, 5000)
      | some c ↦
          if leb_ℤ c (pos 0) then some (0, 10000) else interval_weight (as_u64 price) (as_u64 c)
    ]

abbrev pub no_quote : OracleQuote
no_quote = record { price = pos 0; confidence_bps = 0; weight_bps = 0; included = false }

abbrev pub quote_of : OraclePriceData → Result Error OracleQuote
unfolding confidence_to_weight
quote_of d = elim (confidence_to_weight d.price d.confidence) [
  | some (conf, weight) ↦
      ok (record { price = d.price; confidence_bps = conf; weight_bps = weight; included = true })
  | none ↦ panic
]

-- what a source answers, as a quote; a panic in the source is a panic of the call
abbrev pub fetch_quote : Result Error OraclePriceData → Result Error OracleQuote
fetch_quote (ok d) = if ltb_ℤ (pos 0) d.price then quote_of d else ok no_quote
fetch_quote (err e) = ok no_quote
fetch_quote panic = panic

-- The included prices with their weights, as many as the array has room for.
pub pairs_of : ℕ → List OracleQuote → List (ℤ × ℕ)
pairs_of zero qs = []
pairs_of (suc room) [] = []
pairs_of (suc room) (q ∷ qs) =
    let skip = pairs_of (suc room) qs in
    let take = (q.price, at_least 1 q.weight_bps) ∷ pairs_of room qs in
    if q.included then take else skip

pub prices_of : ℕ → List OracleQuote → List ℤ
prices_of zero qs = []
prices_of (suc room) [] = []
prices_of (suc room) (q ∷ qs) =
    let skip = prices_of (suc room) qs in
    let take = q.price ∷ prices_of room qs in if q.included then take else skip

-- one round of the inner loop of the bubble sort, with as many comparisons as the number says
pub bubble : ℕ → List ℤ → List ℤ
bubble (suc n) (x ∷ y ∷ r) =
    (if ltb_ℤ y x then y else x) ∷ bubble n ((if ltb_ℤ y x then x else y) ∷ r)
bubble _ l = l

-- the rounds that are left, each one comparison shorter than the one before
pub bubble_rounds : ℕ → List ℤ → List ℤ
bubble_rounds zero l = l
bubble_rounds (suc n) l = bubble_rounds n (bubble n l)

pub collect_included_sorted : List OracleQuote → List ℤ
unfolding prices_of bubble_rounds bubble
collect_included_sorted qs = let l = prices_of 3 qs in bubble_rounds (length l) l

-- `/ 2` and `% 2` on an i128
abbrev pub half : ℤ → ℤ
half (pos n) = pos (n / 2)
half (negsuc n) = neg (suc n / 2)

abbrev pub odd_part : ℤ → ℤ
odd_part (pos n) = pos (n % 2)
odd_part (negsuc n) = neg (suc n % 2)

pub simple_median : List ℤ → ℤ
simple_median l =
    let n = length l in
    if n == 0
    then pos 0
    else (if n % 2 == 1
        then get_or (get_elem? l (n / 2)) (pos 0)
        else (let lo = get_or (get_elem? l (n / 2 - 1)) (pos 0) in
            let hi = get_or (get_elem? l (n / 2)) (pos 0) in
            half lo +ℤ half hi +ℤ half (odd_part lo +ℤ odd_part hi)))

-- A turn of the insertion sort: the sorted entries before it, the last one first, and the entry that
-- is swapped towards the front while the one before it is dearer.
pub sink : ℤ × ℕ → List (ℤ × ℕ) → List (ℤ × ℕ)
sink x [] = x ∷ []
sink x (y ∷ ys) = if ltb_ℤ x.0 y.0 then y ∷ sink x ys else x ∷ y ∷ ys

pub insert_all : List (ℤ × ℕ) → List (ℤ × ℕ) → List (ℤ × ℕ)
insert_all done [] = done
insert_all done (x ∷ xs) = insert_all (sink x done) xs

-- the array from its front
pub onto : List (ℤ × ℕ) → List (ℤ × ℕ) → List (ℤ × ℕ)
onto l [] = l
onto l (x ∷ xs) = onto (x ∷ l) xs

pub total_weight : ℕ → List (ℤ × ℕ) → ℕ
total_weight n [] = n
total_weight n (x ∷ xs) = total_weight (saturating_add_u64 n x.1) xs

-- the price at which the weights reach the bound
pub reach : ℕ → ℕ → ℤ → List (ℤ × ℕ) → ℤ
reach bound n result [] = result
reach bound n result (x ∷ xs) =
    let rest = reach bound (saturating_add_u64 n x.1) x.0 xs in
    if leb bound (saturating_add_u64 n x.1) then x.0 else rest

unfoldable pub weighted_median : List OracleQuote → Result Error ℤ
unfolding pairs_of sink insert_all onto total_weight reach
weighted_median qs =
    let sorted = onto [] (insert_all [] (pairs_of 3 qs)) in
    if length (pairs_of 3 qs) == 0
    then err oracle_no_consensus
    else ok (reach ((total_weight 0 sorted + 1) / 2) 0 (pos 0) sorted)

-- the difference to the median, as the code takes it
abbrev pub difference : ℤ → ℤ → ℤ
difference price median =
    if ltb_ℤ median price then saturating_sub price median else saturating_sub median price

-- the deviation from the median in basis points; `none` is a division by 0, which panics
abbrev pub deviation_bps : ℤ → ℤ → Option ℕ
deviation_bps price median =
    div_u64 (saturating_mul_u64 (as_u64 (difference price median)) 10000) (as_u64 median)

abbrev pub mark_outlier : ℕ → ℤ → OracleQuote → Option OracleQuote
mark_outlier limit median q =
    if q.included && ltb_ℤ (pos 0) median
    then elim (deviation_bps q.price median) [
      | none ↦ none
      | some d ↦ some (if ltb limit d then record q { included = false } else q)
    ]
    else some q

-- a panic in one quote is a panic of the loop
abbrev pub in_turn : Option OracleQuote → Option (List OracleQuote) → Option (List OracleQuote)
in_turn none qs = none
in_turn (some q) none = none
in_turn (some q) (some qs) = some (q ∷ qs)

pub mark_outliers : ℕ → ℤ → List OracleQuote → Option (List OracleQuote)
mark_outliers limit median [] = some []
mark_outliers limit median (q ∷ qs) =
    in_turn (mark_outlier limit median q) (mark_outliers limit median qs)

abbrev pub count_included : List OracleQuote → ℕ
count_included [] = 0
count_included (q ∷ qs) = (if q.included then 1 else 0) + count_included qs
