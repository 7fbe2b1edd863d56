-- ===== src/Resolution/Median/Fetched.antt =====
-- The quotes that a resolution by the median fetches and keeps
-- (contracts/predictify-hybrid/src/resolution.rs, `resolve_with_median`).
use Prim.Native.String.{String}
use predictify_contracts.Base.{
  ℕ, suc, ◌≤◌, ◌≡◌, ◌≢◌, ◌⊎◌, refl, sym, ap, inl, inr, Option, none, some, true, ◌&&◌, List, [],
  ◌∷◌, ltb, arith, Bool-cases, Option-cases,
}
use predictify_contracts.Base.Int.{ℤ, pos, ltb_ℤ, leb_ℤ}
use predictify_contracts.Base.Lists.{length}
use predictify_contracts.Base.Words.{u32_max}
use predictify_contracts.Base.Host.{Env}
use predictify_contracts.Base.Action.{Result, ok, err, panic, is_ok, lift, bind-is_ok}
use predictify_contracts.Errors.{Error}
use predictify_contracts.Oracles.{
  OraclePriceData, price_data_of, reflector_price_data, reflector_price, reflector_asset,
  pyth_price, band_price,
}
use predictify_contracts.Resolution.{
  OracleQuote, MedianOracleConfig, fetch_quote, mark_outlier, mark_outliers, in_turn,
  count_included, no_quote, quote_of, confidence_to_weight, deviation_bps, simple_median,
  collect_included_sorted,
}
use predictify_contracts.Resolution.Weights.{AllWords}
use predictify_contracts.Resolution.Median.{MedianStore, judge, fetch_quotes}

-- as many as three quotes, each with a u32 for its weight
abbrev pub IsArray : List OracleQuote → Type 0
IsArray qs = (length qs ≤ 3) × AllWords qs

pub Result-cases : {A : Type 0} (r : Result Error A) → ((a : A) × (r ≡ ok a)) ⊎ (is_ok r ≢ true)
Result-cases (ok a) = inl (a, refl)
Result-cases (err e) = inr (λ h. cc)
Result-cases panic = inr (λ h. cc)

pub judge_ok :
    (config : MedianOracleConfig) (raw : List OracleQuote) (s : MedianStore)
    → is_ok (judge config raw s).0 ≡ true
    → (final : List OracleQuote) × (judge config raw s ≡ (ok final, s))
      × (mark_outliers config.max_deviation_bps (simple_median (collect_included_sorted raw)) raw
          ≡ some final)
      × (config.min_sources ≤ count_included final)
unfolding judge
judge_ok config raw s h =
    let baseline = collect_included_sorted raw in
    elim (Bool-cases (ltb (length baseline) config.min_sources)) [
      | inl e ↦ absurd (ground (arith, h, e))
      | inr e ↦
          elim (Option-cases
            (mark_outliers config.max_deviation_bps (simple_median baseline) raw)) [
              | inl f ↦ absurd (ground (arith, h, e, f))
              | inr (final, f) ↦ elim (Bool-cases (ltb (count_included final) config.min_sources)) [
                | inl g ↦ absurd (ground (arith, h, e, f, g))
                | inr g ↦ (final, rw (e, f, g) refl, f, ground arith)
              ]
            ]
    ]

-- A mark keeps the weight.
mark_outlier-weight :
    (limit : ℕ) (median : ℤ) (q q' : OracleQuote)
    → mark_outlier limit median q ≡ some q'
    → q'.weight_bps ≡ q.weight_bps
mark_outlier-weight limit median q q' h = elim (Bool-cases (q.included && ltb_ℤ (pos 0) median)) [
  | inr e ↦ ground (arith, h, e)
  | inl e ↦ elim (Option-cases (deviation_bps q.price median)) [
    | inl f ↦ absurd (ground (arith, h, e, f))
    | inr (d, f) ↦ elim (Bool-cases (ltb limit d)) [
      | inl g ↦ ground (arith, h, e, f, g)
      | inr g ↦ ground (arith, h, e, f, g)
    ]
  ]
]

pub in_turn-some :
    (a : Option OracleQuote) (b : Option (List OracleQuote)) (r : List OracleQuote)
    → in_turn a b ≡ some r
    → (q : OracleQuote) × (qs : List OracleQuote) × (a ≡ some q) × (b ≡ some qs) × (r ≡ q ∷ qs)
in_turn-some none b r h = absurd (ground arith)
in_turn-some (some q) none r h = absurd (ground arith)
in_turn-some (some q) (some qs) r h = (q, qs, refl, refl, ground arith)

pub mark_outliers-IsArray :
    (limit : ℕ) (median : ℤ) (qs final : List OracleQuote)
    → mark_outliers limit median qs ≡ some final
    → AllWords qs
    → (length final ≡ length qs) × AllWords final
unfolding mark_outliers
mark_outliers-IsArray limit median [] final h w =
    let e : final ≡ [] = ground (arith, h) in rw e (refl, tt)
mark_outliers-IsArray limit median (q ∷ qs) final h w =
    let (q', qs', e, f, g) =
      in_turn-some (mark_outlier limit median q) (mark_outliers limit median qs) final h in
    let (len, words) = mark_outliers-IsArray limit median qs qs' f w.1 in
    let same = mark_outlier-weight limit median q q' e in rw g (ap suc len, (omega arith, words))

quote_of-weight :
    (d : OraclePriceData) (q : OracleQuote)
    → d.confidence ≡ none
    → quote_of d ≡ ok q
    → q.weight_bps ≤ u32_max
unfolding confidence_to_weight
quote_of-weight d q n h = elim (Bool-cases (leb_ℤ d.price (pos 0))) [
  | inl e ↦ ground (arith, h, e)
  | inr e ↦ ground (arith, h, e, n)
]

abbrev weight_in : Result Error OracleQuote → ℕ
weight_in (ok q) = q.weight_bps
weight_in (err e) = 0
weight_in panic = 0

abbrev interval_in : Result Error OraclePriceData → Option ℤ
interval_in (ok d) = d.confidence
interval_in (err e) = none
interval_in panic = none

no_quote-weight :
    (q : OracleQuote)
    → ◌≡◌ {A = Result Error OracleQuote} (ok no_quote) (ok q)
    → q.weight_bps ≤ u32_max
no_quote-weight q h = let e : 0 ≡ q.weight_bps = ap weight_in h in omega arith

-- the answer of a source has no interval
Plain : Result Error OraclePriceData → Type 0
Plain r = (d : OraclePriceData) → r ≡ ok d → d.confidence ≡ none

fetched :
    (r : Result Error OraclePriceData) (q : OracleQuote)
    → Plain r
    → fetch_quote r ≡ ok q
    → q.weight_bps ≤ u32_max
unfolding Plain
fetched (ok d) q p h = elim (Bool-cases (ltb_ℤ (pos 0) d.price)) [
  | inl e ↦ quote_of-weight d q (p d refl) (rw e at h)
  | inr e ↦ no_quote-weight q (rw e at h)
]
fetched (err e) q p h = no_quote-weight q h
fetched panic q p h = absurd (ground arith)

price_data_of-Plain : (env : Env) (r : Result Error ℤ) → Plain (price_data_of env r)
unfolding Plain
price_data_of-Plain env (ok price) d h = sym (ap interval_in h)
price_data_of-Plain env (err e) d h = absurd (ground arith)
price_data_of-Plain env panic d h = absurd (ground arith)

reflector-Plain :
    (lastprice : String → Option (ℤ × ℕ)) (env : Env) (feed : String)
    → Plain (reflector_price_data lastprice env feed)
unfolding reflector_price_data Plain
reflector-Plain lastprice env feed d h = elim (Option-cases (lastprice (reflector_asset feed))) [
  | inl e ↦ price_data_of-Plain env (reflector_price feed) d (rw (e, reflector_price_data) at h)
  | inr (p, e) ↦ sym (ap interval_in (rw (e, reflector_price_data) at h))
]

module _ (len : String → ℕ) (lastprice : String → Option (ℤ × ℕ)) (rate : String → ℕ) where
  pub fetch_quotes_ok :
      (env : Env) (feed : String) (s : MedianStore)
      → is_ok (fetch_quotes len lastprice rate env feed s).0 ≡ true
      → (raw : List OracleQuote) × (fetch_quotes len lastprice rate env feed s ≡ (ok raw, s))
        × IsArray raw
        × (p : OracleQuote) × (q : OracleQuote) × (r : OracleQuote) × (fetch_quote
              (price_data_of env (pyth_price len [] feed))
            ≡ ok p)
        × (fetch_quote (reflector_price_data lastprice env feed) ≡ ok q)
        × (fetch_quote (price_data_of env (band_price rate feed)) ≡ ok r)
        × (raw ≡ p ∷ q ∷ r ∷ [])
  unfolding fetch_quotes
  fetch_quotes_ok env feed s h =
      let a = fetch_quote (price_data_of env (pyth_price len [] feed)) in
      let b = fetch_quote (reflector_price_data lastprice env feed) in
      let c = fetch_quote (price_data_of env (band_price rate feed)) in
      elim (Result-cases a) [
        | inr e ↦ absurd (e (bind-is_ok (lift a) _ s h))
        | inl (p, e) ↦ elim (Result-cases b) [
          | inr f ↦ absurd (f (bind-is_ok (lift b) _ s (rw e at h)))
          | inl (q, f) ↦ elim (Result-cases c) [
            | inr g ↦ absurd (g (bind-is_ok (lift c) _ s (rw f at (rw e at h))))
            | inl (r, g) ↦
                let fetched_a =
                  fetched (price_data_of env (pyth_price len [] feed)) p
                    (price_data_of-Plain env (pyth_price len [] feed)) e in
                let fetched_b =
                  fetched (reflector_price_data lastprice env feed) q
                    (reflector-Plain lastprice env feed) f in
                let fetched_c =
                  fetched (price_data_of env (band_price rate feed)) r
                    (price_data_of-Plain env (band_price rate feed)) g in
                (
                  p ∷ q ∷ r ∷ [],
                  rw (e, f, g) refl,
                  (omega arith, (fetched_a, (fetched_b, (fetched_c, tt)))),
                  p,
                  q,
                  r,
                  e,
                  f,
                  g,
                  refl,
                )
          ]
        ]
      ]
