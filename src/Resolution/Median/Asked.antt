-- ===== src/Resolution/Median/Asked.antt =====
-- Where the quotes of a resolution by the median come from
-- (contracts/predictify-hybrid/src/resolution.rs, `resolve_with_median`).
use Prim.Native.String.{String}
use predictify_contracts.Base.{
  ℕ, ◌≤◌, ◌≡◌, ◌≢◌, ◌⊎◌, refl, sym, ap, ◌∙◌, subst, inl, inr, Option, none, some, true, ◌&&◌, List,
  [], ◌∷◌, ltb, arith, Bool-cases, Option-cases,
}
use predictify_contracts.Base.Int.{ℤ, pos, ltb_ℤ}
use predictify_contracts.Base.Host.{Env}
use predictify_contracts.Base.Action.{Result, ok, err, panic}
use predictify_contracts.Errors.{Error}
use predictify_contracts.Oracles.{
  OraclePriceData, price_data_of, reflector_price_data, pyth_price, band_price, validate_feed_id,
}
use predictify_contracts.Resolution.{
  OracleQuote, fetch_quote, mark_outlier, mark_outliers, no_quote, quote_of, confidence_to_weight,
  deviation_bps,
}
use predictify_contracts.Resolution.Median.Fetched.{in_turn-some}
use predictify_contracts.Resolution.Weights.{Offers}

abbrev pub AllQuotes : (OracleQuote → Type 0) → List OracleQuote → Type 0
AllQuotes P [] = Unit
AllQuotes P (q ∷ qs) = P q × AllQuotes P qs

offered :
    (P : OracleQuote → Type 0) (Q : ℤ → Type 0) (p : ℤ) (qs : List OracleQuote)
    → ((q : OracleQuote) → P q → q.included ≡ true → Q q.price)
    → AllQuotes P qs
    → Offers p qs
    → Q p
offered P Q p [] f a o = absurd o
offered P Q p (q ∷ qs) f a (inl (e, g)) = subst Q g (f q a.0 e)
offered P Q p (q ∷ qs) f a (inr o) = offered P Q p qs f a.1 o

-- what a mark that leaves a quote included says of it
marked_included :
    (limit : ℕ) (median : ℤ) (q q' : OracleQuote)
    → mark_outlier limit median q ≡ some q'
    → q'.included ≡ true
    → (q.included ≡ true)
      × (q'.price ≡ q.price)
      × (ltb_ℤ (pos 0) median ≡ true
          → (d : ℕ) × (deviation_bps q'.price median ≡ some d) × (d ≤ limit))
marked_included limit median q q' h i = elim (Bool-cases (q.included && ltb_ℤ (pos 0) median)) [
  | inr e ↦
      let same : q ≡ q' = kept q q' (rw e at h) in
      let here : q.included ≡ true = ap (λ (x : OracleQuote). x.included) same ∙ i in
      (here, sym (ap (λ (x : OracleQuote). x.price) same), λ p. absurd (ground (arith, e, here, p)))
  | inl e ↦ elim (Option-cases (deviation_bps q.price median)) [
    | inl f ↦ absurd (ground (arith, h, e, f))
    | inr (d, f) ↦ elim (Bool-cases (ltb limit d)) [
      | inl g ↦ absurd (ground (arith, h, e, f, g, i))
      | inr g ↦
          let same : q ≡ q' = kept q q' (rw g at (rw f at (rw e at h))) in
          let price = ap (λ (x : OracleQuote). x.price) same in
          (
            ground (arith, e),
            sym price,
            λ p. (d, ap (λ (x : ℤ). deviation_bps x median) (sym price) ∙ f, ground (arith, g)),
          )
    ]
  ]
]
  where
    kept : (a b : OracleQuote) → ◌≡◌ {A = Option OracleQuote} (some a) (some b) → a ≡ b
    kept a b e = ap (λ (o : Option OracleQuote). elim o [ none ↦ a | some x ↦ x ]) e

abbrev get_list : List OracleQuote → Option (List OracleQuote) → List OracleQuote
get_list l none = l
get_list l (some x) = x

abbrev quote_in : OracleQuote → Result Error OracleQuote → OracleQuote
quote_in q (ok x) = x
quote_in q _ = q

excluded :
    (q : OracleQuote) → ◌≡◌ {A = Result Error OracleQuote} (ok no_quote) (ok q) → q.included ≢ true
excluded q h i =
    let e : no_quote.included ≡ q.included =
      ap (λ (x : Result Error OracleQuote). (quote_in q x).included) h in
    absurd (ground (arith, e, i))

quoted : (d : OraclePriceData) (q : OracleQuote) → quote_of d ≡ ok q → d.price ≡ q.price
unfolding confidence_to_weight
quoted d q h = elim (Option-cases (confidence_to_weight d.price d.confidence)) [
  | inl e ↦ absurd (ground (arith, h, e))
  | inr (w, e) ↦ ap (λ (x : Result Error OracleQuote). (quote_in q x).price) (sym (made w e) ∙ h)
]
  where
    made :
        (w : ℕ × ℕ)
        → confidence_to_weight d.price d.confidence ≡ some w
        → quote_of d
          ≡ ok (record { price = d.price; confidence_bps = w.0; weight_bps = w.1; included = true })
    made w e = rw (quote_of, e) refl

abbrev price_in : ℤ → Result Error OraclePriceData → ℤ
price_in p (ok d) = d.price
price_in p _ = p

answered :
    (env : Env) (r : Result Error ℤ) (d : OraclePriceData)
    → price_data_of env r ≡ ok d
    → r ≡ ok d.price
answered env (ok p) d h = ap (λ (x : Result Error OraclePriceData). ok (price_in p x)) h
answered env (err e) d h = absurd (ground (arith, h))
answered env panic d h = absurd (ground (arith, h))

module _ (len : String → ℕ) (lastprice : String → Option (ℤ × ℕ)) (rate : String → ℕ) (env : Env)
    (feed : String) where
  -- a price that Reflector's or Band's client answers
  abbrev pub Answers : ℤ → Type 0
  Answers p =
      ((d : OraclePriceData) × (reflector_price_data lastprice env feed ≡ ok d) × (d.price ≡ p))
      ⊎ (band_price rate feed ≡ ok p)

  -- the quotes of the three clients, as they are fetched
  pub record IsAsked (raw : List OracleQuote) : Type 0 where
    pub pyth : OracleQuote
    pub reflector : OracleQuote
    pub band : OracleQuote
    pub of_pyth : fetch_quote (price_data_of env (pyth_price len [] feed)) ≡ ok pyth
    pub of_reflector : fetch_quote (reflector_price_data lastprice env feed) ≡ ok reflector
    pub of_band : fetch_quote (price_data_of env (band_price rate feed)) ≡ ok band
    pub listed : raw ≡ pyth ∷ reflector ∷ band ∷ []

  -- a quote that counts has a price that was answered
  abbrev Given : OracleQuote → Type 0
  Given q = q.included ≡ true → Answers q.price

  Given-plain :
      (r : Result Error OraclePriceData) (q : OracleQuote)
      → ((d : OraclePriceData) → r ≡ ok d → Answers d.price)
      → fetch_quote r ≡ ok q
      → Given q
  unfolding confidence_to_weight
  Given-plain (err e) q f h i = absurd (excluded q h i)
  Given-plain panic q f h i = absurd (ground (arith, h))
  Given-plain (ok d) q f h i = elim (Bool-cases (ltb_ℤ (pos 0) d.price)) [
    | inr e ↦ absurd (excluded q (rw e at h) i)
    | inl e ↦ subst Answers (quoted d q (rw e at h)) (f d refl)
  ]

  pyth_silent :
      (d : OraclePriceData) → price_data_of env (pyth_price len [] feed) ≡ ok d → Answers d.price
  pyth_silent d h = elim (Bool-cases (validate_feed_id len feed)) [
    | inl e ↦ absurd (ground (arith, h, e))
    | inr e ↦ absurd (ground (arith, h, e))
  ]

  band-Answers :
      (d : OraclePriceData) → price_data_of env (band_price rate feed) ≡ ok d → Answers d.price
  band-Answers d h = inr (answered env (band_price rate feed) d h)

  asked-Given : (raw : List OracleQuote) → IsAsked raw → AllQuotes Given raw
  asked-Given raw a = subst (AllQuotes Given) (sym a.listed) (
    Given-plain (price_data_of env (pyth_price len [] feed)) a.pyth pyth_silent a.of_pyth,
    (
      Given-plain (reflector_price_data lastprice env feed) a.reflector (λ d e. inl (d, e, refl))
          a.of_reflector,
      (Given-plain (price_data_of env (band_price rate feed)) a.band band-Answers a.of_band, tt),
    ),
  )

  -- a quote that counts after the marks, by the limit and the baseline
  abbrev pub Within : ℕ → ℤ → OracleQuote → Type 0
  Within limit median q =
      q.included ≡ true
      → Answers q.price
        × (ltb_ℤ (pos 0) median ≡ true
            → (d : ℕ) × (deviation_bps q.price median ≡ some d) × (d ≤ limit))

  marks-Within :
      (limit : ℕ) (median : ℤ) (raw final : List OracleQuote)
      → AllQuotes Given raw
      → mark_outliers limit median raw ≡ some final
      → AllQuotes (Within limit median) final
  unfolding mark_outliers
  marks-Within limit median [] final a h =
      subst (AllQuotes (Within limit median)) (ap (get_list []) h) tt
  marks-Within limit median (q ∷ qs) final a h =
      let (q', qs', e, f, g) =
        in_turn-some (mark_outlier limit median q) (mark_outliers limit median qs) final h in
      subst (AllQuotes (Within limit median)) (sym g) (
        (λ i.
            let (j, price, within) = marked_included limit median q q' e i in
            (subst Answers (sym price) (a.0 j), within)),
        marks-Within limit median qs qs' a.1 f,
      )

  pub asked-Within :
      (limit : ℕ) (median : ℤ) (raw final : List OracleQuote)
      → IsAsked raw
      → mark_outliers limit median raw ≡ some final
      → AllQuotes (Within limit median) final
  asked-Within limit median raw final a h =
      marks-Within limit median raw final (asked-Given raw a) h

  -- The price of a quote that counts was answered.
  pub offered_answered :
      (limit : ℕ) (median p : ℤ) (qs : List OracleQuote)
      → AllQuotes (Within limit median) qs
      → Offers p qs
      → Answers p
  offered_answered limit median p qs a o =
      offered (Within limit median) Answers p qs (λ q w i. (w i).0) a o
