-- ===== src/Resolution/Median/Unpublished.antt =====
-- A resolution where no source publishes a price (contracts/predictify-hybrid/src/resolution.rs,
-- `resolve_with_median`, on contracts/predictify-hybrid/src/oracles.rs).
use Prim.Native.String.{String}
use native.Mathlib.Nat.{mul-le-mul_right, le-add_left}
use predictify_contracts.Base.{
  ℕ, ◌+◌, ◌*◌, ◌≤◌, ◌<◌, ◌≡◌, refl, ap, ◌∙◌, inl, inr, Option, none, some, true, false, not, ◌&&◌,
  List, [], ◌∷◌, ◌==◌, ltb, leb, arith, Bool-cases,
}
use predictify_contracts.Base.Int.{ℤ, pos, ltb_ℤ, leb_ℤ}
use predictify_contracts.Base.Maps.{Symbol}
use predictify_contracts.Base.Words.{saturating_add_u64}
use predictify_contracts.Base.Host.{Env}
use predictify_contracts.Base.Action.{Action, Result, ok, err, is_ok, value_of, bind_lem}
use predictify_contracts.Errors.{Error}
use predictify_contracts.Markets.{Outcome, Market}
use predictify_contracts.Markets.Cache.{get_market, update_market}
use predictify_contracts.Oracles.{
  reflector_price, reflector_price_data, reflector_asset, band_price, pyth_price, named,
  price_data_of, plain_price,
}
use predictify_contracts.Resolution.{
  OracleQuote, MedianOracleConfig, no_quote, fetch_quote, confidence_to_weight,
  collect_included_sorted, simple_median, weighted_median, mark_outliers,
}
use predictify_contracts.Resolution.Outliers.{mark_outliers_lem, distance, exact_top}
use predictify_contracts.Resolution.Median.{
  MedianStore, MedianResolution, determine_outcome, on_markets, judge, conclude, fetch_quotes,
  resolve_read, resolve_with_median,
}
use predictify_contracts.Resolution.Median.Decided.{tail}

-- the quote of a price without an interval
abbrev plain_quote : ℕ → OracleQuote
plain_quote n = record { price = pos n; confidence_bps = 0; weight_bps = 5000; included = true }

abbrev alone : ℕ → List OracleQuote
alone n = no_quote ∷ plain_quote n ∷ no_quote ∷ []

-- The price that Reflector gives where its contract has none.
built_in_price :
    (feed : String) → (n : ℕ) × (reflector_price feed ≡ ok (pos n)) × (0 < n) × (n ≤ exact_top)
unfolding reflector_price
built_in_price feed = elim (Bool-cases (named feed "BTC" "BTC/USD")) [
  | inl e ↦ (2600000, rw e refl, omega arith, omega arith)
  | inr e ↦ elim (Bool-cases (named feed "ETH" "ETH/USD")) [
    | inl f ↦ (200000, rw (e, f) refl, omega arith, omega arith)
    | inr f ↦ elim (Bool-cases (named feed "XLM" "XLM/USD")) [
      | inl g ↦ (12, rw (e, f, g) refl, omega arith, omega arith)
      | inr g ↦ (2600000, rw (e, f, g) refl, omega arith, omega arith)
    ]
  ]
]

-- One quote alone stays included and is the median.
marks_alone :
    (limit n : ℕ) → 0 < n → n ≤ exact_top → mark_outliers limit (pos n) (alone n) ≡ some (alone n)
marks_alone limit n p h =
    let zero_apart : distance n n * 10000 ≡ 0 = ground arith in
    let positive : 0 < (limit + 1) * n = omega (arith, mul-le-mul_right n (le-add_left 1 limit)) in
    let near : ltb (distance n n * 10000) ((limit + 1) * n) ≡ true = ground arith in
    mark_outliers_lem limit n (alone n) p h (refl, omega arith, (refl, h, (refl, omega arith, tt)))
    ∙ rw near refl

judge-alone :
    (config : MedianOracleConfig) (n : ℕ) (s : MedianStore)
    → 0 < n
    → n ≤ exact_top
    → config.min_sources ≤ 1
    → judge config (alone n) s ≡ (ok (alone n), s)
unfolding judge collect_included_sorted simple_median
judge-alone config n s p h k =
    let marks = marks_alone config.max_deviation_bps n p h in
    let few : ltb 1 config.min_sources ≡ false = ground arith in rw (few, marks, few) refl

median_alone : (n : ℕ) → weighted_median (alone n) ≡ ok (pos n)
unfolding weighted_median
median_alone n = refl

module _ (text : String → Outcome) (len : String → ℕ) (lastprice : String → Option (ℤ × ℕ)) where
  module _ (rate : String → ℕ) (env : Env) (id : Symbol) where
    fetch_alone :
        (feed : String) (e : Error) (n : ℕ) (s : MedianStore)
        → lastprice (reflector_asset feed) ≡ none
        → band_price rate feed ≡ err e
        → reflector_price feed ≡ ok (pos n)
        → 0 < n
        → fetch_quotes len lastprice rate env feed s ≡ (ok (alone n), s)
    unfolding fetch_quotes reflector_price_data confidence_to_weight
    fetch_alone feed e n s a b c p =
        let priced : ltb_ℤ (pos 0) (pos n) ≡ true = ground arith in
        let some_price : leb_ℤ (pos n) (pos 0) ≡ false = ground arith in
        let pyth : fetch_quote (price_data_of env (pyth_price len [] feed)) ≡ ok no_quote =
          elim (Bool-cases (not (len feed == 0) && leb 8 (len feed))) [
            | inl v ↦ rw v refl
            | inr v ↦ rw v refl
          ] in
        let answer : reflector_price_data lastprice env feed ≡ ok (plain_price env (pos n)) =
          rw (a, reflector_price_data) (ap (price_data_of env) c) in
        let reflector : fetch_quote (reflector_price_data lastprice env feed) ≡ ok (plain_quote n) =
          ap fetch_quote answer ∙ ground arith in
        let band : fetch_quote (price_data_of env (band_price rate feed)) ≡ ok no_quote =
          ap (λ (x : Result Error ℤ). fetch_quote (price_data_of env x)) b in
        rw (pyth, reflector, band) refl

    -- Where neither Reflector's nor Band's contract has a price for the market's feed, one source
    -- is enough and the comparison is known, the resolution of an ended market by the median
    -- succeeds: the outcome is decided by the price that the code of Reflector's client has built
    -- in.
    pub unpublished_ok :
        (m : Market) (config : MedianOracleConfig) (e : Error) (s : MedianStore)
        → (get_market id s.markets).0 ≡ ok m
        → env.now < saturating_add_u64 m.end_time m.resolution_timeout
        → m.oracle_result ≡ none
        → m.end_time ≤ env.now
        → s.median_config ≡ some config
        → config.min_sources ≤ 1
        → lastprice (reflector_asset m.oracle_config.feed_id) ≡ none
        → band_price rate m.oracle_config.feed_id ≡ err e
        → ((n : ℕ)
            → is_ok (
                determine_outcome text (pos n) m.oracle_config.threshold m.oracle_config.comparison)
              ≡ true)
        → (n : ℕ) × (r : MedianResolution) × (reflector_price m.oracle_config.feed_id ≡ ok (pos n))
          × ((resolve_with_median text len lastprice rate env id s).0 ≡ ok r)
          × (r.weighted_median_price ≡ pos n)
          × (determine_outcome text (pos n) m.oracle_config.threshold m.oracle_config.comparison
              ≡ ok r.outcome)
    unfolding resolve_with_median resolve_read conclude update_market
    unpublished_ok m config e s found before undecided over set enough a b known =
        let (n, price, positive, small) = built_in_price m.oracle_config.feed_id in
        let (o, decided) =
          value_of
            (determine_outcome text (pos n) m.oracle_config.threshold m.oracle_config.comparison)
            (known n) in
        let read : Action MedianStore Error Market = on_markets (get_market id) in
        let same = bind_lem read (resolve_read text len lastprice rate env id) s m found in
        let in_time : leb (saturating_add_u64 m.end_time m.resolution_timeout) env.now ≡ false =
          ground arith in
        let due : ltb env.now m.end_time ≡ false = ground arith in
        let checked : resolve_read text len lastprice rate env id m (read s).1
            ≡ tail text env id len lastprice rate m config (read s).1 =
          rw (in_time, undecided, due, set) refl in
        let quotes = fetch_alone m.oracle_config.feed_id e n (read s).1 a b price positive in
        let kept = judge-alone config n (read s).1 positive small enough in
        (
          n,
          record {
            outcome = o;
            weighted_median_price = pos n;
            quotes = alone n;
            included_count = 1;
            confidence_score = 65;
            timestamp = env.now;
          },
          price,
          ap (λ (x : Result Error MedianResolution × MedianStore). x.0) same
              ∙ ap (λ (x : Result Error MedianResolution × MedianStore). x.0) checked
              ∙ rw (quotes, kept, median_alone n, decided) refl,
          refl,
          decided,
        )
