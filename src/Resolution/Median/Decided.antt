-- ===== src/Resolution/Median/Decided.antt =====
-- What a resolution by the median that succeeds has found and written
-- (contracts/predictify-hybrid/src/resolution.rs, `resolve_with_median`).
use Prim.Native.String.{String}
use predictify_contracts.Base.{
  ℕ, ◌*◌, ◌≤◌, ◌<◌, ◌≡◌, refl, sym, ap, ◌∙◌, subst, inl, inr, Option, none, some, true, List, leb,
  arith, Bool-cases, Option-cases,
}
use predictify_contracts.Base.Int.{ℤ}
use predictify_contracts.Base.Maps.{Symbol, Map, update}
use predictify_contracts.Base.Words.{saturating_add_u64}
use predictify_contracts.Base.Host.{Env}
use predictify_contracts.Base.Action.{Result, ok, Action, is_ok, lift, bind_lem, bind-is_ok, ◌>>=◌}
use predictify_contracts.Errors.{Error}
use predictify_contracts.Markets.{Outcome, Market}
use predictify_contracts.Markets.Cache.{get_market, update_market}
use predictify_contracts.Markets.Cache.Reads.{found, get_market-is_ok}
use predictify_contracts.Resolution.{
  OracleQuote, MedianOracleConfig, mark_outliers, count_included, weighted_median, simple_median,
  collect_included_sorted,
}
use predictify_contracts.Resolution.Weights.{
  Offers, weight_where, cheaper, dearer, all_prices, weighted_median_lem,
}
use predictify_contracts.Resolution.Median.{
  MedianStore, MedianResolution, validate_market_for_oracle_resolution, determine_outcome,
  on_markets, aggregate_confidence, judge, conclude, fetch_quotes, resolve_read,
  resolve_with_median,
}
use predictify_contracts.Resolution.Median.Asked.{
  IsAsked, AllQuotes, Within, Answers, asked-Within, offered_answered,
}
use predictify_contracts.Resolution.Median.Fetched.{
  IsArray, judge_ok, mark_outliers-IsArray, fetch_quotes_ok, Result-cases,
}

module _ (text : String → Outcome) (id : Symbol) (m : Market) (final : List OracleQuote) where
  -- what the result says, and what is stored with it
  pub record IsConcluded (p p' : Map Market) (r : MedianResolution) : Type 0 where
    pub quotes : r.quotes ≡ final
    pub count : r.included_count ≡ count_included final
    pub median : weighted_median final ≡ ok r.weighted_median_price
    pub decided :
        determine_outcome text r.weighted_median_price m.oracle_config.threshold
          m.oracle_config.comparison
        ≡ ok r.outcome
    pub stored : p' ≡ update p id (some (record m { oracle_result = some r.outcome }))

module _ (text : String → Outcome) (env : Env) (id : Symbol) where
  conclude_ok :
      (m : Market) (final : List OracleQuote) (s : MedianStore)
      → is_ok (conclude text env id m final s).0 ≡ true
      → (r : MedianResolution) × ((conclude text env id m final s).0 ≡ ok r)
        × IsConcluded text id m final s.markets.persistent
            (conclude text env id m final s).1.markets.persistent
            r
        × ((conclude text env id m final s).1.median_config ≡ s.median_config)
  unfolding conclude update_market
  conclude_ok m final s h = elim (Result-cases (weighted_median final)) [
    | inr e ↦ absurd (e (bind-is_ok (lift (weighted_median final)) _ s h))
    | inl (p, e) ↦
        let decide =
          determine_outcome text p m.oracle_config.threshold m.oracle_config.comparison in
        elim (Result-cases decide) [
          | inr f ↦ absurd (f (bind-is_ok (lift decide) _ s (rw e at h)))
          | inl (o, f) ↦ (
            record {
              outcome = o;
              weighted_median_price = p;
              quotes = final;
              included_count = count_included final;
              confidence_score = aggregate_confidence (count_included final) final;
              timestamp = env.now;
            },
            rw (e, f) refl,
            record {
              quotes = refl;
              count = refl;
              median = e;
              decided = f;
              stored = rw (e, f) refl;
            },
            rw (e, f) refl,
          )
        ]
  ]

  module _ (len : String → ℕ) (lastprice : String → Option (ℤ × ℕ)) (rate : String → ℕ) where
    -- quotes that were fetched, with the marks by their median
    abbrev Sourced : MedianOracleConfig → String → List OracleQuote → Type 0
    Sourced config feed final =
        (raw : List OracleQuote) × IsAsked len lastprice rate env feed raw
        × (mark_outliers config.max_deviation_bps (simple_median (collect_included_sorted raw)) raw
            ≡ some final)

    -- what follows the checks
    abbrev pub tail : Market → MedianOracleConfig → Action MedianStore Error MedianResolution
    tail m config = do
      raw ← fetch_quotes len lastprice rate env m.oracle_config.feed_id
      final ← judge config raw
      conclude text env id m final

    tail_ok :
        (m : Market) (config : MedianOracleConfig) (s : MedianStore)
        → is_ok (tail m config s).0 ≡ true
        → (r : MedianResolution) × (final : List OracleQuote) × ((tail m config s).0 ≡ ok r)
          × IsArray final
          × Sourced config m.oracle_config.feed_id final
          × (config.min_sources ≤ count_included final)
          × IsConcluded text id m final s.markets.persistent
              (tail m config s).1.markets.persistent
              r
    tail_ok m config s h =
        let fetch = fetch_quotes len lastprice rate env m.oracle_config.feed_id in
        let (raw, e, array, a, b, c, ask_a, ask_b, ask_c, three) =
          fetch_quotes_ok len lastprice rate env m.oracle_config.feed_id s (
            bind-is_ok fetch (λ raw. judge config raw >>= λ final. conclude text env id m final) s
              h) in
        let first : tail m config s
            ≡ (judge config raw >>= λ final. conclude text env id m final) s =
          rw e refl in
        let h₁ =
          subst (λ (x : Result Error MedianResolution × MedianStore). is_ok x.0 ≡ true) first h in
        let (final, f, marks, enough) =
          judge_ok config raw s
            (bind-is_ok (judge config raw) (λ final. conclude text env id m final) s h₁) in
        let second : tail m config s ≡ conclude text env id m final s = first ∙ rw f refl in
        let h₂ =
          subst (λ (x : Result Error MedianResolution × MedianStore). is_ok x.0 ≡ true) second h in
        let (r, g, concluded, _) = conclude_ok m final s h₂ in
        let (same, words) =
          mark_outliers-IsArray config.max_deviation_bps
            (simple_median (collect_included_sorted raw)) raw final marks array.1 in
        (
          r,
          final,
          ap (λ (x : Result Error MedianResolution × MedianStore). x.0) second ∙ g,
          (omega (arith, same, array.0), words),
          (
            raw,
            record {
              pyth = a;
              reflector = b;
              band = c;
              of_pyth = ask_a;
              of_reflector = ask_b;
              of_band = ask_c;
              listed = three;
            },
            marks,
          ),
          enough,
          subst
              (λ (x : Result Error MedianResolution × MedianStore).
                IsConcluded text id m final s.markets.persistent x.1.markets.persistent r)
              (sym second) concluded,
        )

    ready :
        (m : Market)
        → is_ok (validate_market_for_oracle_resolution env m) ≡ true
        → (m.oracle_result ≡ none) × (m.end_time ≤ env.now)
    ready m h = elim (Option-cases m.oracle_result) [
      | inr (o, e) ↦ absurd (ground (arith, h, e))
      | inl e ↦ (e, ground (arith, h, e))
    ]

    -- What a resolution has found of the market, its configuration and its sources: the market is due
    -- and undecided, enough sources are left, the price is that of a source among them, and neither
    -- the cheaper nor the dearer ones have more than half of the weight.
    pub record IsDecided (m : Market) (config : Option MedianOracleConfig) (r : MedianResolution)
        : Type 0 where
      pub undecided : m.oracle_result ≡ none
      pub ended : m.end_time ≤ env.now
      pub in_time : env.now < saturating_add_u64 m.end_time m.resolution_timeout
      pub setting : MedianOracleConfig
      pub configured : config ≡ some setting
      pub raw : List OracleQuote
      pub asked : IsAsked len lastprice rate env m.oracle_config.feed_id raw
      pub within :
          AllQuotes
            (Within len lastprice rate env m.oracle_config.feed_id setting.max_deviation_bps
              (simple_median (collect_included_sorted raw)))
            r.quotes
      pub answered : Answers len lastprice rate env m.oracle_config.feed_id r.weighted_median_price
      pub sources : setting.min_sources ≤ count_included r.quotes
      pub offered : Offers r.weighted_median_price r.quotes
      pub outcome :
          determine_outcome text r.weighted_median_price m.oracle_config.threshold
            m.oracle_config.comparison
          ≡ ok r.outcome
      pub cheap :
          2 * weight_where (cheaper r.weighted_median_price) r.quotes
          ≤ weight_where all_prices r.quotes
      pub dear :
          2 * weight_where (dearer r.weighted_median_price) r.quotes
          ≤ weight_where all_prices r.quotes

    found_out :
        (m : Market) (config : MedianOracleConfig) (final : List OracleQuote) (s : MedianStore)
        (p' : Map Market) (r : MedianResolution)
        → is_ok (validate_market_for_oracle_resolution env m) ≡ true
        → env.now < saturating_add_u64 m.end_time m.resolution_timeout
        → s.median_config ≡ some config
        → IsArray final
        → Sourced config m.oracle_config.feed_id final
        → config.min_sources ≤ count_included final
        → IsConcluded text id m final s.markets.persistent p' r
        → IsDecided m s.median_config r
    found_out m config final s p' r valid before g array sourced enough c =
        let (undecided, over) = ready m valid in
        let same = sym c.quotes in
        let (raw, asked, marks) = sourced in
        let baseline = simple_median (collect_included_sorted raw) in
        let feed = m.oracle_config.feed_id in
        let limit = config.max_deviation_bps in
        let within =
          subst (AllQuotes (Within len lastprice rate env feed limit baseline)) same
            (asked-Within len lastprice rate env feed limit baseline raw final asked marks) in
        let array' = subst IsArray same array in
        let median =
          subst (λ (x : List OracleQuote). weighted_median x ≡ ok r.weighted_median_price) same
            c.median in
        let (offered, cheap, dear) =
          weighted_median_lem r.quotes r.weighted_median_price array'.0 array'.1 median in
        record {
          undecided = undecided;
          ended = over;
          in_time = before;
          setting = config;
          configured = g;
          raw = raw;
          asked = asked;
          within = within;
          answered =
              offered_answered len lastprice rate env feed limit baseline r.weighted_median_price
                r.quotes within offered;
          sources =
              subst (λ (x : List OracleQuote). config.min_sources ≤ count_included x) same enough;
          offered = offered;
          outcome = c.decided;
          cheap = cheap;
          dear = dear;
        }

    resolve_read_ok :
        (m : Market) (s : MedianStore)
        → is_ok (resolve_read text len lastprice rate env id m s).0 ≡ true
        → (r : MedianResolution) × ((resolve_read text len lastprice rate env id m s).0 ≡ ok r)
          × IsDecided m s.median_config r
          × ((resolve_read text len lastprice rate env id m s).1.markets.persistent
              ≡ update s.markets.persistent id (some (record m { oracle_result = some r.outcome })))
    unfolding resolve_read
    resolve_read_ok m s h =
        let late = leb (saturating_add_u64 m.end_time m.resolution_timeout) env.now in
        elim (Bool-cases late) [
          | inl e ↦ absurd (ground (arith, h, e))
          | inr e ↦ elim (Result-cases (validate_market_for_oracle_resolution env m)) [
            | inr f ↦ absurd (
                f (bind-is_ok (lift (validate_market_for_oracle_resolution env m)) _ s (rw e at h)))
            | inl (u, f) ↦ elim (Option-cases s.median_config) [
              | inl g ↦ absurd (ground (arith, h, e, f, g))
              | inr (config, g) ↦
                  let same : resolve_read text len lastprice rate env id m s ≡ tail m config s =
                    rw (e, f, g) refl in
                  let (r, final, ended, array, sourced, enough, concluded) = tail_ok m config s (
                    subst (λ (x : Result Error MedianResolution × MedianStore). is_ok x.0 ≡ true)
                      same h) in
                  (
                    r,
                    ap (λ (x : Result Error MedianResolution × MedianStore). x.0) same ∙ ended,
                    found_out m config final s (tail m config s).1.markets.persistent r (ap is_ok f)
                        (ground (arith, e)) g array sourced enough concluded,
                    ap (λ (x : Result Error MedianResolution × MedianStore). x.1.markets.persistent)
                          same
                        ∙ concluded.stored,
                  )
            ]
          ]
        ]

    pub resolve_with_median_ok :
        (s : MedianStore)
        → is_ok (resolve_with_median text len lastprice rate env id s).0 ≡ true
        → (m : Market) × (r : MedianResolution) × (found s.markets id ≡ some m)
          × ((resolve_with_median text len lastprice rate env id s).0 ≡ ok r)
          × IsDecided m s.median_config r
          × ((resolve_with_median text len lastprice rate env id s).1.markets.persistent
              ≡ update s.markets.persistent id (some (record m { oracle_result = some r.outcome })))
    unfolding resolve_with_median
    resolve_with_median_ok s h =
        let read : Action MedianStore Error Market = on_markets (get_market id) in
        let rest = resolve_read text len lastprice rate env id in
        let (m, where_found, value, kept) =
          get_market-is_ok id s.markets (bind-is_ok read rest s h) in
        let same = bind_lem read rest s m value in
        let (r, ended, decided, stored) =
          resolve_read_ok m (read s).1 (
            subst (λ (x : Result Error MedianResolution × MedianStore). is_ok x.0 ≡ true) same h) in
        (
          m,
          r,
          where_found,
          ap (λ (x : Result Error MedianResolution × MedianStore). x.0) same ∙ ended,
          decided,
          ap (λ (x : Result Error MedianResolution × MedianStore). x.1.markets.persistent) same
              ∙ stored
              ∙ ap
                  (λ (p : Map Market).
                    update p id (some (record m { oracle_result = some r.outcome })))
                  kept,
        )
