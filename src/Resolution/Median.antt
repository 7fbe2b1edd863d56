-- ===== src/Resolution/Median.antt =====
-- `resolve_with_median` (contracts/predictify-hybrid/src/resolution.rs) over the three sources, which
-- the call asks one after the other. Events are left out. A text is compared only, and `text` gives
-- the number that stands for it.
pub mod Fetched
pub mod Asked
pub mod Decided
pub mod Unpublished
mod Tests
use Prim.Native.String.{String}
use predictify_contracts.Base.{
  ℕ, suc, ◌+◌, ◌*◌, ◌/◌, Option, none, some, Bool, true, false, List, [], ◌∷◌, ◌==◌, ltb, leb,
  if◌then◌else◌,
}
use predictify_contracts.Base.Int.{ℤ}
use predictify_contracts.Base.Lists.{length}
use predictify_contracts.Base.Maps.{Symbol, has}
use predictify_contracts.Base.Words.{saturating_add_u64}
use predictify_contracts.Base.Host.{Env}
use predictify_contracts.Base.Action.{
  Action, Result, ok, err, panic, pure, lift, raise_if, gets, or_raise, or_abort, modify, zoom,
  ◌>>=◌, ◌>>◌,
}
use predictify_contracts.Errors.{
  Error, resolution_timeout_reached, market_resolved, market_closed, config_not_found,
  oracle_no_consensus,
}
use predictify_contracts.Markets.{Outcome, Market}
use predictify_contracts.Markets.Cache.{MarketStore, get_market, update_market}
use predictify_contracts.Oracles.{
  compare_prices, pyth_price, price_data_of, reflector_price_data, band_price,
}
use predictify_contracts.Resolution.{
  OracleQuote, MedianOracleConfig, fetch_quote, collect_included_sorted, simple_median,
  weighted_median, mark_outliers, count_included, at_most,
}

-- the markets' entries and "med_cfg"
pub record MedianStore : Type 0 where
  pub markets : MarketStore
  pub median_config : Option MedianOracleConfig

abbrev pub on_markets : {A : Type 0} → Action MarketStore Error A → Action MedianStore Error A
on_markets = zoom (λ s. s.markets) (λ m s. record s { markets = m })

abbrev pub set_median_config : MedianOracleConfig → Action MedianStore Error (Unit {0})
set_median_config c = modify (λ s. record s { median_config = some c })

abbrev pub get_median_config : Action MedianStore Error MedianOracleConfig
get_median_config = do c ← gets (λ s. s.median_config); or_raise c config_not_found

pub record MedianResolution : Type 0 where
  pub outcome : Outcome
  pub weighted_median_price : ℤ
  pub quotes : List OracleQuote
  pub included_count : ℕ
  pub confidence_score : ℕ
  pub timestamp : ℕ

-- `OracleResolutionValidator::validate_market_for_oracle_resolution`
abbrev pub validate_market_for_oracle_resolution : Env → Market → Result Error (Unit {0})
validate_market_for_oracle_resolution env m =
    if has m.oracle_result
    then err market_resolved
    else (if ltb env.now m.end_time then err market_closed else ok tt)

abbrev pub weights_sum : List OracleQuote → ℕ
weights_sum [] = 0
weights_sum (q ∷ qs) = (if q.included then q.weight_bps else 0) + weights_sum qs

abbrev pub base_confidence : ℕ → ℕ
base_confidence n = if n == 0 then 0 else (if n == 1 then 60 else (if n == 2 then 75 else 90))

abbrev pub aggregate_confidence : ℕ → List OracleQuote → ℕ
aggregate_confidence n qs =
    let count = count_included qs in
    at_most 100
      (base_confidence n + (if count == 0 then 0 else at_most 10 (weights_sum qs / count / 1000)))

-- the quotes after the outliers were marked
pub judge : MedianOracleConfig → List OracleQuote → Action MedianStore Error (List OracleQuote)
judge config raw = do
  let baseline = collect_included_sorted raw
  raise_if (ltb (length baseline) config.min_sources) oracle_no_consensus
  final ← or_abort (mark_outliers config.max_deviation_bps (simple_median baseline) raw)
  raise_if (ltb (count_included final) config.min_sources) oracle_no_consensus
  pure final

module _ (len : String → ℕ) (lastprice : String → Option (ℤ × ℕ)) (rate : String → ℕ) where
  -- `PythOracle::new` knows no feed
  pub fetch_quotes : Env → String → Action MedianStore Error (List OracleQuote)
  fetch_quotes env feed = do
    pyth ← lift (fetch_quote (price_data_of env (pyth_price len [] feed)))
    reflector ← lift (fetch_quote (reflector_price_data lastprice env feed))
    band ← lift (fetch_quote (price_data_of env (band_price rate feed)))
    pure (pyth ∷ reflector ∷ band ∷ [])

module _ (text : String → Outcome) where
  -- `OracleUtils::determine_outcome`
  abbrev pub determine_outcome : ℤ → ℤ → String → Result Error Outcome
  determine_outcome price threshold comparison = elim (compare_prices price threshold comparison) [
    | ok met ↦ ok (if met then text "yes" else text "no")
    | err e ↦ err e
    | panic ↦ panic
  ]

  -- what the call does with a market and its quotes
  pub conclude :
      Env → Symbol → Market → List OracleQuote → Action MedianStore Error MedianResolution
  conclude env id m final = do
    median ← lift (weighted_median final)
    outcome ← lift (determine_outcome median m.oracle_config.threshold m.oracle_config.comparison)
    on_markets (update_market id (record m { oracle_result = some outcome }))
    pure (record {
      outcome = outcome;
      weighted_median_price = median;
      quotes = final;
      included_count = count_included final;
      confidence_score = aggregate_confidence (count_included final) final;
      timestamp = env.now;
    })

  module _ (len : String → ℕ) (lastprice : String → Option (ℤ × ℕ)) (rate : String → ℕ) where
    -- what follows the read of the market
    pub resolve_read : Env → Symbol → Market → Action MedianStore Error MedianResolution
    unfolding fetch_quotes judge conclude
    resolve_read env id m = do
      raise_if (leb (saturating_add_u64 m.end_time m.resolution_timeout) env.now)
          resolution_timeout_reached
      lift (validate_market_for_oracle_resolution env m)
      config ← get_median_config
      raw ← fetch_quotes len lastprice rate env m.oracle_config.feed_id
      final ← judge config raw
      conclude env id m final

    pub resolve_with_median : Env → Symbol → Action MedianStore Error MedianResolution
    unfolding resolve_read
    resolve_with_median env id = do m ← on_markets (get_market id); resolve_read env id m
