-- ===== src/Resolution/Median/Tests.antt =====
-- Resolutions by the median on small inputs (contracts/predictify-hybrid/src/resolution.rs).
use Prim.Native.String.{String}
use text.Mathlib.Text.{◌==◌ as str_eq}
use predictify_contracts.Base.{
  ℕ, ◌≤◌, ◌*◌, ◌≡◌, refl, Option, none, some, true, false, List, [], ◌∷◌, map, if◌then◌else◌, arith,
}
use predictify_contracts.Base.Int.{ℤ, pos, ◌-ℤ◌, ◌+ℤ◌}
use predictify_contracts.Base.Maps.{empty, update}
use predictify_contracts.Base.Host.{Env}
use predictify_contracts.Base.Action.{ok, err, is_ok}
use predictify_contracts.Errors.{invalid_oracle_config}
use predictify_contracts.Markets.{Market, Outcome, ended}
use predictify_contracts.Markets.Cache.{get_market, update_market}
use predictify_contracts.Markets.Cache.Reads.{found}
use predictify_contracts.Oracles.{
  reflector_asset, reflector_price, reflector_price_data, band_price,
}
use predictify_contracts.Resolution.{
  OracleQuote, weighted_median, mark_outliers, confidence_to_weight, collect_included_sorted,
  simple_median,
}
use predictify_contracts.Resolution.Weights.{
  Offers, weight_where, cheaper, dearer, all_prices, weighted_median_lem,
}
use predictify_contracts.Resolution.Outliers.{wide_median, mark_outliers_lem, marked}
use predictify_contracts.Resolution.Median.{
  MedianStore, MedianResolution, resolve_with_median, fetch_quotes, judge, conclude, resolve_read,
  determine_outcome,
}
use predictify_contracts.Resolution.Median.Decided.{IsDecided, resolve_with_median_ok}
use predictify_contracts.Resolution.Median.Unpublished.{unpublished_ok}

abbrev quote : ℕ → ℕ → OracleQuote
quote n w = record { price = pos n; confidence_bps = 0; weight_bps = w; included = true }

-- the dearest of three is the median where it has most of the weight
abbrev quotes : List OracleQuote
quotes = quote 103 9000 ∷ quote 100 5000 ∷ quote 101 3000 ∷ []

weighted_median_lem_example :
    Offers (pos 103) quotes
    × (2 * weight_where (cheaper (pos 103)) quotes ≤ weight_where all_prices quotes)
    × (2 * weight_where (dearer (pos 103)) quotes ≤ weight_where all_prices quotes)
unfolding weighted_median
weighted_median_lem_example = weighted_median_lem quotes (pos 103) (omega arith) (omega arith) refl

-- a price in units of 10 ^ 18, and one that is a thousand times as high
abbrev wide_quotes : List OracleQuote
wide_quotes = quote 1000000000000000000 5000 ∷ quote 1000000000000000000000 5000 ∷ []

wide_median_example : mark_outliers 200 (pos 1000000000000000000) wide_quotes ≡ some wide_quotes
wide_median_example =
    wide_median 200 1000000000000000000 wide_quotes (omega arith) (omega arith) (omega arith)

mark_outliers_lem_example : mark_outliers 200 (pos 100) quotes ≡ some (map (marked 200 100) quotes)
mark_outliers_lem_example =
    mark_outliers_lem 200 100 quotes (omega arith) (omega arith)
      (refl, omega arith, (refl, omega arith, (refl, omega arith, tt)))

abbrev at_2000 : Env
at_2000 = record { now = 2000; authorized = λ a. true }

abbrev over : Market
over = record {
  admin = 1;
  question = "?";
  outcomes = 5 ∷ 6 ∷ [];
  end_time = 1000;
  oracle_config = record { feed_id = "BTC"; threshold = pos 100; comparison = "gt" };
  has_fallback = false;
  resolution_timeout = 5000;
  oracle_result = none;
  votes = empty;
  stakes = empty;
  claimed = empty;
  total_staked = pos 0;
  dispute_stakes = [];
  winning_outcomes = none;
  fee_collected = false;
  state = ended;
  total_extension_days = 0;
  max_extension_days = 30;
  category = none;
  tags = [];
  min_pool_size = none;
  bet_deadline = 0;
  dispute_window_seconds = 60;
  winnings_swept = false;
}

-- the market of the feed 7
abbrev about : String → Market
about feed = record over {
  oracle_config = record { feed_id = feed; threshold = pos 100; comparison = "gt" };
}

abbrev stored : Market → ℕ → MedianStore
stored m sources = record {
  markets = record { persistent = update empty 7 (some m); cached = empty };
  median_config = some (record { max_deviation_bps = 200; min_sources = sources });
}

abbrev outcome_of : String → Outcome
outcome_of t = if str_eq t "yes" then 5 else 6

abbrev len : String → ℕ
len t = 3

abbrev published : String → Option (ℤ × ℕ)
published asset = some (pos 101, 1990)

abbrev unpublished : String → Option (ℤ × ℕ)
unpublished asset = none

abbrev rate : String → ℕ
rate base = 102

accepted :
    is_ok (resolve_with_median outcome_of len published rate at_2000 7 (stored over 2)).0 ≡ true
unfolding resolve_with_median resolve_read fetch_quotes judge conclude get_market update_market
    reflector_price_data reflector_asset band_price confidence_to_weight collect_included_sorted
    simple_median mark_outliers weighted_median ◌-ℤ◌ ◌+ℤ◌
accepted = refl

resolve_with_median_ok_example :
    (m : Market) × (r : MedianResolution) × (found (stored over 2).markets 7 ≡ some m)
    × ((resolve_with_median outcome_of len published rate at_2000 7 (stored over 2)).0 ≡ ok r)
    × IsDecided outcome_of at_2000 7 len published rate m (stored over 2).median_config r
    × ((resolve_with_median outcome_of len published rate at_2000 7
          (stored over 2)).1.markets.persistent
        ≡ update
            (stored over 2).markets.persistent
            7
            (some (record m { oracle_result = some r.outcome })))
resolve_with_median_ok_example =
    resolve_with_median_ok outcome_of at_2000 7 len published rate (stored over 2) accepted

-- a token that the code of Reflector's client takes for BTC
read_doge : (get_market 7 (stored (about "DOGE") 1).markets).0 ≡ ok (about "DOGE")
unfolding get_market
read_doge = refl

no_pair : band_price rate "DOGE" ≡ err invalid_oracle_config
unfolding band_price
no_pair = refl

unpublished_ok_example :
    (n : ℕ) × (r : MedianResolution) × (reflector_price "DOGE" ≡ ok (pos n))
    × ((resolve_with_median outcome_of len unpublished rate at_2000 7 (stored (about "DOGE") 1)).0
        ≡ ok r)
    × (r.weighted_median_price ≡ pos n)
    × (determine_outcome outcome_of (pos n) (pos 100) "gt" ≡ ok r.outcome)
unpublished_ok_example =
    unpublished_ok outcome_of len unpublished rate at_2000 7 (about "DOGE")
      (record { max_deviation_bps = 200; min_sources = 1 }) invalid_oracle_config
      (stored (about "DOGE") 1) read_doge (omega arith) refl (omega arith) refl (omega arith) refl
      no_pair (λ n. refl)
