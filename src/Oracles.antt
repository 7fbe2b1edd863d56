-- ===== src/Oracles.antt =====
-- The price sources of a resolution (contracts/predictify-hybrid/src/oracles.rs). The contracts of
-- Reflector and of Band are not part of the repository: what they answer is a parameter.
use Prim.Native.String.{String}
use text.Mathlib.Text.{◌==◌ as str_eq}
use predictify_contracts.Base.{
  ℕ, ◌-◌, Option, none, some, Bool, false, not, ◌&&◌, ◌||◌, List, [], ◌∷◌, ◌==◌, leb, if◌then◌else◌,
}
use predictify_contracts.Base.Int.{ℤ, pos, negsuc, ltb_ℤ, i128_max}
use predictify_contracts.Base.Host.{Env}
use predictify_contracts.Base.Action.{Result, ok, err, panic}
use predictify_contracts.Base.Words.{u128_max}
use predictify_contracts.Errors.{
  Error, invalid_oracle_config, oracle_unavailable, invalid_comparison,
}

pub record OraclePriceData : Type 0 where
  pub price : ℤ
  pub publish_time : ℕ
  pub confidence : Option ℤ

-- an answer without a confidence interval, at the ledger's time
abbrev pub plain_price : Env → ℤ → OraclePriceData
plain_price env price = record { price = price; publish_time = env.now; confidence = none }

-- the default `get_price_data` of `OracleInterface`, on what `get_price` answers
abbrev pub price_data_of : Env → Result Error ℤ → Result Error OraclePriceData
price_data_of env (ok price) = ok (plain_price env price)
price_data_of env (err e) = err e
price_data_of env panic = panic

-- of `PythFeedConfig`
pub record PythFeed : Type 0 where
  pub feed_id : String
  pub is_active : Bool

-- `get_feed_config` and `is_feed_active`: the first feed of that name decides
abbrev pub is_feed_active : List PythFeed → String → Bool
is_feed_active [] feed = false
is_feed_active (f ∷ fs) feed = if str_eq f.feed_id feed then f.is_active else is_feed_active fs feed

-- the bytes of a feed's name are counted by the host
module _ (len : String → ℕ) where
  abbrev pub is_blank : String → Bool
  is_blank feed = len feed == 0

  abbrev pub validate_feed_id : String → Bool
  validate_feed_id feed = not (is_blank feed) && leb 8 (len feed)

  -- Pyth's `get_price`
  abbrev pub pyth_price : List PythFeed → String → Result Error ℤ
  pyth_price feeds feed =
      if not (validate_feed_id feed)
      then err invalid_oracle_config
      else (if not (is_feed_active feeds feed)
          then err invalid_oracle_config
          else err oracle_unavailable)

-- one of the two names of a feed
abbrev pub named : String → String → String → Bool
named feed a b = str_eq feed a || str_eq feed b

-- Reflector's `parse_feed_id`, which takes every name that it does not know for BTC
unfoldable pub reflector_asset : String → String
reflector_asset feed =
    if named feed "BTC/USD" "BTC"
    then "BTC"
    else (if named feed "ETH/USD" "ETH"
        then "ETH"
        else (if named feed "XLM/USD" "XLM"
            then "XLM"
            else (if named feed "USDC/USD" "USDC" then "USDC" else "BTC")))

-- `get_reflector_price`, that is `get_mock_price_for_testing`
unfoldable pub reflector_price : String → Result Error ℤ
reflector_price feed =
    if named feed "BTC" "BTC/USD"
    then ok (pos 2600000)
    else (if named feed "ETH" "ETH/USD"
        then ok (pos 200000)
        else (if named feed "XLM" "XLM/USD" then ok (pos 12) else ok (pos 2600000)))

-- Reflector's `get_price_data`; `lastprice` is its contract's, a price and a time
unfoldable pub reflector_price_data :
    (String → Option (ℤ × ℕ)) → Env → String → Result Error OraclePriceData
unfolding reflector_price reflector_asset
reflector_price_data lastprice env feed = elim (lastprice (reflector_asset feed)) [
  | some (price, time) ↦ ok (record { price = price; publish_time = time; confidence = none })
  | none ↦ price_data_of env (reflector_price feed)
]

-- Band's `parse_feed_id`, by the first symbol of the pair; the second is USD
abbrev pub band_pair : String → Option String
band_pair feed =
    if named feed "BTC/USD" "BTC"
    then some "BTC"
    else (if named feed "ETH/USD" "ETH"
        then some "ETH"
        else (if named feed "XLM/USD" "XLM"
            then some "XLM"
            else (if named feed "USDC/USD" "USDC" then some "USDC" else none)))

-- `as i128` of a u128
abbrev pub as_i128 : ℕ → ℤ
as_i128 n = if leb n i128_max then pos n else negsuc (u128_max - n)

-- `get_band_price`; `rate` is what Band's contract gives for a pair, 0 where it gives nothing
unfoldable pub band_price : (String → ℕ) → String → Result Error ℤ
band_price rate feed = elim (band_pair feed) [
  | some base ↦ if rate base == 0 then err oracle_unavailable else ok (as_i128 (rate base))
  | none ↦ err invalid_oracle_config
]

-- `OracleUtils::compare_prices`
abbrev pub compare_prices : ℤ → ℤ → String → Result Error Bool
compare_prices price threshold comparison =
    if str_eq comparison "gt"
    then ok (ltb_ℤ threshold price)
    else (if str_eq comparison "lt"
        then ok (ltb_ℤ price threshold)
        else (if str_eq comparison "eq"
            then ok (not (ltb_ℤ threshold price) && not (ltb_ℤ price threshold))
            else err invalid_comparison))
