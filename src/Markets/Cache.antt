-- ===== src/Markets/Cache.antt =====
-- Reading and writing markets through the instance cache
-- (contracts/predictify-hybrid/src/markets.rs, `MarketReadCache` and `MarketStateManager`).
pub mod Plain
pub mod Reads
use predictify_contracts.Base.{Option, none, some, Bool, true, false}
use predictify_contracts.Base.Maps.{Symbol, Map, update}
use predictify_contracts.Base.Action.{
  Action, Result, ok, err, panic, pure, raise, gets, modify, ◌>>=◌, ◌>>◌,
}
use predictify_contracts.Errors.{Error, market_not_found}
use predictify_contracts.Markets.{Market, closed, same_state, validate_state_transition}
use predictify_contracts.Markets.Updates.{unwrap}

-- the persistent entries under the markets' ids, and the instance entries `MarketCache`
pub record MarketStore : Type 0 where
  pub persistent : Map Market
  pub cached : Map Market

abbrev pub set : Symbol → Market → Action MarketStore Error (Unit {0})
set id m = modify (λ s. record s { cached = update s.cached id (some m) })

abbrev pub invalidate : Symbol → Action MarketStore Error (Unit {0})
invalidate id = modify (λ s. record s { cached = update s.cached id none })

unfoldable pub get_market : Symbol → Action MarketStore Error Market
get_market id = do
  hit ← gets (λ s. s.cached id)
  entry ← gets (λ s. s.persistent id)
  elim hit [
    | some m ↦ pure m
    | none ↦ elim entry [ some m ↦ set id m >> pure m | none ↦ raise market_not_found ]
  ]

unfoldable pub update_market : Symbol → Market → Action MarketStore Error (Unit {0})
update_market id m = do
  modify (λ s. record s { persistent = update s.persistent id (some m) })
  invalidate id

-- what `remove_market` does where the market was found
abbrev pub discard : Symbol → Market → Action MarketStore Error (Unit {0})
discard id m = do
  elim (same_state m.state closed) [
    | true ↦ pure tt
    | false ↦
        unwrap (validate_state_transition m.state closed)
        >> update_market id (record m { state = closed })
  ]
  modify (λ s. record s { persistent = update s.persistent id none })
  invalidate id

-- the result of the read decides; a market that is not found ends the call
abbrev pub when_found :
    Symbol → Result Error Market × MarketStore → Result Error (Unit {0}) × MarketStore
when_found id (ok m, s) = discard id m s
when_found id (err _, s) = (ok tt, s)
when_found id (panic, s) = (panic, s)

pub remove_market : Symbol → Action MarketStore Error (Unit {0})
unfolding get_market update_market
remove_market id s = when_found id (get_market id s)

-- A write that goes to the persistent entry alone, as the entry points in lib.rs make it.
abbrev pub direct_write : Symbol → Market → Action MarketStore Error (Unit {0})
direct_write id m = modify (λ s. record s { persistent = update s.persistent id (some m) })
