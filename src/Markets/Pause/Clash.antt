-- ===== src/Markets/Pause/Clash.antt =====
-- What the shared storage key means for a pause (contracts/predictify-hybrid/src/markets.rs,
-- `MarketPauseManager`).
use predictify_contracts.Base.{ℕ, ◌≡◌, Option, none, some, Bool, true, false, arith}
use predictify_contracts.Base.Maps.{Address, Symbol}
use predictify_contracts.Base.Host.{Env}
use predictify_contracts.Base.Action.{is_ok}
use predictify_contracts.Markets.{Market}
use predictify_contracts.Markets.Pause.{
  Entry, market, pause, PauseStore, is_market_paused, pause_market,
}

abbrev pub holds_market : Option Entry → Bool
holds_market none = false
holds_market (some (market m)) = true
holds_market (some (pause p)) = false

-- Where a pause of a stored market succeeds, an entry of the wrong type counts as absent, and
-- afterwards the market's key no longer holds the market.
pub pause_market_clash :
    (strict : Bool) (env : Env) (admin : Address) (id : Symbol) (hours : ℕ) (m : Market)
    (s : PauseStore)
    → s.entry id ≡ some (market m)
    → is_ok (pause_market strict env admin id hours s).0 ≡ true
    → (strict ≡ false)
      × (holds_market ((pause_market strict env admin id hours s).1.entry id) ≡ false)
unfolding pause_market is_market_paused
pause_market_clash strict env admin id hours m s e h = (ground arith, ground arith)
