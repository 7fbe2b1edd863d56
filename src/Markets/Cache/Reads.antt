-- ===== src/Markets/Cache/Reads.antt =====
-- A read of a market that succeeds (contracts/predictify-hybrid/src/markets.rs,
-- `MarketStateManager::get_market`).
use predictify_contracts.Base.{◌≡◌, inl, inr, Option, some, none, true, arith, Option-cases}
use predictify_contracts.Base.Maps.{Symbol}
use predictify_contracts.Base.Action.{ok, is_ok}
use predictify_contracts.Markets.{Market}
use predictify_contracts.Markets.Cache.{MarketStore, get_market}

-- what a read of a market answers with
abbrev pub found : MarketStore → Symbol → Option Market
found s id = elim (s.cached id) [ some m ↦ some m | none ↦ s.persistent id ]

pub get_market-is_ok :
    (id : Symbol) (s : MarketStore)
    → is_ok (get_market id s).0 ≡ true
    → (m : Market) × (found s id ≡ some m)
      × ((get_market id s).0 ≡ ok m)
      × ((get_market id s).1.persistent ≡ s.persistent)
unfolding get_market
get_market-is_ok id s h = elim (Option-cases (s.cached id)) [
  | inl e ↦ elim (Option-cases (s.persistent id)) [
    | inl f ↦ absurd (ground arith)
    | inr (m, f) ↦ (m, ground arith, ground arith, ground arith)
  ]
  | inr (m, e) ↦ (m, ground arith, ground arith, ground arith)
]
