-- ===== src/Markets/Cache/Plain.antt =====
-- The cached markets against plain ones (contracts/predictify-hybrid/src/markets.rs).
use mathlib.Core.Path.{fun_ext}
use predictify_contracts.Base.{
  ◌≡◌, refl, Option, none, some, ◌||◌, List, [], ◌∷◌, arith, inl, inr, Option-cases, if◌then◌else◌,
  ap, ap₂, ◌∙◌,
}
use predictify_contracts.Base.Maps.{Symbol, Map, update}
use predictify_contracts.Base.Action.{
  Action, Result, ok, panic, pure, or_raise, commit, commit_keeps, ◌>>=◌, ◌>>◌,
}
use predictify_contracts.Errors.{Error, market_not_found}
use predictify_contracts.Markets.{Market, closed, same_state, transition_allowed}
use predictify_contracts.Markets.Cache.{
  MarketStore, get_market, update_market, remove_market, direct_write,
}

-- What a client asks for.
pub data Request : Type 0 where
  read : Symbol → Request
  write : Symbol → Market → Request
  discard : Symbol → Request

-- The answer of the contract, and the store after it.
abbrev pub answer : Request → MarketStore → Result Error (Option Market) × MarketStore
answer (Request.read id) = do m ← get_market id; pure (some m)
answer (Request.write id m) = update_market id m >> pure none
answer (Request.discard id) = remove_market id >> pure none

-- The same requests on markets that are stored without a cache.
abbrev pub gone : Option Market → Symbol → Action (Map Market) Error (Option Market)
gone none id p = (ok none, p)
gone (some m) id p =
    if same_state m.state closed || transition_allowed m.state closed
    then (ok none, update p id none)
    else (panic, p)

abbrev pub plain : Request → Map Market → Result Error (Option Market) × Map Market
plain (Request.read id) p = (do m ← or_raise (p id) market_not_found; pure (some m)) p
plain (Request.write id m) p = (ok none, update p id (some m))
plain (Request.discard id) p = gone (p id) id p

-- A cached market is the stored one.
abbrev pub IsFresh : MarketStore → Type 0
IsFresh s = (id : Symbol) (m : Market) → s.cached id ≡ some m → s.persistent id ≡ some m

-- One request gets the same answer and has the same effect on each market.
abbrev Same : Request → MarketStore → Type 0
Same q s =
    ((answer q s).0 ≡ (plain q s.persistent).0)
    × ((id : Symbol) → (answer q s).1.persistent id ≡ (plain q s.persistent).1 id)
    × IsFresh (answer q s).1

one : (q : Request) (s : MarketStore) → IsFresh s → Same q s
unfolding get_market update_market remove_market
one (Request.read id) s f = elim (Option-cases (s.cached id)) [
  | inl e ↦ (ground arith, λ j. ground arith, λ j m g. ground (arith, f j m))
  | inr (n, e) ↦
      let old = f id n e in
      (ground (arith, old), λ j. ground (arith, old), λ j m g. ground (arith, f j m))
]
one (Request.write id n) s f = (refl, λ j. refl, λ j m g. ground (arith, f j m))
one (Request.discard id) s f = elim (Option-cases (s.cached id)) [
  | inl e ↦ (ground arith, λ j. ground arith, λ j m g. ground (arith, f j m))
  | inr (n, e) ↦
      let old = f id n e in
      (ground (arith, old), λ j. ground (arith, old), λ j m g. ground (arith, f j m))
]

-- All the answers, request after request, each a whole invocation.
abbrev pub answers : List Request → MarketStore → List (Result Error (Option Market))
answers [] s = []
answers (q ∷ qs) s = let (r, s') = commit (answer q) s in r ∷ answers qs s'

abbrev pub plain_answers : List Request → Map Market → List (Result Error (Option Market))
plain_answers [] p = []
plain_answers (q ∷ qs) p = let (r, p') = commit (plain q) p in r ∷ plain_answers qs p'

committed :
    (q : Request) (s : MarketStore)
    → IsFresh s
    → ((commit (answer q) s).0 ≡ (commit (plain q) s.persistent).0)
      × ((id : Symbol)
          → (commit (answer q) s).1.persistent id ≡ (commit (plain q) s.persistent).1 id)
      × IsFresh (commit (answer q) s).1
committed q s f =
    let (same, store, fresh) = one q s f in
    (
      ground (arith, same),
      λ j. ground (arith, same, store j),
      commit_keeps IsFresh (answer q) s f (λ h. fresh),
    )

-- Where no cached market differs from the stored one, any sequence of reads, updates and removals
-- of markets through the instance cache gets exactly the answers that markets stored without a
-- cache would give.
pub answers_refine :
    (qs : List Request) (s : MarketStore) → IsFresh s → answers qs s ≡ plain_answers qs s.persistent
answers_refine [] s f = refl
answers_refine (q ∷ qs) s f =
    let (same, store, fresh) = committed q s f in
    ap₂ ◌∷◌ same
      (answers_refine qs (commit (answer q) s).1 fresh ∙ ap (plain_answers qs) (fun_ext store))

-- A write past the cache is.
pub direct_write_stale :
    (id : Symbol) (old new : Market) (s : MarketStore)
    → s.persistent id ≡ some old
    → s.cached id ≡ none
    → (do get_market id; direct_write id new; get_market id) s ≡ (
      ok old,
      record {
        persistent = update s.persistent id (some new);
        cached = update s.cached id (some old);
      },
    )
unfolding get_market
direct_write_stale id old new s e c = ground arith
