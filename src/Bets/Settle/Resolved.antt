-- ===== src/Bets/Settle/Resolved.antt =====
-- The statuses that a resolution leaves (contracts/predictify-hybrid/src/bets.rs,
-- `BetManager::resolve_market_bets`).
use predictify_contracts.Base.{
  ◌≡◌, refl, ap, ◌∙◌, Option, some, none, Bool, true, false, List, [], ◌∷◌, ◌||◌, ◌==◌, inl, inr,
  arith, Bool-cases, Option-cases, if◌then◌else◌,
}
use predictify_contracts.Base.Lists.{contains}
use predictify_contracts.Base.Maps.{Address, Symbol}
use predictify_contracts.Base.Action.{Result, is_ok, then_lem}
use predictify_contracts.Errors.{Error}
use predictify_contracts.Bets.Place.Sums.{to_path}
use predictify_contracts.Markets.{Outcome}
use predictify_contracts.Bets.{Bet, BetStore, won, lost}
use predictify_contracts.Bets.Storage.{get_all_bets_for_market}
use predictify_contracts.Bets.Settle.{resolve_bet, resolve_all, resolve_market_bets}

-- the bet once the market is resolved
abbrev pub judged : List Outcome → Option Bet → Option Bet
judged winning none = none
judged winning (some b) =
    some (record b { status = if contains winning b.outcome then won else lost })

judged_twice :
    (winning : List Outcome) (b : Option Bet) → judged winning (judged winning b) ≡ judged winning b
judged_twice winning none = refl
judged_twice winning (some b) = refl

judged_either :
    (winning : List Outcome) (a b : Bool) (x y : Option Bet)
    → y ≡ (if a then judged winning x else x)
    → (if b then judged winning y else y) ≡ (if a || b then judged winning x else x)
judged_either winning true true x y e = ap (judged winning) e ∙ judged_twice winning x
judged_either winning true false x y e = e
judged_either winning false true x y e = ap (judged winning) e
judged_either winning false false x y e = e

module _ {L : Type 0} (id : Symbol) (winning : List Outcome) where
  -- every bet is stored under its market and user
  abbrev pub IsKeyed : BetStore L → Type 0
  IsKeyed s = (u : Address) (b : Bet) → s.bets id u ≡ some b → (b.market_id ≡ id) × (b.user ≡ u)

  turn_ok : (user : Address) (s : BetStore L) → is_ok (resolve_bet id winning user s).0 ≡ true
  turn_ok user s = elim (Option-cases (s.bets id user)) [
    | inl e ↦ rw e refl
    | inr (b, e) ↦ rw e refl
  ]

  -- A turn judges the bet of its user and leaves the others.
  turn :
      (user : Address) (s : BetStore L) (u : Address)
      → IsKeyed s
      → (resolve_bet id winning user s).1.bets id u
        ≡ (if u == user then judged winning (s.bets id u) else s.bets id u)
  turn user s u k = elim (Option-cases (s.bets id user)) [
    | inl e ↦ elim (Bool-cases (u == user)) [
      | inl q ↦
          let none_here : s.bets id u ≡ none = ap (s.bets id) (to_path u user q) ∙ e in
          rw (e, q, none_here) refl
      | inr q ↦ rw (e, q) refl
    ]
    | inr (b, e) ↦
        let (f, g) = k user b e in
        elim (Bool-cases (u == user)) [
          | inl q ↦
              let here : s.bets id u ≡ some b = ap (s.bets id) (to_path u user q) ∙ e in
              ground (arith, e, f, g, q, here)
          | inr q ↦ ground (arith, e, f, g, q)
        ]
  ]

  turn-IsKeyed :
      (user : Address) (s : BetStore L) → IsKeyed s → IsKeyed (resolve_bet id winning user s).1
  turn-IsKeyed user s k u b e =
      let t = turn user s u k in
      elim (Option-cases (s.bets id u)) [
        | inl n ↦ absurd (ground (arith, t, n, e))
        | inr (c, n) ↦ ground (arith, t, n, e, k u c n)
      ]

  resolve_all_lem :
      (users : List Address) (s : BetStore L) (u : Address)
      → IsKeyed s
      → (resolve_all id winning users s).1.bets id u
        ≡ (if contains users u then judged winning (s.bets id u) else s.bets id u)
  unfolding resolve_all
  resolve_all_lem [] s u k = refl
  resolve_all_lem (user ∷ users) s u k =
      let s₁ = (resolve_bet id winning user s).1 in
      let next =
        then_lem (resolve_bet id winning user) (resolve_all id winning users) s (turn_ok user s) in
      let t = turn user s u k in
      let r = resolve_all_lem users s₁ u (turn-IsKeyed user s k) in
      ap (λ (x : Result Error (Unit {0}) × BetStore L). x.1.bets id u) next
      ∙ r
      ∙ judged_either winning (u == user) (contains users u) (s.bets id u) (s₁.bets id u) t

  -- Where every bet of a market is stored under its own market and user, resolving its bets marks
  -- the bet of every listed user won or lost by the winning outcomes, whatever its status was, and
  -- leaves the market's other bets.
  pub resolve_market_bets_lem :
      (s : BetStore L) (u : Address)
      → IsKeyed s
      → (resolve_market_bets id winning s).1.bets id u ≡ (
          if contains (get_all_bets_for_market id s) u
          then judged winning (s.bets id u)
          else s.bets id u)
  unfolding resolve_market_bets
  resolve_market_bets_lem s u k = resolve_all_lem (get_all_bets_for_market id s) s u k
