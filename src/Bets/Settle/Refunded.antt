-- ===== src/Bets/Settle/Refunded.antt =====
-- The refunds of a cancelled market (contracts/predictify-hybrid/src/bets.rs,
-- `BetManager::refund_market_bets`).
use predictify_contracts.Base.{
  ◌≡◌, refl, ap, subst, ◌∙◌, Option, some, none, Bool, true, false, List, [], ◌∷◌, ◌||◌, ◌==◌, inl,
  inr, arith, Bool-cases, Option-cases, if◌then◌else◌,
}
use predictify_contracts.Base.Int.{ℤ}
use predictify_contracts.Base.Lists.{contains}
use predictify_contracts.Base.Maps.{Address, Symbol, update₂}
use predictify_contracts.Base.Action.{
  Action, Result, ok, is_ok, pure, then_lem, bind-is_ok, bind_lem, value_of, gets, ◌>>=◌, ◌>>◌,
}
use predictify_contracts.Errors.{Error}
use predictify_contracts.Markets.{Market}
use predictify_contracts.Markets.Cache.{get_market, update_market}
use predictify_contracts.Bets.{Bet, BetStore, is_active, mark_as, refunded, on_markets}
use predictify_contracts.Bets.Storage.{store_bet, unlock_funds, get_all_bets_for_market}
use predictify_contracts.Bets.Storage.Funds.{unlock_funds_ok}
use predictify_contracts.Bets.Place.{without_bet}
use predictify_contracts.Bets.Place.Sums.{to_path}
use predictify_contracts.Bets.Settle.{refund_active, refund_bet, refund_all, refund_market_bets}

-- the bet once its market is refunded
abbrev pub repaid : Option Bet → Option Bet
repaid none = none
repaid (some b) = some (if is_active b then mark_as refunded b else b)

module _ {L : Type 0} (transfer : Address → Address → Address → ℤ → L → Option L)
    (contract : Address) (id : Symbol) where
  abbrev pub IsKeyed : BetStore L → Type 0
  IsKeyed s = (u : Address) (b : Bet) → s.bets id u ≡ some b → (b.market_id ≡ id) × (b.user ≡ u)

  -- the rest of a refund once its funds are back
  abbrev repay : Bet → Market → Action (BetStore L) Error Market
  repay b m = store_bet (mark_as refunded b) >> pure (without_bet b.user b.amount m)

  repay_lem :
      (b : Bet) (m : Market) (p : BetStore L) (i : Symbol) (u : Address)
      → (repay b m p).1.bets i u ≡ update₂ p.bets b.market_id b.user (some (mark_as refunded b)) i u
  repay_lem b m p i u = ground arith

  -- what the refund of an active bet does to the bets
  refund_active-is_ok :
      (b : Bet) (m : Market) (s : BetStore L)
      → is_ok (refund_active transfer contract b m s).0 ≡ true
      → ((refund_active transfer contract b m s).0 ≡ ok (without_bet b.user b.amount m))
        × ((i : Symbol) (u : Address)
            → (refund_active transfer contract b m s).1.bets i u
              ≡ update₂ s.bets b.market_id b.user (some (mark_as refunded b)) i u)
  refund_active-is_ok b m s h =
      let unlock = unlock_funds transfer contract b.user b.amount in
      let l = bind-is_ok unlock (λ _. repay b m) s h in
      let next = then_lem unlock (repay b m) s l in
      let (_, frame) = unlock_funds_ok transfer contract b.user b.amount s l in
      let p = (unlock s).1 in
      (
        ap (λ (x : Result Error Market × BetStore L). x.0) next,
        λ i u.
            ap (λ (x : Result Error Market × BetStore L). x.1.bets i u) next
            ∙ repay_lem b m p i u
            ∙ ap
                (λ (x : BetStore L).
                  update₂ x.bets b.market_id b.user (some (mark_as refunded b)) i u)
                frame,
      )

  written :
      (b : Bet) (user u : Address) (s : BetStore L)
      → s.bets id user ≡ some b
      → b.market_id ≡ id
      → b.user ≡ user
      → is_active b ≡ true
      → update₂ s.bets b.market_id b.user (some (mark_as refunded b)) id u
        ≡ (if u == user then repaid (s.bets id u) else s.bets id u)
  written b user u s e f g a = elim (Bool-cases (u == user)) [
    | inl q ↦
        let here : s.bets id u ≡ some b = ap (s.bets id) (to_path u user q) ∙ e in
        ground (arith, e, f, g, a, q, here)
    | inr q ↦ ground (arith, e, f, g, q)
  ]

  untouched :
      (b : Bet) (user u : Address) (s : BetStore L)
      → s.bets id user ≡ some b
      → is_active b ≡ false
      → s.bets id u ≡ (if u == user then repaid (s.bets id u) else s.bets id u)
  untouched b user u s e a = elim (Bool-cases (u == user)) [
    | inl q ↦
        let here : s.bets id u ≡ some b = ap (s.bets id) (to_path u user q) ∙ e in
        rw (q, here, a) refl
    | inr q ↦ rw q refl
  ]

  -- what a turn does for a bet, by whether it is active
  abbrev chosen : Bet → Market → Bool → Action (BetStore L) Error Market
  chosen b m c = elim c [ true ↦ refund_active transfer contract b m | false ↦ pure m ]

  chosen_lem :
      (user : Address) (m : Market) (s : BetStore L) (b : Bet)
      → s.bets id user ≡ some b
      → refund_bet transfer contract id user m s ≡ chosen b m (is_active b) s
  chosen_lem user m s b e = rw e refl

  refund_some :
      (user : Address) (m : Market) (s : BetStore L) (b : Bet)
      → IsKeyed s
      → s.bets id user ≡ some b
      → is_ok (refund_bet transfer contract id user m s).0 ≡ true
      → (u : Address)
      → (refund_bet transfer contract id user m s).1.bets id u
        ≡ (if u == user then repaid (s.bets id u) else s.bets id u)
  refund_some user m s b k e h u = elim (Bool-cases (is_active b)) [
    | inl a ↦
        let same = chosen_lem user m s b e ∙ ap (λ c. chosen b m c s) a in
        let h' = subst (λ (x : Result Error Market × BetStore L). is_ok x.0 ≡ true) same h in
        let (_, r) = refund_active-is_ok b m s h' in
        let (f, g) = k user b e in
        ap (λ (x : Result Error Market × BetStore L). x.1.bets id u) same
        ∙ r id u
        ∙ written b user u s e f g a
    | inr a ↦
        let same = chosen_lem user m s b e ∙ ap (λ c. chosen b m c s) a in
        ap (λ (x : Result Error Market × BetStore L). x.1.bets id u) same ∙ untouched b user u s e a
  ]

  -- A turn that succeeds repays the bet of its user and leaves the others.
  turn :
      (user : Address) (m : Market) (s : BetStore L)
      → IsKeyed s
      → is_ok (refund_bet transfer contract id user m s).0 ≡ true
      → (u : Address)
      → (refund_bet transfer contract id user m s).1.bets id u
        ≡ (if u == user then repaid (s.bets id u) else s.bets id u)
  turn user m s k h u = elim (Option-cases (s.bets id user)) [
    | inl e ↦ elim (Bool-cases (u == user)) [
      | inl q ↦
          let here : s.bets id u ≡ none = ap (s.bets id) (to_path u user q) ∙ e in
          rw (e, q, here) refl
      | inr q ↦ rw (e, q) refl
    ]
    | inr (b, e) ↦ refund_some user m s b k e h u
  ]

  turn-IsKeyed :
      (user : Address) (m : Market) (s : BetStore L)
      → IsKeyed s
      → is_ok (refund_bet transfer contract id user m s).0 ≡ true
      → IsKeyed (refund_bet transfer contract id user m s).1
  turn-IsKeyed user m s k h u b e =
      let t = turn user m s k h u in
      elim (Option-cases (s.bets id u)) [
        | inl n ↦ absurd (ground (arith, t, n, e))
        | inr (c, n) ↦ ground (arith, t, n, e, k u c n)
      ]

  repaid_twice : (b : Option Bet) → repaid (repaid b) ≡ repaid b
  repaid_twice none = refl
  repaid_twice (some b) = elim (Bool-cases (is_active b)) [
    | inl a ↦ rw a refl
    | inr a ↦ rw a (rw a refl)
  ]

  repaid_either :
      (a b : Bool) (x y : Option Bet)
      → y ≡ (if a then repaid x else x)
      → (if b then repaid y else y) ≡ (if a || b then repaid x else x)
  repaid_either true true x y e = ap repaid e ∙ repaid_twice x
  repaid_either true false x y e = e
  repaid_either false true x y e = ap repaid e
  repaid_either false false x y e = e

  refund_all_lem :
      (users : List Address) (m : Market) (s : BetStore L)
      → IsKeyed s
      → is_ok (refund_all transfer contract id users m s).0 ≡ true
      → (u : Address)
      → (refund_all transfer contract id users m s).1.bets id u
        ≡ (if contains users u then repaid (s.bets id u) else s.bets id u)
  unfolding refund_all
  refund_all_lem [] m s k h u = refl
  refund_all_lem (user ∷ users) m s k h u =
      let turn_user = refund_bet transfer contract id user m in
      let go_on = refund_all transfer contract id users in
      let first = bind-is_ok turn_user go_on s h in
      let (m', v) = value_of (turn_user s).0 first in
      let next = bind_lem turn_user go_on s m' v in
      let h' = subst (λ (x : Result Error Market × BetStore L). is_ok x.0 ≡ true) next h in
      let s' = (turn_user s).1 in
      ap (λ (x : Result Error Market × BetStore L). x.1.bets id u) next
      ∙ refund_all_lem users m' s' (turn-IsKeyed user m s k first) h' u
      ∙ repaid_either (u == user) (contains users u) (s.bets id u) (s'.bets id u)
          (turn user m s k first u)

  -- Where every bet of a market is stored under its own market and user and refunding the market
  -- succeeds, the active bet of every user that its registry lists is marked refunded, and every
  -- other bet of the market is as it was.
  pub refund_market_bets_ok :
      (s : BetStore L)
      → IsKeyed s
      → is_ok (refund_market_bets transfer contract id s).0 ≡ true
      → (u : Address)
      → (refund_market_bets transfer contract id s).1.bets id u
        ≡ (if contains (get_all_bets_for_market id s) u then repaid (s.bets id u) else s.bets id u)
  unfolding refund_market_bets update_market
  refund_market_bets_ok s k h u =
      let read = on_markets (get_market id) in
      let users = get_all_bets_for_market id s in
      let end = λ (m : Market). on_markets (update_market id m) in
      let rest = λ (m : Market). refund_all transfer contract id users m >>= end in
      let first =
        bind-is_ok read
          (λ m.
            gets (get_all_bets_for_market id) >>= λ l. refund_all transfer contract id l m >>= end)
          s h in
      let (m, v) = value_of (read s).0 first in
      let s₁ = (read s).1 in
      let next =
        bind_lem read
          (λ m.
            gets (get_all_bets_for_market id) >>= λ l. refund_all transfer contract id l m >>= end)
          s m v in
      let h' = subst (λ (x : Result Error (Unit {0}) × BetStore L). is_ok x.0 ≡ true) next h in
      let second = bind-is_ok (refund_all transfer contract id users m) end s₁ h' in
      let (m', v') = value_of (refund_all transfer contract id users m s₁).0 second in
      let last = bind_lem (refund_all transfer contract id users m) end s₁ m' v' in
      ap (λ (x : Result Error (Unit {0}) × BetStore L). x.1.bets id u) (next ∙ last)
      ∙ refund_all_lem users m s₁ k second u
