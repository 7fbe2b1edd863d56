-- ===== src/Claims/Distribution/Accounted.antt =====
-- A market's distribution, and claims and distributions in any order
-- (contracts/predictify-hybrid/src/lib.rs, `claim_winnings` and `distribute_payouts`).
use predictify_contracts.Base.{
  ℕ, ◌≡◌, sym, ap, ◌∙◌, subst, Option, some, Bool, true, false, ◌&&◌, ◌||◌, ◌==◌, arith, List,
}
use predictify_contracts.Base.Int.{ℤ, pos, pos_part, neg_part}
use predictify_contracts.Base.Maps.{Address, Symbol, Map, update, get_or}
use predictify_contracts.Base.Host.{Env}
use predictify_contracts.Base.Action.{
  Action, Result, is_ok, pure, raise_if, or_raise, bind-is_ok, bind_lem, then_lem, ◌>>=◌, ◌>>◌,
}
use predictify_contracts.Base.Steps.{moved, raise_if_ok, or_raise_ok, lift_ok}
use predictify_contracts.Errors.{
  Error, market_not_found, market_not_resolved, operation_would_exceed_budget,
}
use predictify_contracts.Breaker.Control.{require_write_allowed}
use predictify_contracts.Balances.Exact.{IsKeyed}
use predictify_contracts.Markets.{Outcome, Market}
use predictify_contracts.Bets.Storage.{get_all_bets_for_market}
use predictify_contracts.Claims.{ClaimStore, Summary, vault, on_breaker, load_market, save_market}
use predictify_contracts.Claims.Gap.{IsAccounted, IsAccounted-refl, IsAccounted-trans}
use predictify_contracts.Claims.Distribution.{
  Carried, any_voter, any_bettor, voter_turn, bettor_turn, each, pay_out, spread,
  distribute_payouts,
}
use predictify_contracts.Claims.Distribution.Turns.{each_ok}
use predictify_contracts.Claims.Distribution.Turns.Voters.{voter_turn_ok}
use predictify_contracts.Claims.Distribution.Turns.Bettors.{bettor_turn_ok}

pub own_entry : (ms : Map Market) (id : Symbol) (m : Market) → update ms id (some m) id ≡ some m
own_entry ms id m = ground arith

module _ {L : Type 0} (id : Symbol) where
  -- from a store with a market to a store with a market, balances and claims agreeing
  pub record IsSettled (s : ClaimStore L) (m : Market) (s' : ClaimStore L) : Type 0 where
    pub market : Market
    pub stored : s'.house.markets.persistent id ≡ some market
    pub accounted : IsAccounted (vault s) m (vault s') market

  module _ (require : Symbol → Market → ClaimStore L → Result Error Summary)
      (entries : Map Outcome → List (Address × Outcome)) (exceeded : ℕ → ℕ → Bool) (env : Env) where
    pay_out_ok :
        (fee : ℤ) (summary : Summary) (winning : List Outcome) (m : Market) (s : ClaimStore L)
        → IsKeyed (vault s)
        → is_ok (pay_out require entries exceeded env fee summary id winning m s).0 ≡ true
        → IsSettled s m (pay_out require entries exceeded env fee summary id winning m s).1
    unfolding pay_out
    pay_out_ok fee summary winning m s k h =
        let users = get_all_bets_for_market id s.house in
        let close = λ (c : Carried). save_market {L = L} id c.0 >> pure c.1 in
        let end =
          λ (c : Carried). raise_if (exceeded 2 0) operation_would_exceed_budget >> close c in
        let bettors = each {L = L} (bettor_turn env fee summary id winning) (exceeded 1) 0 users in
        let voters =
          each {L = L} (voter_turn env fee summary winning) (exceeded 0) 0 (entries m.votes) in
        let start : Carried = (m, pos 0) in
        let rest = λ (c : Carried). bettors c >>= end in
        let a =
          each_ok (voter_turn env fee summary winning) (exceeded 0) 0 (entries m.votes) start s
            (voter_turn_ok env fee summary winning) k (bind-is_ok (voters start) rest s h) in
        let s₁ = (voters start s).1 in
        let e₁ = bind_lem (voters start) rest s a.next a.value in
        let b =
          each_ok (bettor_turn env fee summary id winning) (exceeded 1) 0 users a.next s₁
            (bettor_turn_ok env fee summary id winning) a.accounted.keyed
            (bind-is_ok (bettors a.next) end s₁ (moved e₁ h)) in
        let s₂ = (bettors a.next s₁).1 in
        let e₂ = bind_lem (bettors a.next) end s₁ b.next b.value in
        let (_, e₃) =
          raise_if_ok (exceeded 2 0) operation_would_exceed_budget (close b.next) s₂
            (moved (e₁ ∙ e₂) h) in
        subst (λ (x : Result Error ℤ × ClaimStore L). IsSettled s m x.1) (sym (e₁ ∙ e₂ ∙ e₃))
          (record {
            market = b.next.0;
            stored = own_entry s₂.house.markets.persistent id b.next.0;
            accounted =
                IsAccounted-trans (vault s) m (vault s₁) a.next.0 (vault s₂) b.next.0 a.accounted
                  b.accounted;
          })

    spread_ok :
        (winning : List Outcome) (m : Market) (s : ClaimStore L)
        → IsKeyed (vault s)
        → s.house.markets.persistent id ≡ some m
        → is_ok (spread require entries exceeded env id winning m s).0 ≡ true
        → IsSettled s m (spread require entries exceeded env id winning m s).1
    unfolding spread
    spread_ok winning m s k stored h =
        go
          (any_voter winning m (entries m.votes)
            || any_bettor id winning m s (get_all_bets_for_market id s.house))
          h
      where
        same : IsSettled s m s
        same = record { market = m; stored = stored; accounted = IsAccounted-refl (vault s) m k }

        fee : ℤ
        fee = get_or s.platform_fee (pos 200)

        divided : Summary → Bool → Action (ClaimStore L) Error ℤ
        divided summary true = pure (pos 0)
        divided summary false = pay_out require entries exceeded env fee summary id winning m

        by_total : Summary → Action (ClaimStore L) Error ℤ
        by_total summary =
            divided summary
              (pos_part summary.winning_total == 0 && neg_part summary.winning_total == 0)

        divided_ok :
            (summary : Summary) (b : Bool)
            → is_ok (divided summary b s).0 ≡ true
            → IsSettled s m (divided summary b s).1
        divided_ok summary true g = same
        divided_ok summary false g = pay_out_ok fee summary winning m s k g

        to_pay : Bool → Action (ClaimStore L) Error ℤ
        to_pay false = pure (pos 0)
        to_pay true = (λ t. (require id m t, t)) >>= by_total

        go : (b : Bool) → is_ok (to_pay b s).0 ≡ true → IsSettled s m (to_pay b s).1
        go false g = same
        go true g =
            let (summary, _, e) = lift_ok (require id m s) by_total s g in
            subst (λ (x : Result Error ℤ × ClaimStore L). IsSettled s m x.1) (sym e)
              (divided_ok summary
                (pos_part summary.winning_total == 0 && neg_part summary.winning_total == 0)
                (moved e g))

    -- A distribution that succeeds, on a market that it finds.
    pub distribute_payouts_ok :
        (m : Market) (s : ClaimStore L)
        → IsKeyed (vault s)
        → s.house.markets.persistent id ≡ some m
        → is_ok (distribute_payouts require entries exceeded env id s).0 ≡ true
        → IsSettled s m (distribute_payouts require entries exceeded env id s).1
    unfolding distribute_payouts
    distribute_payouts_ok m s k stored h =
        let open_call = on_breaker {L = L} (require_write_allowed env "distribute_payouts") in
        let by_winning =
          λ (o : Market) (w : List Outcome). spread require entries exceeded env id w o in
        let by_market =
          λ (o : Market). or_raise o.winning_outcomes market_not_resolved >>= by_winning o in
        let entered = (open_call s).1 in
        let e₁ =
          then_lem open_call (load_market id >>= by_market) s
            (bind-is_ok open_call (λ _. load_market id >>= by_market) s h) in
        let (o, found, e₂) =
          or_raise_ok (s.house.markets.persistent id) market_not_found by_market entered
            (moved e₁ h) in
        let (winning, _, e₃) =
          or_raise_ok o.winning_outcomes market_not_resolved (by_winning o) entered
            (moved (e₁ ∙ e₂) h) in
        let same : o ≡ m = ap (λ (x : Option Market). get_or x m) (sym found ∙ stored) in
        let r = spread_ok winning o entered k found (moved (e₁ ∙ e₂ ∙ e₃) h) in
        let ended = (spread require entries exceeded env id winning o entered).1 in
        let a : IsAccounted (vault entered) m (vault ended) r.market =
          subst (λ (x : Market). IsAccounted (vault entered) x (vault ended) r.market) same
            r.accounted in
        subst (λ (x : Result Error ℤ × ClaimStore L). IsSettled s m x.1) (sym (e₁ ∙ e₂ ∙ e₃))
          (record {
            market = r.market;
            stored = r.stored;
            accounted = record { keyed = a.keyed; gaps = a.gaps; kept = a.kept };
          })
