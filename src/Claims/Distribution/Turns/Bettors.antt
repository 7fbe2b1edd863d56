-- ===== src/Claims/Distribution/Turns/Bettors.antt =====
-- The turns over the bettors of a distribution (contracts/predictify-hybrid/src/lib.rs,
-- `distribute_payouts`).
use predictify_contracts.Base.{
  ◌≡◌, refl, sym, ◌∙◌, subst, Option, none, some, Bool, true, false, List, if◌then◌else◌,
}
use predictify_contracts.Base.Int.{ℤ, pos, ltb_ℤ, checked_add}
use predictify_contracts.Base.Lists.{contains}
use predictify_contracts.Base.Maps.{Address, Symbol}
use predictify_contracts.Base.Host.{Env}
use predictify_contracts.Base.Action.{
  Action, Result, is_ok, pure, bind_ok, bind-is_ok, then_lem, ◌>>◌,
}
use predictify_contracts.Base.Steps.{moved, unchanged_ok, or_raise_ok}
use predictify_contracts.Errors.{Error, invalid_input}
use predictify_contracts.Balances.Exact.{IsKeyed}
use predictify_contracts.Markets.{Outcome}
use predictify_contracts.Bets.{Bet, mark_as, won, lost, is_active}
use predictify_contracts.Bets.Storage.{get_bet, store_bet}
use predictify_contracts.Claims.{
  ClaimStore, Summary, is_claimed, with_claim, credit, vault, payout_by,
}
use predictify_contracts.Claims.Steps.{payout_by-Reads, credit_ok}
use predictify_contracts.Claims.Gap.{pay-IsAccounted}
use predictify_contracts.Claims.Distribution.{
  Carried, on_house, pay_bettor, winning_turn, pay_bet, losing_turn, judge_bettor, bettor_turn,
}
use predictify_contracts.Claims.Distribution.Turns.{IsTurned, still, either}

module _ {L : Type 0} where
  pay_bet_ok :
      (env : Env) (user : Address) (b : Bet) (n : ℤ) (c : Carried) (s : ClaimStore L)
      → IsKeyed (vault s)
      → is_claimed (c.0.claimed user) ≡ false
      → is_ok (pay_bet env user b n c s).0 ≡ true
      → IsTurned s c (pay_bet env user b n c s)
  pay_bet_ok env user b n c s k o h =
      let credited = credit {L = L} user n in
      let mark : Action (ClaimStore L) Error (Unit {0}) = on_house (store_bet (mark_as won b)) in
      let last = λ (sum : ℤ). credited >> pure (with_claim env user n c.0, sum) in
      let (sum, e, e₁) = or_raise_ok (checked_add c.1 n) invalid_input (λ x. mark >> last x) s h in
      let s₁ = (mark s).1 in
      let e₂ = then_lem mark (last sum) s refl in
      let h₂ = moved (e₁ ∙ e₂) h in
      let (_, f, e₃) = bind_ok credited (λ _. pure (with_claim env user n c.0, sum)) s₁ h₂ in
      let (positive, adjusted) =
        credit_ok user n s₁ k
          (bind-is_ok credited (λ _. pure (with_claim env user n c.0, sum)) s₁ h₂) in
      subst (IsTurned s c) (sym (e₁ ∙ e₂ ∙ e₃)) (record {
        next = (with_claim env user n c.0, sum);
        value = refl;
        accounted =
            pay-IsAccounted env user n (vault s) (vault (credited s₁).1) c.0 o (record {
              amount = adjusted.amount;
              others = adjusted.others;
              keyed = adjusted.keyed;
            });
      })

  pay_bettor_ok :
      (env : Env) (fee : ℤ) (summary : Summary) (user : Address) (b : Bet) (c : Carried)
      (s : ClaimStore L)
      → IsKeyed (vault s)
      → is_claimed (c.0.claimed user) ≡ false
      → is_ok (pay_bettor env fee summary user b c s).0 ≡ true
      → IsTurned s c (pay_bettor env fee summary user b c s)
  unfolding pay_bettor
  pay_bettor_ok env fee summary user b c s k o h =
      let rest = λ (n : ℤ). if ltb_ℤ (pos 0) n then pay_bet env user b n c else pure c in
      let (n, _, e) =
        unchanged_ok (payout_by (pos 10000) fee b.amount summary) rest s
          (payout_by-Reads L (pos 10000) fee b.amount summary) h in
      subst (IsTurned s c) (sym e) (
        either (ltb_ℤ (pos 0) n) (pay_bet env user b n c) c s k
          (λ _ g. pay_bet_ok env user b n c s k o g) (moved e h))

  -- a bet that is only marked
  marked_ok :
      (b : Bet) (c : Carried) (s : ClaimStore L)
      → IsKeyed (vault s)
      → IsTurned s c ((on_house (store_bet b) >> pure c) s)
  marked_ok b c s k = record {
    next = c;
    value = refl;
    accounted = record { keyed = k; gaps = λ u. refl; kept = λ u h. refl };
  }

  winning_turn_ok :
      (env : Env) (fee : ℤ) (summary : Summary) (user : Address) (b : Bet) (c : Carried)
      (s : ClaimStore L)
      → IsKeyed (vault s)
      → is_ok (winning_turn env fee summary user b c s).0 ≡ true
      → IsTurned s c (winning_turn env fee summary user b c s)
  unfolding winning_turn
  winning_turn_ok env fee summary user b c s k h = go (is_claimed (c.0.claimed user)) refl h
    where
      paid : Action (ClaimStore L) Error Carried
      paid = if ltb_ℤ (pos 0) b.amount then pay_bettor env fee summary user b c else pure c

      marks : Action (ClaimStore L) Error Carried
      marks = on_house (store_bet (mark_as won b)) >> pure c

      go :
          (a : Bool)
          → is_claimed (c.0.claimed user) ≡ a
          → is_ok ((if a then marks else paid) s).0 ≡ true
          → IsTurned s c ((if a then marks else paid) s)
      go true e g = marked_ok (mark_as won b) c s k
      go false e g =
          either (ltb_ℤ (pos 0) b.amount) (pay_bettor env fee summary user b c) c s k
            (λ _ f. pay_bettor_ok env fee summary user b c s k e f) g

  judge_bettor_ok :
      (env : Env) (fee : ℤ) (summary : Summary) (winning : List Outcome) (user : Address)
      (c : Carried) (entry : Option Bet) (s : ClaimStore L)
      → IsKeyed (vault s)
      → is_ok (judge_bettor env fee summary winning user c entry s).0 ≡ true
      → IsTurned s c (judge_bettor env fee summary winning user c entry s)
  unfolding judge_bettor
  judge_bettor_ok env fee summary winning user c none s k h = still s c k
  judge_bettor_ok env fee summary winning user c (some b) s k h = go (contains winning b.outcome) h
    where
      act : Bool → Result Error Carried × ClaimStore L
      act a = (if a then winning_turn env fee summary user b c else losing_turn b c) s

      go : (a : Bool) → is_ok (act a).0 ≡ true → IsTurned s c (act a)
      go true g = winning_turn_ok env fee summary user b c s k g
      go false g =
          either (is_active b) (on_house (store_bet (mark_as lost b)) >> pure c) c s k
            (λ _ _. marked_ok (mark_as lost b) c s k) g

  pub bettor_turn_ok :
      (env : Env) (fee : ℤ) (summary : Summary) (id : Symbol) (winning : List Outcome)
      (user : Address) (c : Carried) (s : ClaimStore L)
      → IsKeyed (vault s)
      → is_ok (bettor_turn env fee summary id winning user c s).0 ≡ true
      → IsTurned s c (bettor_turn env fee summary id winning user c s)
  unfolding bettor_turn
  bettor_turn_ok env fee summary id winning user c s k h =
      judge_bettor_ok env fee summary winning user c (get_bet id user s.house) s k h
