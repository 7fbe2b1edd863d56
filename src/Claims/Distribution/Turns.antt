-- ===== src/Claims/Distribution/Turns.antt =====
-- A turn of a distribution and its loops (contracts/predictify-hybrid/src/lib.rs,
-- `distribute_payouts`).
pub mod Voters
pub mod Bettors
use predictify_contracts.Base.{
  ℕ, ◌+◌, ◌%◌, ◌≡◌, refl, sym, ◌∙◌, subst, Option, none, some, Bool, true, false, ◌&&◌, List, [],
  ◌∷◌, ◌==◌, arith, if◌then◌else◌,
}
use predictify_contracts.Base.Int.{ℤ, pos, ltb_ℤ, leb_ℤ, checked_add}
use predictify_contracts.Base.Lists.{contains}
use predictify_contracts.Base.Maps.{Address, Symbol, get_or}
use predictify_contracts.Base.Host.{Env}
use predictify_contracts.Base.Action.{
  Action, Result, ok, is_ok, pure, raise_if, bind_ok, bind_lem, bind-is_ok, then_lem, ◌>>◌,
}
use predictify_contracts.Base.Steps.{moved, unchanged_ok, raise_if_ok, or_raise_ok}
use predictify_contracts.Errors.{Error, invalid_input, operation_would_exceed_budget}
use predictify_contracts.Balances.Exact.{IsKeyed}
use predictify_contracts.Markets.{Outcome}
use predictify_contracts.Bets.{Bet, mark_as, won, lost, is_active}
use predictify_contracts.Bets.Storage.{get_bet, store_bet}
use predictify_contracts.Claims.{
  ClaimStore, Summary, is_claimed, with_claim, credit, vault, payout_by,
}
use predictify_contracts.Claims.Steps.{payout_by-Reads, credit_ok}
use predictify_contracts.Claims.Gap.{
  IsAccounted, IsAccounted-refl, IsAccounted-trans, pay-IsAccounted, void-IsAccounted,
}
use predictify_contracts.Claims.Distribution.{
  Carried, none_claimed, on_house, pay_stake, voter_pay, pay_voter, voter_turn, pay_bettor,
  winning_turn, pay_bet, losing_turn, judge_bettor, bettor_turn, each,
}

module _ {L : Type 0} where
  -- a turn that ended with a value, from a store and what the loop carried into it
  pub record IsTurned (s : ClaimStore L) (c : Carried) (r : Result Error Carried × ClaimStore L)
      : Type 0 where
    pub next : Carried
    pub value : r.0 ≡ ok next
    pub accounted : IsAccounted (vault s) c.0 (vault r.1) next.0

  pub still : (s : ClaimStore L) (c : Carried) → IsKeyed (vault s) → IsTurned s c (ok c, s)
  still s c k = record { next = c; value = refl; accounted = IsAccounted-refl (vault s) c.0 k }

  -- a turn that does something or nothing
  pub either :
      (b : Bool) (act : Action (ClaimStore L) Error Carried) (c : Carried) (s : ClaimStore L)
      → IsKeyed (vault s)
      → (b ≡ true → is_ok (act s).0 ≡ true → IsTurned s c (act s))
      → is_ok ((if b then act else pure c) s).0 ≡ true
      → IsTurned s c ((if b then act else pure c) s)
  either true act c s k f h = f refl h
  either false act c s k f h = still s c k

  -- What every turn of a loop keeps, the loop keeps.
  pub each_ok :
      {X : Type 0} (turn : X → Carried → Action (ClaimStore L) Error Carried) (exceeded : ℕ → Bool)
      (n : ℕ) (xs : List X) (c : Carried) (s : ClaimStore L)
      → ((x : X) (d : Carried) (t : ClaimStore L)
          → IsKeyed (vault t)
          → is_ok (turn x d t).0 ≡ true
          → IsTurned t d (turn x d t))
      → IsKeyed (vault s)
      → is_ok (each turn exceeded n xs c s).0 ≡ true
      → IsTurned s c (each turn exceeded n xs c s)
  unfolding each
  each_ok turn exceeded n [] c s step k h = still s c k
  each_ok turn exceeded n (x ∷ xs) c s step k h =
      let look = (n + 1) % 10 == 0 && exceeded (n + 1) in
      let rest = λ (d : Carried).
        raise_if look operation_would_exceed_budget >> each turn exceeded (n + 1) xs d in
      let t = step x c s k (bind-is_ok (turn x c) rest s h) in
      let s₁ = (turn x c s).1 in
      let e₁ = bind_lem (turn x c) rest s t.next t.value in
      let (_, e₂) =
        raise_if_ok look operation_would_exceed_budget (each turn exceeded (n + 1) xs t.next) s₁
          (moved e₁ h) in
      let r =
        each_ok turn exceeded (n + 1) xs t.next s₁ step t.accounted.keyed (moved (e₁ ∙ e₂) h) in
      let last = each turn exceeded (n + 1) xs t.next s₁ in
      subst (IsTurned s c) (sym (e₁ ∙ e₂)) (record {
        next = r.next;
        value = r.value;
        accounted =
            IsAccounted-trans (vault s) c.0 (vault s₁) t.next.0 (vault last.1) r.next.0 t.accounted
              r.accounted;
      })
