-- ===== src/Claims/Distribution/Turns/Voters.antt =====
-- The turns over the voters of a distribution (contracts/predictify-hybrid/src/lib.rs,
-- `distribute_payouts`).
use predictify_contracts.Base.{
  ◌≡◌, refl, sym, ◌∙◌, subst, Bool, true, false, ◌&&◌, List, arith, if◌then◌else◌,
}
use predictify_contracts.Base.Int.{ℤ, pos, ltb_ℤ, leb_ℤ, checked_add}
use predictify_contracts.Base.Lists.{contains}
use predictify_contracts.Base.Maps.{Address, get_or}
use predictify_contracts.Base.Host.{Env}
use predictify_contracts.Base.Action.{Result, is_ok, pure, bind_ok, bind-is_ok, ◌>>◌}
use predictify_contracts.Base.Steps.{moved, unchanged_ok, or_raise_ok}
use predictify_contracts.Errors.{Error, invalid_input}
use predictify_contracts.Balances.Exact.{IsKeyed}
use predictify_contracts.Markets.{Outcome}
use predictify_contracts.Claims.{
  ClaimStore, Summary, is_claimed, with_claim, credit, vault, payout_by,
}
use predictify_contracts.Claims.Steps.{payout_by-Reads, credit_ok}
use predictify_contracts.Claims.Gap.{IsAccounted, pay-IsAccounted, void-IsAccounted}
use predictify_contracts.Claims.Distribution.{
  Carried, none_claimed, pay_stake, voter_pay, pay_voter, voter_turn,
}
use predictify_contracts.Claims.Distribution.Turns.{IsTurned, still, either}

module _ {L : Type 0} where
  pay_stake_ok :
      (env : Env) (user : Address) (n : ℤ) (c : Carried) (s : ClaimStore L)
      → IsKeyed (vault s)
      → is_claimed (c.0.claimed user) ≡ false
      → is_ok (pay_stake env user n c s).0 ≡ true
      → IsTurned s c (pay_stake env user n c s)
  pay_stake_ok env user n c s k open_claim h =
      let credited = credit {L = L} user n in
      let done = λ (sum : ℤ). credited >> pure (with_claim env user n c.0, sum) in
      let (sum, e, e₁) = or_raise_ok (checked_add c.1 n) invalid_input done s h in
      let (b, f, e₂) =
        bind_ok credited (λ _. pure (with_claim env user n c.0, sum)) s (moved e₁ h) in
      let (positive, adjusted) =
        credit_ok user n s k
          (bind-is_ok credited (λ _. pure (with_claim env user n c.0, sum)) s (moved e₁ h)) in
      subst (IsTurned s c) (sym (e₁ ∙ e₂)) (record {
        next = (with_claim env user n c.0, sum);
        value = refl;
        accounted =
            pay-IsAccounted env user n (vault s) (vault (credited s).1) c.0 open_claim adjusted;
      })

  voter_pay_ok :
      (env : Env) (user : Address) (n : ℤ) (c : Carried) (s : ClaimStore L)
      → IsKeyed (vault s)
      → is_claimed (c.0.claimed user) ≡ false
      → is_ok (voter_pay env user c n s).0 ≡ true
      → IsTurned s c (voter_pay env user c n s)
  voter_pay_ok env user n c s k o h = go (leb_ℤ (pos 0) n) (ltb_ℤ (pos 0) n) refl refl h
    where
      chosen : Bool → Bool → Result Error Carried × ClaimStore L
      chosen a b =
          (if a
              then (if b then pay_stake env user n c else pure (with_claim env user n c.0, c.1))
              else pure c)
            s

      go :
          (a b : Bool)
          → leb_ℤ (pos 0) n ≡ a
          → ltb_ℤ (pos 0) n ≡ b
          → is_ok (chosen a b).0 ≡ true
          → IsTurned s c (chosen a b)
      go false b e f g = still s c k
      go true true e f g = pay_stake_ok env user n c s k o g
      go true false e f g = record {
        next = (with_claim env user n c.0, c.1);
        value = refl;
        accounted =
            let none_paid : n ≡ pos 0 = ground arith in
            subst (λ (x : ℤ). IsAccounted (vault s) c.0 (vault s) (with_claim env user x c.0))
              (sym none_paid) (void-IsAccounted env user (vault s) c.0 k o);
      }

  pay_voter_ok :
      (env : Env) (fee : ℤ) (summary : Summary) (user : Address) (stake : ℤ) (c : Carried)
      (s : ClaimStore L)
      → IsKeyed (vault s)
      → is_claimed (c.0.claimed user) ≡ false
      → is_ok (pay_voter env fee summary user stake c s).0 ≡ true
      → IsTurned s c (pay_voter env fee summary user stake c s)
  unfolding pay_voter
  pay_voter_ok env fee summary user stake c s k o h =
      let (n, _, e) =
        unchanged_ok (payout_by (pos 10000) fee stake summary) (voter_pay env user c) s
          (payout_by-Reads L (pos 10000) fee stake summary) h in
      subst (IsTurned s c) (sym e) (voter_pay_ok env user n c s k o (moved e h))

  pub voter_turn_ok :
      (env : Env) (fee : ℤ) (summary : Summary) (winning : List Outcome) (x : Address × Outcome)
      (c : Carried) (s : ClaimStore L)
      → IsKeyed (vault s)
      → is_ok (voter_turn env fee summary winning x c s).0 ≡ true
      → IsTurned s c (voter_turn env fee summary winning x c s)
  unfolding voter_turn
  voter_turn_ok env fee summary winning x c s k h =
      let stake = get_or (c.0.stakes x.0) (pos 0) in
      either (contains winning x.1 && none_claimed c.0 x.0 && ltb_ℤ (pos 0) stake)
        (pay_voter env fee summary x.0 stake c) c s k
        (λ e g. pay_voter_ok env fee summary x.0 stake c s k (ground (arith, e)) g) h
