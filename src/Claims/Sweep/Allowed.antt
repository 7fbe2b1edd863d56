-- ===== src/Claims/Sweep/Allowed.antt =====
-- When a sweep succeeds (contracts/predictify-hybrid/src/lib.rs, `sweep_unclaimed_winnings`).
use predictify_contracts.Base.{
  ◌≡◌, refl, sym, ap, ◌∙◌, subst, Option, none, some, Bool, true, false, not, ◌||◌, ◌==◌, List,
  arith, ==_iff, ◌≤◌, leb, ℕ,
}
use predictify_contracts.Base.Int.{ℤ, pos, ltb_ℤ, ◌≤ℤ◌}
use predictify_contracts.Base.Maps.{Address, Symbol, Map, get_or}
use predictify_contracts.Base.Words.{saturating_add_u64}
use predictify_contracts.Bets.{FeeTerms}
use predictify_contracts.Base.Host.{Env}
use predictify_contracts.Base.Action.{
  Action, Result, is_ok, raise_if, or_raise, gets, ◌>>=◌, ◌>>◌, ok,
}
use predictify_contracts.Base.Steps.{
  moved, bind_assoc, raise_if_ok, abort_unless_ok, or_raise_ok, lift_ok,
}
use predictify_contracts.Errors.{
  Error, admin_not_set, unauthorized, market_not_found, market_not_resolved, invalid_state,
  sweep_already_done, invalid_fee_config,
}
use predictify_contracts.Balances.Exact.{IsKeyed}
use predictify_contracts.Markets.{Outcome, Market}
use predictify_contracts.Claims.{ClaimStore, Summary, vault, load_market}
use predictify_contracts.Claims.Sweep.{
  SweepStore, on_bank, require_stored_admin, is_claim_window_expired, sweep_fee, sweep_market,
  sweep_unswept, sweep_unclaimed_winnings,
}
use predictify_contracts.Claims.Sweep.Ended.{Sweeps, sweep_market_ok}

leb-le : (a b : ℕ) → not (leb a b) ≡ false → a ≤ b
leb-le a b h = ground arith

in_range :
    (fee : ℤ)
    → (ltb_ℤ fee (pos 0) || ltb_ℤ (pos 100) fee) ≡ false
    → (pos 0 ≤ℤ fee) × (fee ≤ℤ pos 100)
in_range fee h = (ground arith, ground arith)

expired_ok :
    {L : Type 0} (id : Symbol) (end_time : ℕ) (s : SweepStore L) (env : Env)
    → not (is_claim_window_expired env id end_time s) ≡ false
    → saturating_add_u64
        (get_or (s.claim_window_start id) end_time)
        (get_or (s.claim_period_market id) (get_or s.claim_period_global 7776000))
      ≤ env.now
expired_ok id end_time s env h =
    leb-le
      (saturating_add_u64 (get_or (s.claim_window_start id) end_time)
        (get_or (s.claim_period_market id) (get_or s.claim_period_global 7776000)))
      env.now h

fee_configured :
    {L : Type 0} (s : SweepStore L) (c : FeeTerms)
    → s.bank.house.config_fees ≡ some c
    → sweep_fee s ≡ c.platform_fee_percentage
fee_configured s c h = rw h refl

fee_old :
    {L : Type 0} (s : SweepStore L)
    → s.bank.house.config_fees ≡ none
    → sweep_fee s ≡ get_or s.old_fee (pos 2)
fee_old s h = rw h refl

module _ {L A : Type 0} where
  found_ok :
      (o : Option Market) (f : Market → Action (SweepStore L) Error A) (s : SweepStore L)
      → is_ok ((on_bank (or_raise o market_not_found) >>= f) s).0 ≡ true
      → (m : Market) × (o ≡ some m) × ((on_bank (or_raise o market_not_found) >>= f) s ≡ f m s)
  found_ok none f s h = absurd (ground arith)
  found_ok (some m) f s h = (m, refl, refl)

  admin_ok :
      (admin : Address) (k : Action (SweepStore L) Error A) (s : SweepStore L)
      → is_ok ((require_stored_admin admin >> k) s).0 ≡ true
      → (s.admin ≡ some admin) × ((require_stored_admin admin >> k) s ≡ k s)
  admin_ok admin k s h =
      let entry = or_raise {S = SweepStore L} s.admin admin_not_set in
      let compared = λ (a : Address). raise_if {S = SweepStore L} (not (admin == a)) unauthorized in
      let e₁ = bind_assoc entry compared (λ _. k) s in
      let (a, f, e₂) = or_raise_ok s.admin admin_not_set (λ x. compared x >> k) s (moved e₁ h) in
      let (g, e₃) = raise_if_ok (not (admin == a)) unauthorized k s (moved (e₁ ∙ e₂) h) in
      let same : admin ≡ a = (==_iff admin a).0 (ground (arith, g)) in
      (f ∙ ap some (sym same), e₁ ∙ e₂ ∙ e₃)

module _ {L : Type 0} (require : Symbol → Market → ClaimStore L → Result Error Summary)
    (entries : Map Outcome → List (Address × Outcome)) (env : Env) (id : Symbol) (burn : Bool) where
  sweep_unswept_ok :
      (winning : List Outcome) (m : Market) (s : SweepStore L)
      → IsKeyed (vault s.bank)
      → is_ok (sweep_unswept require entries env id burn winning m s).0 ≡ true
      → (summary : Summary) × (require id m s.bank ≡ ok summary)
        × (pos 0 ≤ℤ sweep_fee s)
        × (sweep_fee s ≤ℤ pos 100)
        × Sweeps require entries env id burn winning m
            (sweep_fee s)
            summary
            s
            (sweep_unswept require entries env id burn winning m s)
  unfolding sweep_unswept
  sweep_unswept_ok winning m s k h =
      let fee = sweep_fee s in
      let bad = ltb_ℤ fee (pos 0) || ltb_ℤ (pos 100) fee in
      let by_summary = sweep_market require entries env id burn winning m fee in
      let asked = on_bank (λ t. (require id m t, t)) >>= by_summary in
      let (fair, e₁) = raise_if_ok bad invalid_fee_config asked s h in
      let (summary, f, e₂) = lift_ok (require id m s.bank) by_summary s (moved e₁ h) in
      (
        summary,
        f,
        (in_range fee fair).0,
        (in_range fee fair).1,
        subst (Sweeps require entries env id burn winning m fee summary s) (sym (e₁ ∙ e₂)) (
            sweep_market_ok require entries env id burn winning m fee summary s k
              (moved (e₁ ∙ e₂) h)),
      )

  -- what a sweep that succeeds has found and done
  pub record IsAllowed (admin : Address) (s : SweepStore L) (r : Result Error ℤ × SweepStore L)
      : Type 0 where
    pub signed : env.authorized admin ≡ true
    pub stored_admin : s.admin ≡ some admin
    pub market : Market
    pub stored : s.bank.house.markets.persistent id ≡ some market
    pub winning : List Outcome
    pub resolved : market.winning_outcomes ≡ some winning
    pub expired :
        saturating_add_u64
          (get_or (s.claim_window_start id) market.end_time)
          (get_or (s.claim_period_market id) (get_or s.claim_period_global 7776000))
        ≤ env.now
    pub unswept : market.winnings_swept ≡ false
    pub fee : ℤ
    pub configured :
        (c : FeeTerms) → s.bank.house.config_fees ≡ some c → fee ≡ c.platform_fee_percentage
    pub old : s.bank.house.config_fees ≡ none → fee ≡ get_or s.old_fee (pos 2)
    pub least : pos 0 ≤ℤ fee
    pub most : fee ≤ℤ pos 100
    pub summary : Summary
    pub summed : require id market s.bank ≡ ok summary
    pub done : Sweeps require entries env id burn winning market fee summary s r

  pub sweep_unclaimed_winnings_ok :
      (admin : Address) (s : SweepStore L)
      → IsKeyed (vault s.bank)
      → is_ok (sweep_unclaimed_winnings require entries env admin id burn s).0 ≡ true
      → IsAllowed admin s (sweep_unclaimed_winnings require entries env admin id burn s)
  unfolding sweep_unclaimed_winnings
  sweep_unclaimed_winnings_ok admin s k h =
      let unswept = λ (m : Market) (w : List Outcome).
        raise_if m.winnings_swept sweep_already_done
        >> sweep_unswept require entries env id burn w m in
      let resolved = λ (m : Market). or_raise m.winning_outcomes market_not_resolved >>= λ w.
      gets (λ t. not (is_claim_window_expired env id m.end_time t)) >>= λ open_window.
      raise_if open_window invalid_state >> unswept m w in
      let loaded = on_bank (load_market id) >>= resolved in
      let (signed, e₁) =
        abort_unless_ok (env.authorized admin) (require_stored_admin admin >> loaded) s h in
      let (a, e₂) = admin_ok admin loaded s (moved e₁ h) in
      let (m, f, e₃) =
        found_ok (s.bank.house.markets.persistent id) resolved s (moved (e₁ ∙ e₂) h) in
      let (w, won, e₄) =
        or_raise_ok m.winning_outcomes market_not_resolved _ s (moved (e₁ ∙ e₂ ∙ e₃) h) in
      let (g, e₅) =
        raise_if_ok (not (is_claim_window_expired env id m.end_time s)) invalid_state (unswept m w)
          s (moved (e₁ ∙ e₂ ∙ e₃ ∙ e₄) h) in
      let (u, e₆) =
        raise_if_ok m.winnings_swept sweep_already_done
          (sweep_unswept require entries env id burn w m) s (moved (e₁ ∙ e₂ ∙ e₃ ∙ e₄ ∙ e₅) h) in
      let e = e₁ ∙ e₂ ∙ e₃ ∙ e₄ ∙ e₅ ∙ e₆ in
      let (summary, summed, least, most, done) = sweep_unswept_ok w m s k (moved e h) in
      subst (IsAllowed admin s) (sym e) (record {
        signed = signed;
        stored_admin = a;
        market = m;
        stored = f;
        winning = w;
        resolved = won;
        expired = expired_ok id m.end_time s env g;
        unswept = u;
        fee = sweep_fee s;
        configured = λ c x. fee_configured s c x;
        old = λ x. fee_old s x;
        least = least;
        most = most;
        summary = summary;
        summed = summed;
        done = done;
      })
