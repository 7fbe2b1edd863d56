-- ===== src/Claims/Sweep/Ended.antt =====
-- A sweep that succeeds (contracts/predictify-hybrid/src/lib.rs, `sweep_unclaimed_winnings`).
use predictify_contracts.Base.{
  ◌≡◌, ◌⊎◌, refl, sym, ap, ◌∙◌, subst, inl, inr, Option, some, Bool, true, false, List,
  if◌then◌else◌,
}
use predictify_contracts.Base.Int.{ℤ, pos, ltb_ℤ, leb_ℤ, ◌+ℤ◌}
use predictify_contracts.Base.Maps.{Address, Symbol, Map, update}
use predictify_contracts.Base.Host.{Env}
use predictify_contracts.Base.Action.{
  Action, Result, ok, is_ok, pure, bind-is_ok, bind_lem, bind_ok, ◌>>=◌, ◌>>◌,
}
use predictify_contracts.Base.Steps.{moved, or_raise_ok}
use predictify_contracts.Errors.{Error, config_not_found}
use predictify_contracts.Balances.{ReflectorAsset, stellar, Balance}
use predictify_contracts.Balances.Exact.{amount_of, IsKeyed, IsAdjusted}
use predictify_contracts.Markets.{Outcome, Market}
use predictify_contracts.Bets.{BetStore}
use predictify_contracts.Claims.{ClaimStore, Summary, is_claimed, vault, credit, save_market}
use predictify_contracts.Claims.Steps.{credit_ok}
use predictify_contracts.Claims.Distribution.{Carried}
use predictify_contracts.Claims.Sweep.{SweepStore, on_bank, sweep_to, sweep_winners, sweep_market}
use predictify_contracts.Claims.Sweep.Swept.{sweep_winners_ok, Wins}
use predictify_contracts.Claims.Sweep.Entered.{AllDue, sum_of, enter_all, zero_plus}

abbrev pub Balances : Type 0
Balances = Address → ReflectorAsset → Option Balance

module _ {L : Type 0} where
  abbrev pub SameBalances : SweepStore L → Balances → Type 0
  SameBalances s b = (u : Address) (a : ReflectorAsset) → b u a ≡ s.bank.balance u a

  -- a total that is burned, or that the treasury's balance has grown by where it is positive
  abbrev pub Delivers : Bool → ℤ → SweepStore L → Balances → Type 0
  Delivers true n s b = SameBalances s b
  Delivers false n s b =
      (t : Address) × (s.treasury_addr ≡ some t)
      × (((ltb_ℤ (pos 0) n ≡ false) × SameBalances s b)
          ⊎ IsAdjusted t (amount_of t stellar (vault s.bank) +ℤ n) (vault s.bank)
              (record (vault s.bank) { balance = b }))

  -- the delivery writes nothing but balances
  record IsDelivered (burn : Bool) (n : ℤ) (s : SweepStore L)
      (r : Result Error (Unit {0}) × SweepStore L) : Type 0 where
    ended : r.0 ≡ ok tt
    delivered : Delivers burn n s r.1.bank.balance
    house : r.1.bank.house ≡ s.bank.house

  sweep_to_ok :
      (burn : Bool) (n : ℤ) (s : SweepStore L)
      → IsKeyed (vault s.bank)
      → is_ok (sweep_to burn n s).0 ≡ true
      → IsDelivered burn n s (sweep_to burn n s)
  unfolding sweep_to
  sweep_to_ok true n s k h = record { ended = refl; delivered = λ u a. refl; house = refl }
  sweep_to_ok false n s k h =
      let (t, e, e₁) = or_raise_ok s.treasury_addr config_not_found pay s h in
      subst (IsDelivered false n s) (sym e₁) (go t (ltb_ℤ (pos 0) n) e refl (moved e₁ h))
    where
      pays : Address → Action (SweepStore L) Error (Unit {0})
      pays t = on_bank (credit t n) >> pure tt

      pay : Address → Action (SweepStore L) Error (Unit {0})
      pay t = if ltb_ℤ (pos 0) n then pays t else pure tt

      go :
          (t : Address) (b : Bool)
          → s.treasury_addr ≡ some t
          → ltb_ℤ (pos 0) n ≡ b
          → is_ok ((if b then pays t else pure tt) s).0 ≡ true
          → IsDelivered false n s ((if b then pays t else pure tt) s)
      go t false f e g = record {
        ended = refl;
        delivered = (t, f, inl (e, λ u a. refl));
        house = refl;
      }
      go t true f e g =
          let (_, _, e₂) = bind_ok (on_bank (credit t n)) (λ _. pure tt) s g in
          let (_, a) =
            credit_ok t n s.bank k (bind-is_ok (on_bank (credit t n)) (λ _. pure tt) s g) in
          subst (IsDelivered false n s) (sym e₂) (record {
            ended = refl;
            delivered =
                (t, f, inr (record { amount = a.amount; others = a.others; keyed = a.keyed }));
            house = refl;
          })

  -- the market after a sweep and what became of the total
  pub record IsCleared (env : Env) (id : Symbol) (burn : Bool) (winning : List Outcome)
      (votes : List (Address × Outcome)) (m : Market) (fee : ℤ) (summary : Summary) (n : ℤ)
      (s s' : SweepStore L) : Type 0 where
    pub entered : List (Address × ℤ)
    pub due : AllDue (Wins id winning votes m s.bank fee summary) entered
    pub total : n ≡ sum_of entered
    pub market : Market
    pub claims : market ≡ record (enter_all env entered m) { winnings_swept = true }
    pub rest : market ≡ record m { claimed = market.claimed; winnings_swept = true }
    pub kept : (u : Address) → is_claimed (m.claimed u) ≡ true → market.claimed u ≡ m.claimed u
    pub stored :
        s'.bank.house.markets.persistent ≡ update s.bank.house.markets.persistent id (some market)
    pub delivered : Delivers burn n s s'.bank.balance

  module _ (require : Symbol → Market → ClaimStore L → Result Error Summary)
      (entries : Map Outcome → List (Address × Outcome)) (env : Env) (id : Symbol)
      (burn : Bool) where
    abbrev pub Sweeps :
        List Outcome → Market → ℤ → Summary → SweepStore L → Result Error ℤ × SweepStore L → Type 0
    Sweeps winning m fee summary s r =
        ((leb_ℤ summary.winning_total (pos 0) ≡ true) × (r ≡ (ok (pos 0), s)))
        ⊎ ((n : ℤ) × (r.0 ≡ ok n)
            × IsCleared env id burn winning (entries m.votes) m fee summary n s r.1)

    pub sweep_market_ok :
        (winning : List Outcome) (m : Market) (fee : ℤ) (summary : Summary) (s : SweepStore L)
        → IsKeyed (vault s.bank)
        → is_ok (sweep_market require entries env id burn winning m fee summary s).0 ≡ true
        → Sweeps winning m fee summary s
            (sweep_market require entries env id burn winning m fee summary s)
    unfolding sweep_market
    sweep_market_ok winning m fee summary s k h = go (leb_ℤ summary.winning_total (pos 0)) refl h
      where
        loops : Action (SweepStore L) Error Carried
        loops = on_bank (sweep_winners require entries env fee summary id winning m)

        close : Carried → Action (SweepStore L) Error ℤ
        close c = on_bank (save_market id (record c.0 { winnings_swept = true })) >> pure c.1

        after : Carried → Action (SweepStore L) Error ℤ
        after c = sweep_to burn c.1 >> close c

        act : Bool → Result Error ℤ × SweepStore L
        act b = (if b then pure (pos 0) else (loops >>= after)) s

        go :
            (b : Bool)
            → leb_ℤ summary.winning_total (pos 0) ≡ b
            → is_ok (act b).0 ≡ true
            → Sweeps winning m fee summary s (act b)
        go true e g = inl (e, refl)
        go false e g =
            let w =
              sweep_winners_ok require entries env fee summary id winning m s.bank
                (bind-is_ok loops after s g) in
            let c = w.next in
            let e₁ =
              bind_lem loops after s c
                (ap (λ (y : Result Error Carried × ClaimStore L). y.0) w.ended) in
            let e₂ =
              ap (λ (y : Result Error Carried × ClaimStore L). after c (record s { bank = y.1 }))
                w.ended in
            let g' = moved (e₁ ∙ e₂) g in
            let d = sweep_to_ok burn c.1 s k (bind-is_ok (sweep_to burn c.1) (λ _. close c) s g') in
            let e₃ = bind_lem (sweep_to burn c.1) (λ _. close c) s tt d.ended in
            subst (Sweeps winning m fee summary s) (sym (e₁ ∙ e₂ ∙ e₃)) (
              inr (
                c.1,
                refl,
                record {
                  entered = w.entered;
                  due = w.due;
                  total = w.sum ∙ zero_plus (sum_of w.entered);
                  claims = ap (λ (x : Market). record x { winnings_swept = true }) w.claims;
                  market = record c.0 { winnings_swept = true };
                  rest = ap (λ (x : Market). record x { winnings_swept = true }) w.rest;
                  kept = w.kept;
                  stored =
                      ap
                        (λ (x : BetStore L).
                          update x.markets.persistent id
                            (some (record c.0 { winnings_swept = true })))
                        d.house;
                  delivered = d.delivered;
                },
              ))
