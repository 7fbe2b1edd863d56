-- ===== src/Claims/Granted.antt =====
-- What a claim that succeeds pays (contracts/predictify-hybrid/src/lib.rs, `claim_winnings`).
use predictify_contracts.Base.{
  ◌≡◌, ◌⊎◌, refl, sym, ◌∙◌, subst, inl, inr, some, Bool, true, false, List, if◌then◌else◌,
  Option-cases, ap, arith,
}
use predictify_contracts.Base.Int.{
  ℤ, pos, ltb_ℤ, ◌<ℤ◌, ◌+ℤ◌, checked_sub, checked_mul, div_i128, ◌*ℤ◌, ◌-ℤ◌,
}
use predictify_contracts.Base.Lists.{contains}
use predictify_contracts.Base.Maps.{Address, Symbol, update, get_or}
use predictify_contracts.Base.Host.{Env}
use predictify_contracts.Base.Action.{
  Action, Result, ok, is_ok, pure, modify, or_abort, bind_ok, bind-is_ok, ◌>>=◌, ◌>>◌,
}
use predictify_contracts.Base.Steps.{
  moved, Reads, or_abort-Reads, or_raise-Reads_then, unchanged_ok, or_abort_ok, lift_ok,
}
use predictify_contracts.Errors.{Error, invalid_input, config_not_found}
use predictify_contracts.Balances.{ReflectorAsset, stellar}
use predictify_contracts.Balances.Exact.{amount_of, IsKeyed, IsAdjusted}
use predictify_contracts.Bets.{FeeTerms}
use predictify_contracts.Markets.{Outcome, Market}
use predictify_contracts.Statistics.{record_winnings_claimed, record_fees_collected}
use predictify_contracts.Claims.{
  ClaimStore, Summary, with_claim, credit, vault, payout_by, gross_payout, configured_fee,
  save_market, pay_winner, void_claim, pay_from, settle_claim, claim_winnings,
}
use predictify_contracts.Claims.Steps.{
  payout_by-Reads, payout_by_ok, gross_payout_ok, to_i128_lem, credit_ok,
}
use predictify_contracts.Claims.Opened.{IsOpened, claim_winnings-IsOpened, entered}

gross_payout-Reads :
    (L : Type 0) (stake : ℤ) (summary : Summary) → Reads (gross_payout {L = L} stake summary)
unfolding gross_payout
gross_payout-Reads L stake summary =
    or_raise-Reads_then (checked_mul stake (pos 100)) invalid_input _ λ whole.
      or_raise-Reads_then (checked_mul stake summary.total_pool) invalid_input _
        λ product. or_abort-Reads (ClaimStore L) Error (div_i128 product summary.winning_total)

configured_fee-Reads : (L : Type 0) → Reads (configured_fee {L = L})
configured_fee-Reads L s =
    or_raise-Reads_then s.house.config_fees config_not_found _ (λ terms t. refl) s

configured_fee_ok :
    {L : Type 0} (s : ClaimStore L) (fee : ℤ)
    → (configured_fee s).0 ≡ ok fee
    → (terms : FeeTerms) × (s.house.config_fees ≡ some terms)
      × (terms.platform_fee_percentage ≡ fee)
configured_fee_ok s fee h = elim (Option-cases s.house.config_fees) [
  | inl e ↦ absurd (ground (arith, h, e))
  | inr (terms, e) ↦ (terms, e, ground (arith, h, e))
]

-- the market with a user's claim entered
abbrev pub entry_of : Env → Address → Market → ℤ → Market
entry_of env user m n = record m {
  claimed =
      update m.claimed user
        (some (record { claimed = true; timestamp = env.now; payout_amount = n }));
}

module _ {L : Type 0} (env : Env) (user : Address) (id : Symbol) (m : Market) where
  -- the winner's payout and what it has changed
  pub record IsPaid (stake : ℤ) (summary : Summary) (s s' : ClaimStore L) : Type 0 where
    pub fee : ℤ
    pub configured : (configured_fee s).0 ≡ ok fee
    pub terms : FeeTerms
    pub charged : s.house.config_fees ≡ some terms
    pub percentage : terms.platform_fee_percentage ≡ fee
    pub payout : ℤ
    pub share : ℤ
    pub shared : div_i128 (stake *ℤ (pos 100 -ℤ fee)) (pos 100) ≡ some share
    pub paid : div_i128 (share *ℤ summary.total_pool) summary.winning_total ≡ some payout
    pub gross : ℤ
    pub grossed : div_i128 (stake *ℤ summary.total_pool) summary.winning_total ≡ some gross
    pub counted :
        s'.stats
        ≡ record_fees_collected (gross -ℤ payout) (record_winnings_claimed env user payout s.stats)
    pub computed : (payout_by (pos 100) fee stake summary s).0 ≡ ok payout
    pub positive : pos 0 <ℤ payout
    pub credited : IsAdjusted user (amount_of user stellar (vault s) +ℤ payout) (vault s) (vault s')
    pub entered :
        s'.house.markets.persistent
        ≡ update s.house.markets.persistent id (some (entry_of env user m payout))

  module _ (stake : ℤ) (summary : Summary) where
    -- what follows each step of the payment
    abbrev enter : ℤ → ℤ → Action (ClaimStore L) Error (Unit {0})
    enter n fee_amount = do
      modify (λ s. record s { stats = record_winnings_claimed env user n s.stats })
      modify (λ s. record s { stats = record_fees_collected fee_amount s.stats })
      save_market id (with_claim env user n m)
      credit user n
      pure tt

    abbrev after_gross : ℤ → ℤ → Action (ClaimStore L) Error (Unit {0})
    after_gross n gross = or_abort (checked_sub gross n) >>= enter n

    abbrev after_payout : ℤ → Action (ClaimStore L) Error (Unit {0})
    after_payout n = gross_payout stake summary >>= after_gross n

    abbrev after_fee : ℤ → Action (ClaimStore L) Error (Unit {0})
    after_fee fee = payout_by (pos 100) fee stake summary >>= after_payout

    -- the store in which the payout is credited
    abbrev with_entry : ℤ → ℤ → ClaimStore L → ClaimStore L
    with_entry n fee_amount s = record s {
      stats = record_fees_collected fee_amount (record_winnings_claimed env user n s.stats);
      house = record s.house {
        markets = record s.house.markets {
          persistent = update s.house.markets.persistent id (some (with_claim env user n m));
        };
      };
    }

    pub pay_winner_ok :
        (s : ClaimStore L)
        → IsKeyed (vault s)
        → is_ok (pay_winner env user id m stake summary s).0 ≡ true
        → IsPaid stake summary s (pay_winner env user id m stake summary s).1
    unfolding pay_winner
    pay_winner_ok s k h =
        let (fee, configured, e₁) =
          unchanged_ok configured_fee after_fee s (configured_fee-Reads L) h in
        let (n, computed, e₂) =
          unchanged_ok (payout_by (pos 100) fee stake summary) after_payout s
            (payout_by-Reads L (pos 100) fee stake summary) (moved e₁ h) in
        let (gross, grossed, e₃) =
          unchanged_ok (gross_payout stake summary) (after_gross n) s
            (gross_payout-Reads L stake summary) (moved (e₁ ∙ e₂) h) in
        let (terms, charged, percentage) = configured_fee_ok s fee configured in
        let (share, shared, paid) = payout_by_ok (pos 100) fee stake n summary s computed in
        let (fee_amount, difference, e₄) =
          or_abort_ok (checked_sub gross n) (enter n) s (moved (e₁ ∙ e₂ ∙ e₃) h) in
        let t = with_entry n fee_amount s in
        let h' : is_ok ((credit user n >> pure tt) t).0 ≡ true = moved (e₁ ∙ e₂ ∙ e₃ ∙ e₄) h in
        let (_, _, e₅) = bind_ok (credit user n) (λ _. pure tt) t h' in
        let (positive, a) = credit_ok user n t k (bind-is_ok (credit user n) (λ _. pure tt) t h') in
        subst (λ (x : Result Error (Unit {0}) × ClaimStore L). IsPaid stake summary s x.1)
          (sym (e₁ ∙ e₂ ∙ e₃ ∙ e₄ ∙ e₅))
          (record {
            fee = fee;
            configured = configured;
            terms = terms;
            charged = charged;
            percentage = percentage;
            payout = n;
            share = share;
            shared = shared;
            paid = paid;
            gross = gross;
            grossed = gross_payout_ok stake gross summary s grossed;
            counted =
                ap (λ (x : ℤ). record_fees_collected x (record_winnings_claimed env user n s.stats))
                  (sym (to_i128_lem (gross -ℤ n) fee_amount difference));
            computed = computed;
            positive = positive;
            credited = record { amount = a.amount; others = a.others; keyed = a.keyed };
            entered = refl;
          })

  -- a claim that is entered and pays nothing
  pub record IsVoid (s s' : ClaimStore L) : Type 0 where
    pub same : (u : Address) (a : ReflectorAsset) → s'.balance u a ≡ s.balance u a
    pub written :
        s'.house.markets.persistent
        ≡ update s.house.markets.persistent id (some (entry_of env user m (pos 0)))

  module _ (require : Symbol → Market → ClaimStore L → Result Error Summary) where
    -- A winner of a market that has a winning total is paid, and everyone else is not.
    abbrev pub Settles : List Outcome → Outcome → ClaimStore L → ClaimStore L → Type 0
    Settles winning outcome s s' =
        (IsVoid s s'
          × ((contains winning outcome ≡ false)
              ⊎ ((summary : Summary) × (require id m s ≡ ok summary)
                  × (ltb_ℤ (pos 0) summary.winning_total ≡ false))))
        ⊎ ((contains winning outcome ≡ true)
            × (summary : Summary) × (require id m s ≡ ok summary)
            × (ltb_ℤ (pos 0) summary.winning_total ≡ true)
            × IsPaid (get_or (m.stakes user) (pos 0)) summary s s')

    pub settle_claim_ok :
        (winning : List Outcome) (outcome : Outcome) (s : ClaimStore L)
        → IsKeyed (vault s)
        → is_ok (settle_claim require env user id m winning outcome s).0 ≡ true
        → Settles winning outcome s (settle_claim require env user id m winning outcome s).1
    unfolding settle_claim pay_winner
    settle_claim_ok winning outcome s k h = go (contains winning outcome) refl h
      where
        stake : ℤ
        stake = get_or (m.stakes user) (pos 0)

        ask : Action (ClaimStore L) Error (Unit {0})
        ask = (λ s. (require id m s, s)) >>= pay_from env user id m

        void : IsVoid s (void_claim env user id m s).1
        void = record { same = λ u a. refl; written = refl }

        pick :
            (summary : Summary) (b : Bool)
            → contains winning outcome ≡ true
            → require id m s ≡ ok summary
            → ltb_ℤ (pos 0) summary.winning_total ≡ b
            → is_ok
                ((if b then pay_winner env user id m stake summary else void_claim env user id m)
                  s).0
              ≡ true
            → Settles winning outcome s
                ((if b then pay_winner env user id m stake summary else void_claim env user id m)
                  s).1
        pick summary true e f g j = inr (e, summary, f, g, pay_winner_ok stake summary s k j)
        pick summary false e f g j = inl (void, inr (summary, f, g))

        go :
            (b : Bool)
            → contains winning outcome ≡ b
            → is_ok ((if b then ask else void_claim env user id m) s).0 ≡ true
            → Settles winning outcome s ((if b then ask else void_claim env user id m) s).1
        go false e j = inl (void, inl e)
        go true e j =
            let (summary, f, g) = lift_ok (require id m s) (pay_from env user id m) s j in
            subst (λ (x : Result Error (Unit {0}) × ClaimStore L). Settles winning outcome s x.1)
              (sym g) (pick summary (ltb_ℤ (pos 0) summary.winning_total) e f refl (moved g j))

-- A claim that succeeds was let through by the breaker and signed, on a resolved market whose
-- dispute window is over, by a user who voted and had not claimed. A winner with a winning total
-- gets exactly the payout of the stake at the configured fee, which is positive, and nobody else's
-- balance changes; any other user gets nothing. In both cases the claim is entered in the market,
-- and no other market changes. The condition is that each balance is stored under its own user and
-- asset.
pub claim_winnings_ok :
    {L : Type 0} (require : Symbol → Market → ClaimStore L → Result Error Summary) (env : Env)
    (user : Address) (id : Symbol) (s : ClaimStore L)
    → IsKeyed (vault s)
    → is_ok (claim_winnings require env user id s).0 ≡ true
    → (o : IsOpened require env user id s) × Settles env user id o.market require o.winning
        o.outcome
        (entered require env user id s)
        (claim_winnings require env user id s).1
claim_winnings_ok {L} require env user id s k h =
    let o = claim_winnings-IsOpened require env user id s h in
    let t = entered require env user id s in
    (
      o,
      subst
          (λ (x : Result Error (Unit {0}) × ClaimStore L).
            Settles env user id o.market require o.winning o.outcome t x.1)
          (sym o.rest)
          (settle_claim_ok env user id o.market require o.winning o.outcome t k (moved o.rest h)),
    )
