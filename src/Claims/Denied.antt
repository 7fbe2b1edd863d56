-- ===== src/Claims/Denied.antt =====
-- Winners that cannot claim (contracts/predictify-hybrid/src/lib.rs, `claim_winnings`).
use native.Mathlib.Nat.{zero-div}
use predictify_contracts.Base.{
  ℕ, zero, suc, ◌*◌, ◌/◌, ◌≤◌, ◌≡◌, ◌≢◌, refl, sym, ap, ap₂, ◌∙◌, subst, inl, inr, Option, some,
  true, false, List, arith,
}
use predictify_contracts.Base.Int.{
  ℤ, pos, negsuc, neg, pos_part, neg_part, ltb_ℤ, ◌<ℤ◌, ◌*ℤ◌, ◌-ℤ◌, div_i128,
}
use predictify_contracts.Base.Lists.{contains}
use predictify_contracts.Base.Maps.{Address, Symbol, get_or}
use predictify_contracts.Base.Host.{Env}
use predictify_contracts.Base.Action.{Result, ok, is_ok}
use predictify_contracts.Errors.{Error}
use predictify_contracts.Balances.Exact.{IsKeyed}
use predictify_contracts.Markets.{Outcome, Market}
use predictify_contracts.Bets.{FeeTerms}
use predictify_contracts.Claims.Steps.{payout_by_ok}
use predictify_contracts.Claims.{
  ClaimStore, Summary, vault, payout_by, configured_fee, claim_winnings,
}
use predictify_contracts.Claims.Opened.{entered}
use predictify_contracts.Claims.Granted.{Settles, claim_winnings_ok}

-- a number that is not positive
abbrev AtMostZero : ℤ → Type 0
AtMostZero x = pos_part x ≡ 0

neg-AtMostZero : (n : ℕ) → AtMostZero (neg n)
neg-AtMostZero zero = refl
neg-AtMostZero (suc n) = refl

times-AtMostZero : (n : ℕ) (x : ℤ) → AtMostZero x → AtMostZero (pos n *ℤ x)
times-AtMostZero n (pos k) h = omega (arith, ap (λ (t : ℕ). n * t) h)
times-AtMostZero n (negsuc k) h = neg-AtMostZero (n * suc k)

times_pos-AtMostZero : (x : ℤ) (n : ℕ) → AtMostZero x → AtMostZero (x *ℤ pos n)
times_pos-AtMostZero (pos k) n h = omega (arith, ap (λ (t : ℕ). t * n) h)
times_pos-AtMostZero (negsuc k) n h = neg-AtMostZero (suc k * n)

div-AtMostZero : (x y : ℤ) (d : ℕ) → AtMostZero x → div_i128 x (pos (suc d)) ≡ some y → AtMostZero y
div-AtMostZero (pos k) y d h e =
    let none_left : k / suc d ≡ 0 = ap (λ (t : ℕ). t / suc d) h ∙ zero-div (suc d) in
    sym (ap (λ (o : Option ℤ). pos_part (get_or o (pos 0))) e) ∙ none_left
div-AtMostZero (negsuc k) y d h e =
    sym (ap (λ (o : Option ℤ). pos_part (get_or o (pos 0))) e) ∙ neg-AtMostZero (suc k / suc d)

rate-AtMostZero : (fee : ℕ) → 100 ≤ fee → AtMostZero (pos 100 -ℤ pos fee)
unfolding ◌-ℤ◌
rate-AtMostZero fee h = ground arith

positive_total : (x : ℤ) (n : ℕ) → x ≡ pos (suc n) → ltb_ℤ (pos 0) x ≢ false
positive_total x n e h = absurd (ground (arith, ap pos_part e, ap neg_part e))

positive_payout : (x : ℤ) → AtMostZero x → ¬ (pos 0 <ℤ x)
positive_payout x h p = absurd (ground (arith, h))

abbrev or_value : {A : Type 0} → A → Result Error A → A
or_value a (ok b) = b
or_value a _ = a

module _ {L : Type 0} where
  -- A fee of a hundred or more leaves no payout.
  no_payout :
      (fee stake pool w : ℕ) (summary : Summary) (n : ℤ) (s : ClaimStore L)
      → 100 ≤ fee
      → summary.total_pool ≡ pos pool
      → summary.winning_total ≡ pos (suc w)
      → (payout_by (pos 100) (pos fee) (pos stake) summary s).0 ≡ ok n
      → AtMostZero n
  no_payout fee stake pool w summary n s high whole won h =
      let (share, a, b) = payout_by_ok (pos 100) (pos fee) (pos stake) n summary s h in
      let low_rate : AtMostZero (pos 100 -ℤ pos fee) = rate-AtMostZero fee high in
      let low_part = times-AtMostZero stake (pos 100 -ℤ pos fee) low_rate in
      let low_share = div-AtMostZero (pos stake *ℤ (pos 100 -ℤ pos fee)) share 99 low_part a in
      let product =
        subst (λ (x : ℤ). div_i128 (share *ℤ x) summary.winning_total ≡ some n) whole b in
      div-AtMostZero (share *ℤ pos pool) n w (times_pos-AtMostZero share pool low_share)
        (subst (λ (x : ℤ). div_i128 (share *ℤ pos pool) x ≡ some n) won product)

  charge :
      (t : ClaimStore L) (terms : FeeTerms)
      → t.house.config_fees ≡ some terms
      → (configured_fee t).0 ≡ ok terms.platform_fee_percentage
  charge t terms h = rw h refl

  module _ (require : Symbol → Market → ClaimStore L → Result Error Summary) where
    -- The user's vote on a market, if there is one, is for a winning outcome, and the summary gives
    -- the winners a total.
    pub record IsWinner (user : Address) (id : Symbol) (m : Market) : Type 0 where
      pub wins :
          (winning : List Outcome) (outcome : Outcome)
          → m.winning_outcomes ≡ some winning
          → m.votes user ≡ some outcome
          → contains winning outcome ≡ true
      pub stake : ℕ
      pub staked : get_or (m.stakes user) (pos 0) ≡ pos stake
      pub summary : Summary
      pub summarised : (t : ClaimStore L) → require id m t ≡ ok summary
      pub pool : ℕ
      pub pooled : summary.total_pool ≡ pos pool
      pub rest : ℕ
      pub won : summary.winning_total ≡ pos (suc rest)

    denied :
        {env : Env} {user : Address} {id : Symbol} (winning : List Outcome) (outcome : Outcome)
        (m : Market) (terms : FeeTerms) (fee : ℕ) (t : ClaimStore L) {t' : ClaimStore L}
        → (w : IsWinner user id m) → t.house.config_fees ≡ some terms
        → terms.platform_fee_percentage ≡ pos fee
        → 100 ≤ fee
        → contains winning outcome ≡ true
        → ¬ Settles env user id m require winning outcome t t'
    denied winning outcome m terms fee t w config rate high wins (inl (_, inl e)) =
        absurd (ground (arith, wins, e))
    denied winning outcome m terms fee t w config rate high wins (inl (_, inr (summary, f, g))) =
        let same : w.summary ≡ summary = ap (or_value w.summary) (sym (w.summarised t) ∙ f) in
        let total = sym (ap (λ (x : Summary). x.winning_total) same) ∙ w.won in
        positive_total summary.winning_total w.rest total g
    denied winning outcome m terms fee t w config rate high wins (inr (_, summary, f, _, paid)) =
        let same : summary ≡ w.summary = ap (or_value w.summary) (sym f ∙ w.summarised t) in
        let charged : paid.fee ≡ pos fee =
          ap (or_value (pos 0)) (sym paid.configured ∙ charge t terms config) ∙ rate in
        let at_most =
          no_payout fee w.stake w.pool w.rest summary paid.payout t high
            (ap (λ (x : Summary). x.total_pool) same ∙ w.pooled)
            (ap (λ (x : Summary). x.winning_total) same ∙ w.won)
            (ap₂ (λ (x y : ℤ). (payout_by (pos 100) x y summary t).0) (sym charged) (sym w.staked)
              ∙ paid.computed) in
        positive_payout paid.payout at_most paid.positive

    -- Where the configured fee is a hundred or more, as the default of 200 is, no winner of a
    -- market with a winning total can claim: the call always fails, if the stake and the pool are
    -- not negative and each balance is stored under its own user and asset.
    pub winners_denied :
        (env : Env) (user : Address) (id : Symbol) (m : Market) (terms : FeeTerms) (fee : ℕ)
        (s : ClaimStore L)
        → IsKeyed (vault s)
        → s.house.markets.persistent id ≡ some m
        → IsWinner user id m
        → s.house.config_fees ≡ some terms
        → terms.platform_fee_percentage ≡ pos fee
        → 100 ≤ fee
        → is_ok (claim_winnings require env user id s).0 ≢ true
    winners_denied env user id m terms fee s k stored w config rate high h =
        let (o, settled) = claim_winnings_ok require env user id s k h in
        let same : m ≡ o.market = ap (λ (x : Option Market). get_or x m) (sym stored ∙ o.stored) in
        let w' = subst (IsWinner user id) same w in
        denied o.winning o.outcome o.market terms fee (entered require env user id s) w' config rate
          high (w'.wins o.winning o.outcome o.resolved o.voted) settled
