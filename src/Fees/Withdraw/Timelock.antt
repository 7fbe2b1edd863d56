-- ===== src/Fees/Withdraw/Timelock.antt =====
-- What a withdrawal of fees pays and when (contracts/predictify-hybrid/src/fees.rs,
-- `FeeWithdrawalManager::withdraw_fees`).
use predictify_contracts.Base.{
  ℕ, ◌≤◌, ◌≡◌, refl, ap, subst, sym, ◌∙◌, ◌⊎◌, inl, inr, Option, some, Bool, true, false, not, ◌&&◌,
  ◌||◌, ◌==◌, ltb, arith, Option-cases, Bool-cases,
}
use predictify_contracts.Base.Int.{ℤ, pos, ◌-ℤ◌, ◌≤ℤ◌, ◌<ℤ◌, ltb_ℤ, leb_ℤ}
use predictify_contracts.Base.Maps.{Address, get_or}
use predictify_contracts.Base.Host.{Env}
use predictify_contracts.Base.Action.{
  Action, Result, ok, is_ok, pure, bind-is_ok, bind_lem, value_of,
}
use predictify_contracts.Errors.{Error}
use predictify_contracts.Guard.{with_guard}
use predictify_contracts.AuditTrail.{AuditRecord}
use predictify_contracts.Fees.{FeeStore, checked_bps_floor}
use predictify_contracts.Fees.Withdraw.{
  pay_out, pay_capped, withdraw_fees, get_schedule, get_last_withdrawal_ts, next_allowed,
  amount_for, raised_cap,
}

module _ {L : Type 0} (transfer : Address → Address → Address → ℤ → L → Option L)
    (digest : AuditRecord → ℕ) (denominator : ℤ) (contract : Address) (env : Env)
    (admin : Address) where
  -- An amount `n` was paid out of `available`.
  pub record IsPaid (available n : ℤ) (s s' : FeeStore L) : Type 0 where
    pub vault : s'.vault ≡ some (available -ℤ n)
    pub time : s'.last_withdrawal ≡ some env.now
    pub schedule : get_schedule s' ≡ get_schedule s
    pub moved :
        (token : Address) × (s.token_id ≡ some token)
        × (transfer token contract admin n s.ledger ≡ some s'.ledger)

  pay_out-is_ok :
      (available n : ℤ) (s : FeeStore L)
      → is_ok (pay_out transfer digest denominator contract env admin available n s).0 ≡ true
      → ((pay_out transfer digest denominator contract env admin available n s).0 ≡ ok n)
        × IsPaid available n s
            (pay_out transfer digest denominator contract env admin available n s).1
  unfolding pay_out with_guard
  pay_out-is_ok available n s h = elim (Option-cases s.token_id) [
    | inl e ↦ absurd (ground arith)
    | inr (token, e) ↦ elim (Option-cases (transfer token contract admin n s.ledger)) [
      | inl f ↦ absurd (ground arith)
      | inr (l, f) ↦ (
        ground arith,
        record {
          vault = ground arith;
          time = ground arith;
          schedule = ground arith;
          moved = (token, e, ground arith);
        },
      )
    ]
  ]

  -- the amount of a withdrawal that is paid, or nothing
  abbrev chosen : ℤ → ℤ → Action (FeeStore L) Error ℤ
  chosen available amount = elim (leb_ℤ amount (pos 0)) [
    | true ↦ pure (pos 0)
    | false ↦ pay_out transfer digest denominator contract env admin available amount
  ]

  -- Nothing was paid, or the positive amount `n` was.
  abbrev pub IsSettled : ℤ → ℤ → FeeStore L → FeeStore L → Type 0
  IsSettled available n s s' =
      ((n ≡ pos 0) × (s' ≡ s)) ⊎ ((pos 0 <ℤ n) × (n ≤ℤ available) × IsPaid available n s s')

  chosen-is_ok :
      (available amount : ℤ) (s : FeeStore L)
      → amount ≤ℤ available
      → is_ok (chosen available amount s).0 ≡ true
      → (n : ℤ) × ((chosen available amount s).0 ≡ ok n)
        × IsSettled available n s (chosen available amount s).1
  chosen-is_ok available amount s b h = elim (Bool-cases (leb_ℤ amount (pos 0))) [
    | inl e ↦
        let to : chosen available amount s ≡ (ok (pos 0), s) =
          ap
            (λ c.
              elim c as (λ _. Action (FeeStore L) Error ℤ) [
                | true ↦ pure (pos 0)
                | false ↦ pay_out transfer digest denominator contract env admin available amount
              ]
                s)
            e in
        (pos 0, ap (λ x. x.0) to, inl (refl, ap (λ x. x.1) to))
    | inr e ↦
        let to : chosen available amount s
            ≡ pay_out transfer digest denominator contract env admin available amount s =
          ap
            (λ c.
              elim c as (λ _. Action (FeeStore L) Error ℤ) [
                | true ↦ pure (pos 0)
                | false ↦ pay_out transfer digest denominator contract env admin available amount
              ]
                s)
            e in
        let (r, p) =
          pay_out-is_ok available amount s
            (subst (λ (x : Result Error ℤ × FeeStore L). is_ok x.0 ≡ true) to h) in
        (
          amount,
          ap (λ x. x.0) to ∙ r,
          inr (
            ground (arith, e),
            b,
            subst (λ (x : Result Error ℤ × FeeStore L). IsPaid available amount s x.1) (sym to) p,
          ),
        )
  ]

  amount-le : (requested available cap : ℤ) → amount_for requested available cap ≤ℤ available
  amount-le requested available cap = ground arith

  bps_state : (a b : ℤ) (s : FeeStore L) → (checked_bps_floor denominator a b s).1 ≡ s
  bps_state a b s = ground arith

  pay_capped-is_ok :
      (requested available : ℤ) (bps : ℕ) (s : FeeStore L)
      → is_ok
          (pay_capped transfer digest denominator contract env admin requested available bps s).0
        ≡ true
      → (n : ℤ) × ((pay_capped transfer digest denominator contract env admin requested available
            bps s).0
          ≡ ok n)
        × IsSettled available n s
            (pay_capped transfer digest denominator contract env admin requested available bps s).1
  unfolding pay_capped
  pay_capped-is_ok requested available bps s h =
      let go_on =
        λ (cap : ℤ). chosen available (amount_for requested available (raised_cap bps cap)) in
      let first = bind-is_ok (checked_bps_floor denominator available (pos bps)) go_on s h in
      let (cap, v) = value_of (checked_bps_floor denominator available (pos bps) s).0 first in
      let to =
        bind_lem (checked_bps_floor denominator available (pos bps)) go_on s cap v
        ∙ ap (go_on cap) (bps_state available (pos bps) s) in
      let r =
        chosen-is_ok available (amount_for requested available (raised_cap bps cap)) s
          (amount-le requested available (raised_cap bps cap))
          (subst (λ (x : Result Error ℤ × FeeStore L). is_ok x.0 ≡ true) to h) in
      subst
        (λ (x : Result Error ℤ × FeeStore L). (n : ℤ) × (x.0 ≡ ok n) × IsSettled available n s x.1)
        (sym to) r

  -- whether the vault is empty or the time lock holds
  abbrev blocked : FeeStore L → Bool
  blocked s =
      let next = next_allowed (get_last_withdrawal_ts s) (get_schedule s) in
      leb_ℤ (get_or s.vault (pos 0)) (pos 0) || (not (next == 0) && ltb env.now next)

  abbrev settled : ℤ → FeeStore L → Bool → Action (FeeStore L) Error ℤ
  settled requested s c = elim c [
    | true ↦ pure (pos 0)
    | false ↦
        pay_capped transfer digest denominator contract env admin requested (get_or s.vault (pos 0))
          (get_schedule s).max_withdrawal_bps
  ]

  withdraw_fees_lem :
      (requested : ℤ) (s : FeeStore L)
      → is_ok (withdraw_fees transfer digest denominator contract env admin requested s).0 ≡ true
      → withdraw_fees transfer digest denominator contract env admin requested s
        ≡ settled requested s (blocked s) s
  unfolding withdraw_fees
  withdraw_fees_lem requested s h = elim (Bool-cases (ltb_ℤ requested (pos 0))) [
    | inl e ↦ absurd (ground arith)
    | inr e ↦ rw e refl
  ]

  unblocked :
      (s : FeeStore L)
      → blocked s ≡ false
      → next_allowed (get_last_withdrawal_ts s) (get_schedule s) ≤ env.now
  unblocked s h = ground arith

  timed :
      (n : ℤ) (s : FeeStore L) (end : Result Error ℤ × FeeStore L)
      → end.0 ≡ ok n
      → next_allowed (get_last_withdrawal_ts s) (get_schedule s) ≤ env.now
      → IsSettled (get_or s.vault (pos 0)) n s end.1
      → (n : ℤ) × (end.0 ≡ ok n)
        × (((n ≡ pos 0) × (end.1 ≡ s))
            ⊎ ((pos 0 <ℤ n)
                × (n ≤ℤ get_or s.vault (pos 0))
                × (next_allowed (get_last_withdrawal_ts s) (get_schedule s) ≤ env.now)
                × IsPaid (get_or s.vault (pos 0)) n s end.1))
  timed n s end v t (inl r) = (n, v, inl r)
  timed n s end v t (inr (p, b, r)) = (n, v, inr (p, b, t, r))

  pub withdraw_fees_ok :
      (requested : ℤ) (s : FeeStore L)
      → is_ok (withdraw_fees transfer digest denominator contract env admin requested s).0 ≡ true
      → let s' = (withdraw_fees transfer digest denominator contract env admin requested s).1 in
        (n : ℤ) × ((withdraw_fees transfer digest denominator contract env admin requested s).0
          ≡ ok n)
        × (((n ≡ pos 0) × (s' ≡ s))
            ⊎ ((pos 0 <ℤ n)
                × (n ≤ℤ get_or s.vault (pos 0))
                × (next_allowed (get_last_withdrawal_ts s) (get_schedule s) ≤ env.now)
                × IsPaid (get_or s.vault (pos 0)) n s s'))
  withdraw_fees_ok requested s h =
      let to = withdraw_fees_lem requested s h in
      elim (Bool-cases (blocked s)) [
        | inl e ↦
            let end = to ∙ ap (λ c. settled requested s c s) e in
            (pos 0, ap (λ x. x.0) end, inl (refl, ap (λ x. x.1) end))
        | inr e ↦
            let end = to ∙ ap (λ c. settled requested s c s) e in
            let (n, v, r) =
              pay_capped-is_ok requested (get_or s.vault (pos 0))
                (get_schedule s).max_withdrawal_bps s
                (subst (λ (x : Result Error ℤ × FeeStore L). is_ok x.0 ≡ true) end h) in
            timed n s _ (ap (λ x. x.0) end ∙ v) (unblocked s e) (
              subst
                (λ (x : Result Error ℤ × FeeStore L). IsSettled (get_or s.vault (pos 0)) n s x.1)
                (sym end) r)
      ]
