-- ===== src/Claims/Steps.antt =====
-- The steps that claims and distributions share (contracts/predictify-hybrid/src/lib.rs,
-- `claim_winnings` and `distribute_payouts`).
use predictify_contracts.Base.{◌≡◌, sym, ap, ◌∙◌, Option, some, none, true, arith}
use predictify_contracts.Base.Int.{
  ℤ, pos, ◌<ℤ◌, ◌+ℤ◌, ◌*ℤ◌, ◌-ℤ◌, to_i128, checked_sub, checked_mul, div_i128,
}
use predictify_contracts.Base.Maps.{Address}
use predictify_contracts.Base.Action.{Result, ok, is_ok, or_abort}
use predictify_contracts.Base.Steps.{
  Reads, moved, or_abort_ok, or_raise_ok, or_abort-Reads, or_abort-Reads_then, or_raise-Reads_then,
}
use predictify_contracts.Errors.{Error, invalid_input}
use predictify_contracts.Balances.{stellar}
use predictify_contracts.Balances.Exact.{amount_of, IsKeyed, IsAdjusted, add_balance_ok}
use predictify_contracts.Claims.{ClaimStore, Summary, credit, vault, payout_by, gross_payout}

pub payout_by-Reads :
    (L : Type 0) (denominator fee stake : ℤ) (summary : Summary)
    → Reads (payout_by {L = L} denominator fee stake summary)
unfolding payout_by
payout_by-Reads L denominator fee stake summary =
    or_abort-Reads_then (checked_sub denominator fee) _ λ rate.
      or_raise-Reads_then (checked_mul stake rate) invalid_input _ λ part.
        or_abort-Reads_then (div_i128 part denominator) _ λ share.
          or_raise-Reads_then (checked_mul share summary.total_pool) invalid_input _
            λ product. or_abort-Reads (ClaimStore L) Error (div_i128 product summary.winning_total)

pub to_i128_lem : (x y : ℤ) → to_i128 x ≡ some y → x ≡ y
to_i128_lem x y h = ground arith

pub or_abort_value :
    {S : Type 0} (o : Option ℤ) (n : ℤ) (s : S)
    → (or_abort {S = S} {E = Error} o s).0 ≡ ok n
    → o ≡ some n
or_abort_value none n s h = absurd (ground arith)
or_abort_value (some x) n s h = ground arith

module _ {L : Type 0} where
  -- A payout that is computed, in terms of the integers.
  pub payout_by_ok :
      (d fee stake n : ℤ) (summary : Summary) (s : ClaimStore L)
      → (payout_by d fee stake summary s).0 ≡ ok n
      → (share : ℤ) × (div_i128 (stake *ℤ (d -ℤ fee)) d ≡ some share)
        × (div_i128 (share *ℤ summary.total_pool) summary.winning_total ≡ some n)
  unfolding payout_by
  payout_by_ok d fee stake n summary s h =
      let done = ap is_ok h in
      let (rate, a, e₁) = or_abort_ok (checked_sub d fee) _ s done in
      let (part, b, e₂) = or_raise_ok (checked_mul stake rate) invalid_input _ s (moved e₁ done) in
      let (share, c, e₃) = or_abort_ok (div_i128 part d) _ s (moved (e₁ ∙ e₂) done) in
      let (product, p, e₄) =
        or_raise_ok (checked_mul share summary.total_pool) invalid_input _ s
          (moved (e₁ ∙ e₂ ∙ e₃) done) in
      let last =
        or_abort_value (div_i128 product summary.winning_total) n s
          (sym (ap (λ (x : Result Error ℤ × ClaimStore L). x.0) (e₁ ∙ e₂ ∙ e₃ ∙ e₄)) ∙ h) in
      let whole : stake *ℤ (d -ℤ fee) ≡ part =
        ap (λ (x : ℤ). stake *ℤ x) (to_i128_lem (d -ℤ fee) rate a)
        ∙ to_i128_lem (stake *ℤ rate) part b in
      let total = to_i128_lem (share *ℤ summary.total_pool) product p in
      (
        share,
        ap (λ (x : ℤ). div_i128 x d) whole ∙ c,
        ap (λ (x : ℤ). div_i128 x summary.winning_total) total ∙ last,
      )

  pub gross_payout_ok :
      (stake n : ℤ) (summary : Summary) (s : ClaimStore L)
      → (gross_payout stake summary s).0 ≡ ok n
      → div_i128 (stake *ℤ summary.total_pool) summary.winning_total ≡ some n
  unfolding gross_payout
  gross_payout_ok stake n summary s h =
      let done = ap is_ok h in
      let (_, _, e₁) = or_raise_ok (checked_mul stake (pos 100)) invalid_input _ s done in
      let (product, p, e₂) =
        or_raise_ok (checked_mul stake summary.total_pool) invalid_input _ s (moved e₁ done) in
      let last =
        or_abort_value (div_i128 product summary.winning_total) n s
          (sym (ap (λ (x : Result Error ℤ × ClaimStore L). x.0) (e₁ ∙ e₂)) ∙ h) in
      ap (λ (x : ℤ). div_i128 x summary.winning_total)
        (to_i128_lem (stake *ℤ summary.total_pool) product p)
      ∙ last

  pub credit_ok :
      (user : Address) (n : ℤ) (s : ClaimStore L)
      → IsKeyed (vault s)
      → is_ok (credit user n s).0 ≡ true
      → (pos 0 <ℤ n)
        × IsAdjusted user
            (amount_of user stellar (vault s) +ℤ n)
            (vault s)
            (vault (credit user n s).1)
  credit_ok user n s k h =
      let (positive, a) = add_balance_ok user n (vault s) k h in
      (positive, record { amount = a.amount; others = a.others; keyed = a.keyed })
