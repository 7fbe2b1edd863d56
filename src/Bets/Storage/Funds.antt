-- ===== src/Bets/Storage/Funds.antt =====
-- What locking and unlocking funds does (contracts/predictify-hybrid/src/bets.rs, `BetUtils`).
use predictify_contracts.Base.{◌≡◌, inl, inr, Option, some, true, arith, Option-cases}
use predictify_contracts.Base.Int.{ℤ}
use predictify_contracts.Base.Maps.{Address}
use predictify_contracts.Base.Action.{is_ok}
use predictify_contracts.Guard.{with_guard}
use predictify_contracts.Bets.{BetStore}
use predictify_contracts.Bets.Storage.{lock_funds, unlock_funds}

module _ {L : Type 0} (transfer : Address → Address → Address → ℤ → L → Option L)
    (contract : Address) where
  -- the token's ledger after the amount has moved; nothing else has changed but the locks
  pub lock_funds_ok :
      (user : Address) (n : ℤ) (s : BetStore L)
      → is_ok (lock_funds transfer contract user n s).0 ≡ true
      → let s' = (lock_funds transfer contract user n s).1 in
        ((token : Address) × (s.token_id ≡ some token)
          × (transfer token user contract n s.ledger ≡ some s'.ledger))
        × (s' ≡ record s { locks = s'.locks; ledger = s'.ledger })
  unfolding lock_funds with_guard
  lock_funds_ok user n s h = elim (Option-cases s.token_id) [
    | inl e ↦ absurd (ground arith)
    | inr (token, e) ↦ elim (Option-cases (transfer token user contract n s.ledger)) [
      | inl f ↦ absurd (ground arith)
      | inr (l, f) ↦ ((token, e, ground arith), ground arith)
    ]
  ]

  -- the token's ledger after the amount has moved; nothing else has changed but the locks
  pub unlock_funds_ok :
      (user : Address) (n : ℤ) (s : BetStore L)
      → is_ok (unlock_funds transfer contract user n s).0 ≡ true
      → let s' = (unlock_funds transfer contract user n s).1 in
        ((token : Address) × (s.token_id ≡ some token)
          × (transfer token contract user n s.ledger ≡ some s'.ledger))
        × (s' ≡ record s { locks = s'.locks; ledger = s'.ledger })
  unfolding unlock_funds with_guard
  unlock_funds_ok user n s h = elim (Option-cases s.token_id) [
    | inl e ↦ absurd (ground arith)
    | inr (token, e) ↦ elim (Option-cases (transfer token contract user n s.ledger)) [
      | inl f ↦ absurd (ground arith)
      | inr (l, f) ↦ ((token, e, ground arith), ground arith)
    ]
  ]
