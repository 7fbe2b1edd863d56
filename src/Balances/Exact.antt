-- ===== src/Balances/Exact.antt =====
-- What a deposit and a withdrawal move and credit (contracts/predictify-hybrid/src/balances.rs).
use predictify_contracts.Base.{
  ◌≡◌, refl, inl, inr, Option, some, true, false, ◌&&◌, ◌==◌, arith, Option-cases,
}
use predictify_contracts.Base.Int.{ℤ, pos, ◌+ℤ◌, ◌-ℤ◌, ◌≤ℤ◌, ◌<ℤ◌}
use predictify_contracts.Base.Maps.{Address}
use predictify_contracts.Base.Host.{Env}
use predictify_contracts.Base.Action.{is_ok}
use predictify_contracts.Guard.{with_guard}
use predictify_contracts.Balances.{
  ReflectorAsset, stellar, btc, eth, other, same_asset, Balance, VaultStore, get_balance,
  add_balance, deposit, withdraw,
}

module _ {L : Type 0} where
  abbrev pub amount_of : Address → ReflectorAsset → VaultStore L → ℤ
  amount_of user asset s = (get_balance user asset s).amount

  -- Every balance is stored under the user and the asset that it names.
  abbrev pub IsKeyed : VaultStore L → Type 0
  IsKeyed s =
      (u : Address) (b : Balance)
      → s.balance u stellar ≡ some b
      → (b.user ≡ u) × (b.asset ≡ stellar)

  pub own_balance :
      (user : Address) (s : VaultStore L)
      → IsKeyed s
      → let b = get_balance user stellar s in (b.user ≡ user) × (b.asset ≡ stellar)
  own_balance user s keyed = elim (Option-cases (s.balance user stellar)) [
    | inl e ↦ rw e (refl, refl)
    | inr (b, e) ↦ rw e (keyed user b e)
  ]

  -- Only the balance of `user` has changed, to the amount `n`.
  pub record IsAdjusted (user : Address) (n : ℤ) (s s' : VaultStore L) : Type 0 where
    pub amount : amount_of user stellar s' ≡ n
    pub others :
        (u : Address) (a : ReflectorAsset)
        → (u == user && same_asset a stellar) ≡ false
        → s'.balance u a ≡ s.balance u a
    pub keyed : IsKeyed s'

  -- An addition that succeeds is of a positive amount, and exactly the user's balance grows by it.
  pub add_balance_ok :
      (user : Address) (n : ℤ) (s : VaultStore L)
      → IsKeyed s
      → is_ok (add_balance user stellar n s).0 ≡ true
      → (pos 0 <ℤ n)
        × IsAdjusted user (amount_of user stellar s +ℤ n) s (add_balance user stellar n s).1
  unfolding add_balance
  add_balance_ok user n s keyed h =
      let own = own_balance user s keyed in
      (
        ground arith,
        record {
          amount = ground (arith, own);
          others = λ u a o. ground (arith, own);
          keyed = λ u b g. (ground (arith, own, keyed u b), ground (arith, own, keyed u b));
        },
      )

  module _ (transfer : Address → Address → Address → ℤ → L → Option L) (contract : Address) where
    -- A deposit that succeeds is of the supported asset and a positive amount, signed by the user;
    -- the token contract has moved that amount from the user to the contract, and exactly the
    -- user's balance has grown by it.
    pub deposit_ok :
        (env : Env) (user : Address) (asset : ReflectorAsset) (n : ℤ) (s : VaultStore L)
        → IsKeyed s
        → is_ok (deposit transfer contract env user asset n s).0 ≡ true
        → let s' = (deposit transfer contract env user asset n s).1 in
          (env.authorized user ≡ true)
          × (asset ≡ stellar)
          × (pos 0 <ℤ n)
          × ((token : Address) × (s.token_id ≡ some token)
              × (transfer token user contract n s.ledger ≡ some s'.ledger))
          × IsAdjusted user (amount_of user stellar s +ℤ n) s s'
    unfolding deposit add_balance with_guard
    deposit_ok env user btc n s keyed h = absurd (ground arith)
    deposit_ok env user eth n s keyed h = absurd (ground arith)
    deposit_ok env user (other x) n s keyed h = absurd (ground arith)
    deposit_ok env user stellar n s keyed h =
        let own = own_balance user s keyed in
        elim (Option-cases s.token_id) [
          | inl e ↦ absurd (ground arith)
          | inr (token, e) ↦ elim (Option-cases (transfer token user contract n s.ledger)) [
            | inl f ↦ absurd (ground arith)
            | inr (l, f) ↦ (
              ground arith,
              refl,
              ground arith,
              (token, e, ground arith),
              record {
                amount = ground (arith, own);
                others = λ u a o. ground (arith, own);
                keyed = λ u b g. (ground (arith, own, keyed u b), ground (arith, own, keyed u b));
              },
            )
          ]
        ]

    -- A withdrawal that succeeds is signed by the user and of a positive amount that the user's
    -- balance covers; the token contract has moved it from the contract to the user, and exactly
    -- the user's balance has fallen by it.
    pub withdraw_ok :
        (env : Env) (user : Address) (asset : ReflectorAsset) (n : ℤ) (s : VaultStore L)
        → IsKeyed s
        → is_ok (withdraw transfer contract env user asset n s).0 ≡ true
        → let s' = (withdraw transfer contract env user asset n s).1 in
          (env.authorized user ≡ true)
          × (asset ≡ stellar)
          × (pos 0 <ℤ n)
          × (n ≤ℤ amount_of user stellar s)
          × ((token : Address) × (s.token_id ≡ some token)
              × (transfer token contract user n s.ledger ≡ some s'.ledger))
          × IsAdjusted user (amount_of user stellar s -ℤ n) s s'
    unfolding withdraw
    withdraw_ok env user btc n s keyed h = absurd (ground arith)
    withdraw_ok env user eth n s keyed h = absurd (ground arith)
    withdraw_ok env user (other x) n s keyed h = absurd (ground arith)
    withdraw_ok env user stellar n s keyed h =
        let own = own_balance user s keyed in
        elim (Option-cases s.token_id) [
          | inl e ↦ absurd (ground arith)
          | inr (token, e) ↦ elim (Option-cases (transfer token contract user n s.ledger)) [
            | inl f ↦ absurd (ground arith)
            | inr (l, f) ↦ (
              ground arith,
              refl,
              ground arith,
              ground arith,
              (token, e, ground arith),
              record {
                amount = ground (arith, own);
                others = λ u a o. ground (arith, own);
                keyed = λ u b g. (ground (arith, own, keyed u b), ground (arith, own, keyed u b));
              },
            )
          ]
        ]
