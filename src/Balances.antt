-- ===== src/Balances.antt =====
-- Balances inside the contract (contracts/predictify-hybrid/src/balances.rs, and `BalanceStorage` of
-- contracts/predictify-hybrid/src/storage.rs). The token contract is not part of the repository:
-- its ledger and `transfer` are parameters, where `none` is a transfer that fails and so panics.
pub mod Exact
mod Tests
use predictify_contracts.Base.{
  ℕ, Option, none, some, Bool, true, false, not, ◌&&◌, ◌==◌, if◌then◌else◌,
}
use predictify_contracts.Base.Int.{ℤ, pos, ltb_ℤ, leb_ℤ, checked_add, checked_sub}
use predictify_contracts.Base.Maps.{Address, Symbol, Map, get_or}
use predictify_contracts.Base.Host.{Env, require_auth}
use predictify_contracts.Base.Action.{
  Action, pure, raise, raise_if, gets, or_raise, or_abort, modify, zoom, ◌>>=◌, ◌>>◌,
}
use predictify_contracts.Errors.{Error, invalid_input, invalid_state, insufficient_balance, cb_open}
use predictify_contracts.Breaker.{BreakerStore}
use predictify_contracts.Breaker.Control.{require_write_allowed, are_withdrawals_allowed}
use predictify_contracts.Guard.{with_guard}

pub data ReflectorAsset : Type 0 where
  stellar btc eth : ReflectorAsset
  other : Symbol → ReflectorAsset

abbrev pub same_asset : ReflectorAsset → ReflectorAsset → Bool
same_asset stellar stellar = true
same_asset btc btc = true
same_asset eth eth = true
same_asset (other a) (other b) = a == b
same_asset _ _ = false

pub record Balance : Type 0 where
  pub user : Address
  pub asset : ReflectorAsset
  pub amount : ℤ

-- the entries "Balance", "TokenID" and "reent_lk", the circuit breaker's, and the token's ledger
pub record VaultStore (L : Type 0) : Type 0 where
  pub balance : Address → ReflectorAsset → Option Balance
  pub token_id : Option Address
  pub locks : Map Bool
  pub breaker : BreakerStore
  pub ledger : L

-- `i128::MAX / 2`
abbrev pub max_deposit : ℕ
max_deposit = 85070591730234615865843651857942052863

-- the scope "ext_call" of `with_external_call`
abbrev pub external_call_scope : Symbol
external_call_scope = 0

module _ {L : Type 0} where
  abbrev pub get_balance : Address → ReflectorAsset → VaultStore L → Balance
  get_balance user asset s =
      get_or (s.balance user asset) (record { user = user; asset = asset; amount = pos 0 })

  abbrev pub set_balance : Balance → Action (VaultStore L) Error (Unit {0})
  set_balance b = do
    raise_if (ltb_ℤ b.amount (pos 0)) invalid_state
    modify (λ s. record s {
      balance = λ u a. if u == b.user && same_asset a b.asset then some b else s.balance u a;
    })

  abbrev pub checked_add_balance :
      Address → ReflectorAsset → ℤ → Action (VaultStore L) Error Balance
  checked_add_balance user asset amount = do
    raise_if (leb_ℤ amount (pos 0)) invalid_input
    b ← gets (get_balance user asset)
    sum ← or_raise (checked_add b.amount amount) invalid_input
    pure (record b { amount = sum })

  abbrev pub checked_sub_balance :
      Address → ReflectorAsset → ℤ → Action (VaultStore L) Error Balance
  checked_sub_balance user asset amount = do
    raise_if (leb_ℤ amount (pos 0)) invalid_input
    b ← gets (get_balance user asset)
    raise_if (ltb_ℤ b.amount amount) insufficient_balance
    rest ← or_raise (checked_sub b.amount amount) invalid_state
    pure (record b { amount = rest })

  unfoldable pub add_balance : Address → ReflectorAsset → ℤ → Action (VaultStore L) Error Balance
  add_balance user asset amount = do
    b ← checked_add_balance user asset amount
    set_balance b
    pure b

  pub sub_balance : Address → ReflectorAsset → ℤ → Action (VaultStore L) Error Balance
  sub_balance user asset amount = do
    b ← checked_sub_balance user asset amount
    set_balance b
    pure b

  -- `MarketUtils::get_token_client` for the one asset that is supported
  abbrev pub token_for : ReflectorAsset → Action (VaultStore L) Error Address
  token_for stellar = do entry ← gets (λ s. s.token_id); or_raise entry invalid_state
  token_for _ = raise invalid_input

  abbrev pub on_breaker : {A : Type 0} → Action BreakerStore Error A → Action (VaultStore L) Error A
  on_breaker = zoom (λ s. s.breaker) (λ b s. record s { breaker = b })

  module _ (transfer : Address → Address → Address → ℤ → L → Option L) (contract : Address) where
    -- a transfer by the token contract, which panics where it fails
    abbrev pub move : Address → Address → Address → ℤ → Action (VaultStore L) Error (Unit {0})
    move token from to amount = do
      ledger ← gets (λ s. s.ledger)
      ledger' ← or_abort (transfer token from to amount ledger)
      modify (λ s. record s { ledger = ledger' })

    pub deposit : Env → Address → ReflectorAsset → ℤ → Action (VaultStore L) Error Balance
    unfolding add_balance
    deposit env user asset amount = do
      on_breaker (require_write_allowed env "deposit")
      require_auth env user
      raise_if (leb_ℤ amount (pos 0)) invalid_input
      raise_if (ltb_ℤ (pos max_deposit) amount) invalid_input
      token ← token_for asset
      with_guard (λ s. s.locks) (λ m s. record s { locks = m }) invalid_state external_call_scope
          (move token user contract amount)
      add_balance user asset amount

    pub withdraw : Env → Address → ReflectorAsset → ℤ → Action (VaultStore L) Error Balance
    withdraw env user asset amount = do
      on_breaker (require_write_allowed env "withdraw")
      require_auth env user
      raise_if (leb_ℤ amount (pos 0)) invalid_input
      allowed ← on_breaker (are_withdrawals_allowed env)
      raise_if (not allowed) cb_open
      token ← token_for asset
      b ← checked_sub_balance user asset amount
      move token contract user amount
      set_balance b
      pure b
