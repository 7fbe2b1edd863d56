-- ===== src/Balances/Tests.antt =====
-- Balances on small inputs (contracts/predictify-hybrid/src/balances.rs), with a token whose ledger
-- is what each address holds.
use predictify_contracts.Base.{
  ◌≡◌, refl, Option, none, some, true, false, ◌==◌, if◌then◌else◌, arith, [],
}
use predictify_contracts.Base.Int.{ℤ, pos, ◌+ℤ◌, ◌-ℤ◌, ◌<ℤ◌, ◌≤ℤ◌, ltb_ℤ}
use predictify_contracts.Base.Maps.{Address, empty, update}
use predictify_contracts.Base.Host.{Env}
use predictify_contracts.Base.Action.{is_ok}
use predictify_contracts.Breaker.{BreakerStore, default_config, default_state}
use predictify_contracts.Breaker.Control.Pause.{closed_allows}
use predictify_contracts.Guard.{with_guard}
use predictify_contracts.Balances.{stellar, same_asset, VaultStore, add_balance, deposit, withdraw}
use predictify_contracts.Balances.Exact.{IsKeyed, IsAdjusted, deposit_ok, withdraw_ok}

abbrev at_5 : Env
at_5 = record { now = 5; authorized = λ a. true }

abbrev transfer : Address → Address → Address → ℤ → (Address → ℤ) → Option (Address → ℤ)
transfer token from to n holds =
    if ltb_ℤ (holds from) n
    then none
    else (let paid = update holds from (holds from -ℤ n) in some (update paid to (paid to +ℤ n)))

abbrev running : BreakerStore
running = record {
  config = some default_config;
  state = some (default_state at_5);
  events = some [];
  conditions = some [];
  window = none;
}

-- 8 holds 100 of the token, and the contract, 9, holds 50 for 8
abbrev vault : VaultStore (Address → ℤ)
vault = record {
  balance = λ u a.
      if u == 8
      then (elim (same_asset a stellar) [
        | true ↦ some (record { user = 8; asset = stellar; amount = pos 50 })
        | false ↦ none
      ])
      else none;
  token_id = some 4;
  locks = empty;
  breaker = running;
  ledger = λ a. if a == 8 then pos 100 else pos 50;
}

vault-IsKeyed : IsKeyed vault
vault-IsKeyed u b e = ground arith

deposit_accepted : is_ok (deposit transfer 9 at_5 8 stellar (pos 30) vault).0 ≡ true
unfolding deposit add_balance with_guard ◌+ℤ◌ ◌-ℤ◌
deposit_accepted = rw ((closed_allows at_5 "deposit" running refl refl).0) refl

withdraw_accepted : is_ok (withdraw transfer 9 at_5 8 stellar (pos 20) vault).0 ≡ true
unfolding withdraw ◌+ℤ◌ ◌-ℤ◌
withdraw_accepted =
    rw ((closed_allows at_5 "withdraw" running refl refl).0)
      (rw ((closed_allows at_5 "withdraw" running refl refl).1) refl)

deposit_ok_example :
    let s' = (deposit transfer 9 at_5 8 stellar (pos 30) vault).1 in
    (true ≡ true)
    × (stellar ≡ stellar)
    × (pos 0 <ℤ pos 30)
    × ((token : Address) × (vault.token_id ≡ some token)
        × (transfer token 8 9 (pos 30) vault.ledger ≡ some s'.ledger))
    × IsAdjusted 8 (pos 50 +ℤ pos 30) vault s'
deposit_ok_example =
    deposit_ok transfer 9 at_5 8 stellar (pos 30) vault vault-IsKeyed deposit_accepted

withdraw_ok_example :
    let s' = (withdraw transfer 9 at_5 8 stellar (pos 20) vault).1 in
    (true ≡ true)
    × (stellar ≡ stellar)
    × (pos 0 <ℤ pos 20)
    × (pos 20 ≤ℤ pos 50)
    × ((token : Address) × (vault.token_id ≡ some token)
        × (transfer token 9 8 (pos 20) vault.ledger ≡ some s'.ledger))
    × IsAdjusted 8 (pos 50 -ℤ pos 20) vault s'
withdraw_ok_example =
    withdraw_ok transfer 9 at_5 8 stellar (pos 20) vault vault-IsKeyed withdraw_accepted
