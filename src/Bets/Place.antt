-- ===== src/Bets/Place.antt =====
-- Placing and cancelling a bet (contracts/predictify-hybrid/src/bets.rs, `BetManager`).
pub mod Admitted
pub mod Placed
pub mod Cancelled
pub mod Sums
pub mod Locked
pub mod Course
mod Tests
use predictify_contracts.Base.{
  Option, some, none, Bool, true, false, not, leb, ◌||◌, ◌&&◌, if◌then◌else◌,
}
use predictify_contracts.Base.Int.{ℤ, checked_add, saturating_sub}
use predictify_contracts.Base.Maps.{Address, Symbol, update}
use predictify_contracts.Base.Host.{Env, require_auth}
use predictify_contracts.Base.Action.{
  Action, Result, ok, err, pure, lift, raise_if, gets, or_raise, or_abort, ◌>>=◌, ◌>>◌,
}
use predictify_contracts.Errors.{Error, already_bet, nothing_to_claim, invalid_state, market_closed}
use predictify_contracts.Breaker.Control.{require_write_allowed}
use predictify_contracts.Guard.{with_guard}
use predictify_contracts.Markets.{Outcome, Market}
use predictify_contracts.Markets.Cache.{get_market, update_market}
use predictify_contracts.Bets.{
  Bet, BetStore, new_bet, is_active, is_cancelled, mark_as, cancelled, validate_market_for_betting,
  check, on_breaker, on_markets,
}
use predictify_contracts.Bets.Limits.{
  validate_bet_parameters, validate_fee_slippage, check_live_fee,
}
use predictify_contracts.Bets.Storage.{
  get_bet, store_bet, update_market_bet_stats, update_market_bet_stats_on_cancel, lock_funds,
  unlock_funds, place_scope,
}

-- a bet that stands keeps its user from placing another
abbrev pub stands : Option Bet → Bool
stands none = false
stands (some b) = not (is_cancelled b)

-- the market with a user's bet entered, and with it taken back
abbrev pub with_bet : Address → Outcome → ℤ → ℤ → Market → Market
with_bet user outcome amount total m = record m {
  total_staked = total;
  votes = update m.votes user (some outcome);
  stakes = update m.stakes user (some amount);
}

abbrev pub without_bet : Address → ℤ → Market → Market
without_bet user amount m = record m {
  total_staked = saturating_sub m.total_staked amount;
  votes = update m.votes user none;
  stakes = update m.stakes user none;
}

-- how `place_bet_inner` begins, up to the read of the market
pub open_bet : {L : Type 0} → Env → Address → Symbol → ℤ → Action (BetStore L) Error Market
open_bet env user id max_fee = do
  on_breaker (require_write_allowed env "betting")
  require_auth env user
  check (check_live_fee max_fee)
  on_markets (get_market id)

-- its checks of the bet and the market, before the funds are locked
pub admit_bet :
    {L : Type 0}
    → Env
    → Address
    → Symbol
    → Outcome
    → ℤ
    → ℤ
    → Market
    → Action (BetStore L) Error (Unit {0})
admit_bet env user id outcome amount max_fee m = do
  lift (validate_market_for_betting env m)
  check (validate_bet_parameters id outcome m.outcomes amount)
  check (validate_fee_slippage max_fee)
  existing ← gets (get_bet id user)
  raise_if (stands existing) already_bet

-- what `place_bet_inner` does once the funds are locked
unfoldable pub enter_bet :
    {L : Type 0} → Env → Address → Symbol → Outcome → ℤ → Market → Action (BetStore L) Error Bet
enter_bet env user id outcome amount m = do
  let b = new_bet env user id outcome amount
  store_bet b
  update_market_bet_stats id outcome amount
  total ← or_abort (checked_add m.total_staked amount)
  on_markets (update_market id (with_bet user outcome amount total m))
  pure b

-- how `cancel_bet` begins, with the bet and the market that it reads
pub open_cancel : {L : Type 0} → Env → Address → Symbol → Action (BetStore L) Error (Bet × Market)
open_cancel env user id = do
  on_breaker (require_write_allowed env "cancel_bet")
  require_auth env user
  entry ← gets (get_bet id user)
  b ← or_raise entry nothing_to_claim
  raise_if (not (is_active b)) invalid_state
  m ← on_markets (get_market id)
  raise_if (leb m.end_time env.now) market_closed
  pure (b, m)

-- what `cancel_bet` does once the funds are back
unfoldable pub take_back :
    {L : Type 0} → Address → Symbol → Bet → Market → Action (BetStore L) Error (Unit {0})
take_back user id b m = do
  store_bet (mark_as cancelled b)
  update_market_bet_stats_on_cancel id b.outcome b.amount
  on_markets (update_market id (without_bet user b.amount m))

module _ {L : Type 0} (transfer : Address → Address → Address → ℤ → L → Option L)
    (contract : Address) where
  pub place_bet_inner : Env → Address → Symbol → Outcome → ℤ → ℤ → Action (BetStore L) Error Bet
  place_bet_inner env user id outcome amount max_fee = do
    m ← open_bet env user id max_fee
    admit_bet env user id outcome amount max_fee m
    lock_funds transfer contract user amount
    enter_bet env user id outcome amount m

  pub place_bet : Env → Address → Symbol → Outcome → ℤ → ℤ → Action (BetStore L) Error Bet
  place_bet env user id outcome amount max_fee =
      with_guard (λ s. s.locks) (λ m s. record s { locks = m }) invalid_state place_scope
        (place_bet_inner env user id outcome amount max_fee)

  pub cancel_bet : Env → Address → Symbol → Action (BetStore L) Error (Unit {0})
  cancel_bet env user id = do
    b ← open_cancel env user id
    unlock_funds transfer contract user b.0.amount
    take_back user id b.0 b.1
