-- ===== src/Bets/Settle.antt =====
-- The bets of a market that is resolved or cancelled (contracts/predictify-hybrid/src/bets.rs,
-- `BetManager::resolve_market_bets` and `BetManager::refund_market_bets`).
pub mod Resolved
pub mod Refunded
mod Tests
use predictify_contracts.Base.{
  ℕ, Option, some, none, Bool, true, false, List, [], ◌∷◌, if◌then◌else◌,
}
use predictify_contracts.Base.Int.{ℤ, saturating_sub}
use predictify_contracts.Base.Lists.{contains}
use predictify_contracts.Base.Maps.{Address, Symbol, update}
use predictify_contracts.Base.Action.{Action, pure, gets, ◌>>=◌, ◌>>◌}
use predictify_contracts.Errors.{Error}
use predictify_contracts.Markets.{Outcome, Market}
use predictify_contracts.Markets.Cache.{get_market, update_market}
use predictify_contracts.Bets.{
  Bet, BetStatus, won, lost, refunded, BetStore, is_active, mark_as, on_markets,
}
use predictify_contracts.Bets.Storage.{get_bet, store_bet, get_all_bets_for_market, unlock_funds}
use predictify_contracts.Bets.Place.{without_bet}

-- the status that the winning outcomes give a bet
abbrev pub outcome_status : List Outcome → Bet → BetStatus
outcome_status winning b = if contains winning b.outcome then won else lost

module _ {L : Type 0} where
  -- one turn of the loop; a user without a bet is passed over
  abbrev pub resolve_bet : Symbol → List Outcome → Address → Action (BetStore L) Error (Unit {0})
  resolve_bet id winning user = do
    entry ← gets (get_bet id user)
    elim entry [ some b ↦ store_bet (mark_as (outcome_status winning b) b) | none ↦ pure tt ]

  pub resolve_all : Symbol → List Outcome → List Address → Action (BetStore L) Error (Unit {0})
  resolve_all id winning [] = pure tt
  resolve_all id winning (user ∷ users) = do
    resolve_bet id winning user
    resolve_all id winning users

  pub resolve_market_bets : Symbol → List Outcome → Action (BetStore L) Error (Unit {0})
  unfolding resolve_all
  resolve_market_bets id winning = do
    users ← gets (get_all_bets_for_market id)
    resolve_all id winning users

  module _ (transfer : Address → Address → Address → ℤ → L → Option L) (contract : Address) where
    -- what a turn does with an active bet, and the market's entry after it
    abbrev pub refund_active : Bet → Market → Action (BetStore L) Error Market
    refund_active b m = do
      unlock_funds transfer contract b.user b.amount
      store_bet (mark_as refunded b)
      pure (without_bet b.user b.amount m)

    abbrev pub refund_bet : Symbol → Address → Market → Action (BetStore L) Error Market
    refund_bet id user m = do
      entry ← gets (get_bet id user)
      elim entry [
        | some b ↦ elim (is_active b) [ true ↦ refund_active b m | false ↦ pure m ]
        | none ↦ pure m
      ]

    pub refund_all : Symbol → List Address → Market → Action (BetStore L) Error Market
    refund_all id [] m = pure m
    refund_all id (user ∷ users) m = do m' ← refund_bet id user m; refund_all id users m'

    pub refund_market_bets : Symbol → Action (BetStore L) Error (Unit {0})
    refund_market_bets id = do
      m ← on_markets (get_market id)
      users ← gets (get_all_bets_for_market id)
      m' ← refund_all id users m
      on_markets (update_market id m')
