-- ===== src/Bets/Storage.antt =====
-- `BetStorage`, `BetUtils` and the statistics of a market's bets
-- (contracts/predictify-hybrid/src/bets.rs). The token contract is not part of the repository: its
-- `transfer` is a parameter, where `none` is a transfer that fails and so panics.
pub mod Funds
use predictify_contracts.Base.{
  ℕ, ◌-◌, Option, some, none, Bool, true, false, List, [], ◌∷◌, ◌++◌, if◌then◌else◌, ◌==◌, leb,
}
use predictify_contracts.Base.Int.{ℤ, pos, ltb_ℤ, checked_add, saturating_sub}
use predictify_contracts.Base.Words.{add_u32}
use predictify_contracts.Base.Lists.{contains}
use predictify_contracts.Base.Maps.{Address, Symbol, update, update₂, get_or, empty}
use predictify_contracts.Base.Action.{
  Action, Result, ok, err, panic, pure, or_raise, or_abort, gets, modify, ◌>>=◌, ◌>>◌,
}
use predictify_contracts.Errors.{Error, invalid_state}
use predictify_contracts.Guard.{with_guard}
use predictify_contracts.Markets.{Outcome}
use predictify_contracts.Bets.{Bet, BetStats, BetStore}

-- the scopes "place_bet", "lock_fn" and "ulck_fn"
abbrev pub place_scope : Symbol
place_scope = 1

abbrev pub lock_scope : Symbol
lock_scope = 2

abbrev pub unlock_scope : Symbol
unlock_scope = 3

abbrev pub no_stats : BetStats
no_stats = record {
  total_bets = 0;
  total_amount_locked = pos 0;
  unique_bettors = 0;
  outcome_totals = empty;
}

module _ {L : Type 0} where
  abbrev pub get_bet : Symbol → Address → BetStore L → Option Bet
  get_bet id user s = s.bets id user

  abbrev pub get_all_bets_for_market : Symbol → BetStore L → List Address
  get_all_bets_for_market id s = get_or (s.registry id) []

  abbrev pub get_market_bet_stats : Symbol → BetStore L → BetStats
  get_market_bet_stats id s = get_or (s.stats id) no_stats

  abbrev pub add_to_bet_registry : Symbol → Address → BetStore L → BetStore L
  add_to_bet_registry id user s =
      let users = get_all_bets_for_market id s in
      if contains users user
      then s
      else record s { registry = update s.registry id (some (users ++ user ∷ [])) }

  abbrev pub store_bet : Bet → Action (BetStore L) Error (Unit {0})
  store_bet b = do
    modify (λ s. record s { bets = update₂ s.bets b.market_id b.user (some b) })
    modify (add_to_bet_registry b.market_id b.user)

  abbrev pub store_market_bet_stats : Symbol → BetStats → Action (BetStore L) Error (Unit {0})
  store_market_bet_stats id t = modify (λ s. record s { stats = update s.stats id (some t) })

  unfoldable pub update_market_bet_stats :
      Symbol → Outcome → ℤ → Action (BetStore L) Error (Unit {0})
  update_market_bet_stats id outcome amount = do
    t ← gets (get_market_bet_stats id)
    bets ← or_abort (add_u32 t.total_bets 1)
    locked ← or_abort (checked_add t.total_amount_locked amount)
    bettors ← or_abort (add_u32 t.unique_bettors 1)
    sum ← or_abort (checked_add (get_or (t.outcome_totals outcome) (pos 0)) amount)
    store_market_bet_stats id (record {
      total_bets = bets;
      total_amount_locked = locked;
      unique_bettors = bettors;
      outcome_totals = update t.outcome_totals outcome (some sum);
    })

  unfoldable pub update_market_bet_stats_on_cancel :
      Symbol → Outcome → ℤ → Action (BetStore L) Error (Unit {0})
  update_market_bet_stats_on_cancel id outcome amount = do
    t ← gets (get_market_bet_stats id)
    let rest = saturating_sub (get_or (t.outcome_totals outcome) (pos 0)) amount
    store_market_bet_stats id (record {
      total_bets = t.total_bets - 1;
      total_amount_locked = saturating_sub t.total_amount_locked amount;
      unique_bettors = t.unique_bettors - 1;
      outcome_totals =
          update t.outcome_totals outcome (if ltb_ℤ (pos 0) rest then some rest else none);
    })

  -- `MarketUtils::get_token_client`
  abbrev pub get_token_client : BetStore L → Result Error Address
  get_token_client s = elim s.token_id [ some token ↦ ok token | none ↦ err invalid_state ]

  module _ (transfer : Address → Address → Address → ℤ → L → Option L) (contract : Address) where
    abbrev pub move : Address → Address → Address → ℤ → Action (BetStore L) Error (Unit {0})
    move token from to amount = do
      ledger ← gets (λ s. s.ledger)
      ledger' ← or_abort (transfer token from to amount ledger)
      modify (λ s. record s { ledger = ledger' })

    unfoldable pub lock_funds : Address → ℤ → Action (BetStore L) Error (Unit {0})
    lock_funds user amount = do
      token ← (λ s. (get_token_client s, s))
      with_guard (λ s. s.locks) (λ m s. record s { locks = m }) invalid_state lock_scope
          (move token user contract amount)

    unfoldable pub unlock_funds : Address → ℤ → Action (BetStore L) Error (Unit {0})
    unlock_funds user amount = do
      token ← (λ s. (get_token_client s, s))
      with_guard (λ s. s.locks) (λ m s. record s { locks = m }) invalid_state unlock_scope
          (move token contract user amount)
