-- ===== src/Claims.antt =====
-- Winnings (contracts/predictify-hybrid/src/lib.rs, `claim_winnings` and `distribute_payouts`): what
-- they keep, and the claim of one user. `ResolutionOutcomeCache::require` is called there and stands
-- nowhere in the repository, so it is a parameter: the summary of a market, or an error. The analytics
-- cache and events are left out. The code that an error carries out of `panic_with_error` ends the
-- invocation like an error that is returned.
pub mod Steps
pub mod Opened
pub mod Gap
pub mod Granted
pub mod Denied
pub mod Distribution
pub mod Run
pub mod Sweep
mod Tests
use predictify_contracts.Base.{
  ℕ, ◌+◌, Option, none, some, Bool, true, false, not, ◌&&◌, List, ltb, if◌then◌else◌,
}
use predictify_contracts.Base.Int.{ℤ, pos, ltb_ℤ, checked_sub, checked_mul, div_i128}
use predictify_contracts.Base.Lists.{contains}
use predictify_contracts.Base.Maps.{Address, Symbol, Map, update, get_or}
use predictify_contracts.Base.Words.{add_u64}
use predictify_contracts.Base.Host.{Env, require_auth}
use predictify_contracts.Base.Action.{
  Action, Result, ok, err, pure, raise_if, gets, or_raise, or_abort, modify, zoom, ◌>>=◌, ◌>>◌,
}
use predictify_contracts.Errors.{
  Error, market_not_found, market_not_resolved, already_claimed, invalid_state, nothing_to_claim,
  config_not_found, invalid_input,
}
use predictify_contracts.Balances.{ReflectorAsset, stellar, Balance, VaultStore, add_balance}
use predictify_contracts.Breaker.{BreakerStore}
use predictify_contracts.Breaker.Control.{require_write_allowed}
use predictify_contracts.Markets.{Outcome, Market, ClaimInfo}
use predictify_contracts.Bets.{BetStore, FeeTerms}
use predictify_contracts.Statistics.{StatStore, record_winnings_claimed, record_fees_collected}

-- the entries of the bets and markets, of the balances and of the statistics, and "platform_fee"
pub record ClaimStore (L : Type 0) : Type 0 where
  pub house : BetStore L
  pub balance : Address → ReflectorAsset → Option Balance
  pub platform_fee : Option ℤ
  pub stats : StatStore

-- `ResolvedOutcomeSummary`
pub record Summary : Type 0 where
  pub winning_total : ℤ
  pub total_pool : ℤ
  pub num_winning_outcomes : ℕ

-- `ClaimInfo::new`
abbrev pub new_claim : Env → ℤ → ClaimInfo
new_claim env payout = record { claimed = true; timestamp = env.now; payout_amount = payout }

abbrev pub is_claimed : Option ClaimInfo → Bool
is_claimed none = false
is_claimed (some info) = info.claimed

abbrev pub with_claim : Env → Address → ℤ → Market → Market
with_claim env user payout m = record m {
  claimed = update m.claimed user (some (new_claim env payout));
}

module _ {L : Type 0} where
  abbrev pub vault : ClaimStore L → VaultStore L
  vault s = record {
    balance = s.balance;
    token_id = s.house.token_id;
    locks = s.house.locks;
    breaker = s.house.breaker;
    ledger = s.house.ledger;
  }

  -- `BalanceStorage::add_balance`, which writes balances only
  abbrev pub credit : Address → ℤ → Action (ClaimStore L) Error Balance
  credit user amount =
      zoom vault (λ v s. record s { balance = v.balance }) (add_balance user stellar amount)

  abbrev pub on_breaker : {A : Type 0} → Action BreakerStore Error A → Action (ClaimStore L) Error A
  on_breaker =
      zoom (λ s. s.house.breaker) (λ b s. record s { house = record s.house { breaker = b } })

  -- the entry under the market's id, read and written past the cache
  abbrev pub load_market : Symbol → Action (ClaimStore L) Error Market
  load_market id = do
    entry ← gets (λ s. s.house.markets.persistent id)
    or_raise entry market_not_found

  abbrev pub save_market : Symbol → Market → Action (ClaimStore L) Error (Unit {0})
  save_market id m = modify (λ s. record s {
    house = record s.house {
      markets = record s.house.markets {
        persistent = update s.house.markets.persistent id (some m);
      };
    };
  })

  -- the end of the dispute window is only computed where there is one
  abbrev pub past_close : Env → Market → Bool → Action (ClaimStore L) Error (Unit {0})
  past_close env m true = do
    close ← or_abort (add_u64 m.end_time m.dispute_window_seconds)
    raise_if (ltb env.now close) invalid_state
  past_close env m false = pure tt

  abbrev pub after_window : Env → Market → Action (ClaimStore L) Error (Unit {0})
  after_window env m = past_close env m (ltb 0 m.dispute_window_seconds)

  -- a payout by a rate out of a denominator
  pub payout_by : ℤ → ℤ → ℤ → Summary → Action (ClaimStore L) Error ℤ
  payout_by denominator fee stake summary = do
    rate ← or_abort (checked_sub denominator fee)
    part ← or_raise (checked_mul stake rate) invalid_input
    share ← or_abort (div_i128 part denominator)
    product ← or_raise (checked_mul share summary.total_pool) invalid_input
    or_abort (div_i128 product summary.winning_total)

  -- the stake's part of the pool without the fee
  pub gross_payout : ℤ → Summary → Action (ClaimStore L) Error ℤ
  gross_payout stake summary = do
    whole ← or_raise (checked_mul stake (pos 100)) invalid_input
    product ← or_raise (checked_mul stake summary.total_pool) invalid_input
    or_abort (div_i128 product summary.winning_total)

  abbrev pub configured_fee : Action (ClaimStore L) Error ℤ
  configured_fee = do
    entry ← gets (λ s. s.house.config_fees)
    terms ← or_raise entry config_not_found
    pure terms.platform_fee_percentage

  -- a winner's claim, up to the payment
  pub pay_winner :
      Env → Address → Symbol → Market → ℤ → Summary → Action (ClaimStore L) Error (Unit {0})
  unfolding payout_by gross_payout
  pay_winner env user id m stake summary = do
    fee ← configured_fee
    payout ← payout_by (pos 100) fee stake summary
    gross ← gross_payout stake summary
    fee_amount ← or_abort (checked_sub gross payout)
    modify (λ s. record s { stats = record_winnings_claimed env user payout s.stats })
    modify (λ s. record s { stats = record_fees_collected fee_amount s.stats })
    save_market id (with_claim env user payout m)
    credit user payout
    pure tt

  -- a claim that pays nothing is entered all the same
  abbrev pub void_claim : Env → Address → Symbol → Market → Action (ClaimStore L) Error (Unit {0})
  void_claim env user id m = save_market id (with_claim env user (pos 0) m)

  abbrev pub pay_from :
      Env → Address → Symbol → Market → Summary → Action (ClaimStore L) Error (Unit {0})
  unfolding pay_winner
  pay_from env user id m summary =
      if ltb_ℤ (pos 0) summary.winning_total
      then pay_winner env user id m (get_or (m.stakes user) (pos 0)) summary
      else void_claim env user id m

  module _ (require : Symbol → Market → ClaimStore L → Result Error Summary) where
    -- what a claim does once the user's outcome is known
    pub settle_claim :
        Env
        → Address
        → Symbol
        → Market
        → List Outcome
        → Outcome
        → Action (ClaimStore L) Error (Unit {0})
    unfolding pay_winner
    settle_claim env user id m winning outcome =
        if contains winning outcome
        then ((λ s. (require id m s, s)) >>= pay_from env user id m)
        else void_claim env user id m

    pub claim_winnings : Env → Address → Symbol → Action (ClaimStore L) Error (Unit {0})
    unfolding settle_claim
    claim_winnings env user id = do
      on_breaker (require_write_allowed env "claim_winnings")
      require_auth env user
      m ← load_market id
      raise_if (is_claimed (m.claimed user)) already_claimed
      winning ← or_raise m.winning_outcomes market_not_resolved
      after_window env m
      outcome ← or_raise (m.votes user) nothing_to_claim
      settle_claim env user id m winning outcome
