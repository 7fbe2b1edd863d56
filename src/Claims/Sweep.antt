-- ===== src/Claims/Sweep.antt =====
-- The sweep of winnings that nobody has claimed (contracts/predictify-hybrid/src/lib.rs,
-- `sweep_unclaimed_winnings` and the setters beside it) and its policy
-- (contracts/predictify-hybrid/src/recovery.rs). The host's order of the entries of a map is a
-- parameter. Events are left out.
pub mod Entered
pub mod Swept
pub mod Ended
pub mod Allowed
mod Tests
use predictify_contracts.Base.{
  ℕ, Option, none, some, Bool, true, false, not, ◌&&◌, ◌||◌, List, [], ◌∷◌, ◌==◌, leb,
  if◌then◌else◌,
}
use predictify_contracts.Base.Int.{ℤ, pos, ltb_ℤ, leb_ℤ, checked_add}
use predictify_contracts.Base.Lists.{contains}
use predictify_contracts.Base.Maps.{Address, Symbol, Map, update, get_or, has}
use predictify_contracts.Base.Words.{saturating_add_u64}
use predictify_contracts.Base.Host.{Env, require_auth}
use predictify_contracts.Base.Action.{
  Action, Result, pure, raise_if, gets, or_raise, modify, zoom, ◌>>=◌, ◌>>◌,
}
use predictify_contracts.Errors.{
  Error, admin_not_set, unauthorized, market_not_resolved, invalid_state, sweep_already_done,
  invalid_fee_config, invalid_input, config_not_found,
}
use predictify_contracts.Markets.{Outcome, Market}
use predictify_contracts.Markets.Cache.{MarketStore, get_market}
use predictify_contracts.Bets.{Bet}
use predictify_contracts.Bets.Storage.{get_bet, get_all_bets_for_market}
use predictify_contracts.Claims.{
  ClaimStore, Summary, with_claim, credit, load_market, save_market, payout_by,
}
use predictify_contracts.Claims.Distribution.{Carried, none_claimed}

-- the entries of the winnings, those under the keys `SYM_ADMIN` and `SYM_PLATFORM_FEE`, which no file
-- declares, and those of the policy, where a map of periods or of starts that is not there is empty
pub record SweepStore (L : Type 0) : Type 0 where
  pub bank : ClaimStore L
  pub admin : Option Address
  pub old_fee : Option ℤ
  pub claim_period_global : Option ℕ
  pub claim_period_market : Map ℕ
  pub claim_window_start : Map ℕ
  pub treasury_addr : Option Address

-- `DEFAULT_UNCLAIMED_CLAIM_PERIOD_SECONDS`
abbrev pub default_claim_period : ℕ
default_claim_period = 7776000

module _ {L : Type 0} where
  abbrev pub on_bank : {A : Type 0} → Action (ClaimStore L) Error A → Action (SweepStore L) Error A
  on_bank = zoom (λ s. s.bank) (λ b s. record s { bank = b })

  abbrev pub on_cache : {A : Type 0} → Action MarketStore Error A → Action (SweepStore L) Error A
  on_cache =
      zoom (λ s. s.bank.house.markets)
        (λ m s. record s { bank = record s.bank { house = record s.bank.house { markets = m } } })

  abbrev pub get_effective_claim_period : Symbol → SweepStore L → ℕ
  get_effective_claim_period id s =
      get_or (s.claim_period_market id) (get_or s.claim_period_global default_claim_period)

  abbrev pub get_claim_window_start : Symbol → ℕ → SweepStore L → ℕ
  get_claim_window_start id end_time s = get_or (s.claim_window_start id) end_time

  abbrev pub claim_deadline : Symbol → ℕ → SweepStore L → ℕ
  claim_deadline id end_time s =
      saturating_add_u64 (get_claim_window_start id end_time s) (get_effective_claim_period id s)

  abbrev pub is_claim_window_expired : Env → Symbol → ℕ → SweepStore L → Bool
  is_claim_window_expired env id end_time s = leb (claim_deadline id end_time s) env.now

  -- the comparison with the stored administrator; the signature is asked for before it
  abbrev pub require_stored_admin : Address → Action (SweepStore L) Error (Unit {0})
  require_stored_admin admin = do
    entry ← gets (λ s. s.admin)
    stored ← or_raise entry admin_not_set
    raise_if (not (admin == stored)) unauthorized

  abbrev pub set_global_claim_period : Env → Address → ℕ → Action (SweepStore L) Error (Unit {0})
  set_global_claim_period env admin seconds = do
    require_auth env admin
    raise_if (seconds == 0) invalid_input
    require_stored_admin admin
    modify (λ s. record s { claim_period_global = some seconds })

  pub set_market_claim_period : Env → Address → Symbol → ℕ → Action (SweepStore L) Error (Unit {0})
  set_market_claim_period env admin id seconds = do
    require_auth env admin
    raise_if (seconds == 0) invalid_input
    require_stored_admin admin
    on_cache (get_market id)
    modify (λ s. record s { claim_period_market = update s.claim_period_market id (some seconds) })

  abbrev pub set_treasury : Env → Address → Address → Action (SweepStore L) Error (Unit {0})
  set_treasury env admin treasury = do
    require_auth env admin
    require_stored_admin admin
    modify (λ s. record s { treasury_addr = some treasury })

  -- the winnings of one user, entered as claimed
  pub sweep_stake : Env → ℤ → Summary → Address → ℤ → Carried → Action (ClaimStore L) Error Carried
  unfolding payout_by
  sweep_stake env fee summary user stake c = do
    payout ← payout_by (pos 100) fee stake summary
    raise_if (ltb_ℤ payout (pos 0)) invalid_input
    sum ← or_raise (checked_add c.1 payout) invalid_input
    pure (with_claim env user payout c.0, sum)

  pub sweep_voter :
      Env
      → ℤ
      → Summary
      → List Outcome
      → Address × Outcome
      → Carried
      → Action (ClaimStore L) Error Carried
  unfolding sweep_stake
  sweep_voter env fee summary winning x c =
      let stake = get_or (c.0.stakes x.0) (pos 0) in
      if contains winning x.1 && none_claimed c.0 x.0 && ltb_ℤ (pos 0) stake
      then sweep_stake env fee summary x.0 stake c
      else pure c

  pub sweep_bet :
      Env
      → ℤ
      → Summary
      → List Outcome
      → Address
      → Carried
      → Option Bet
      → Action (ClaimStore L) Error Carried
  unfolding sweep_stake
  sweep_bet env fee summary winning user c none = pure c
  sweep_bet env fee summary winning user c (some b) =
      if contains winning b.outcome && none_claimed c.0 user && ltb_ℤ (pos 0) b.amount
      then sweep_stake env fee summary user b.amount c
      else pure c

  -- a bettor who voted, too, is passed over
  pub sweep_bettor :
      Env
      → ℤ
      → Summary
      → Symbol
      → List Outcome
      → Address
      → Carried
      → Action (ClaimStore L) Error Carried
  unfolding sweep_bet
  sweep_bettor env fee summary id winning user c = if has (c.0.votes user) then pure c else (do
    entry ← gets (λ s. get_bet id user s.house)
    sweep_bet env fee summary winning user c entry)

  pub sweep_each :
      {X : Type 0}
      → (X → Carried → Action (ClaimStore L) Error Carried)
      → List X
      → Carried
      → Action (ClaimStore L) Error Carried
  sweep_each turn [] c = pure c
  sweep_each turn (x ∷ xs) c = do c' ← turn x c; sweep_each turn xs c'

  -- the configuration's percentage, or that of the older entry
  abbrev pub sweep_fee : SweepStore L → ℤ
  sweep_fee s = elim s.bank.house.config_fees [
    | some terms ↦ terms.platform_fee_percentage
    | none ↦ get_or s.old_fee (pos 2)
  ]

  -- the treasury's share, unless it is burned
  pub sweep_to : Bool → ℤ → Action (SweepStore L) Error (Unit {0})
  sweep_to true total = pure tt
  sweep_to false total = do
    entry ← gets (λ s. s.treasury_addr)
    treasury ← or_raise entry config_not_found
    if ltb_ℤ (pos 0) total then (on_bank (credit treasury total) >> pure tt) else pure tt

  module _ (require : Symbol → Market → ClaimStore L → Result Error Summary) where
    module _ (entries : Map Outcome → List (Address × Outcome)) where
      -- both loops
      pub sweep_winners :
          Env → ℤ → Summary → Symbol → List Outcome → Market → Action (ClaimStore L) Error Carried
      unfolding sweep_each sweep_voter sweep_bettor
      sweep_winners env fee summary id winning m = do
        users ← gets (λ s. get_all_bets_for_market id s.house)
        c ← sweep_each (sweep_voter env fee summary winning) (entries m.votes) (m, pos 0)
        sweep_each (sweep_bettor env fee summary id winning) users c

      pub sweep_market :
          Env → Symbol → Bool → List Outcome → Market → ℤ → Summary → Action (SweepStore L) Error ℤ
      unfolding sweep_winners sweep_to
      sweep_market env id burn winning m fee summary =
          if leb_ℤ summary.winning_total (pos 0) then pure (pos 0) else (do
            c ← on_bank (sweep_winners env fee summary id winning m)
            sweep_to burn c.1
            on_bank (save_market id (record c.0 { winnings_swept = true }))
            pure c.1)

      -- what follows the checks of the market
      pub sweep_unswept :
          Env → Symbol → Bool → List Outcome → Market → Action (SweepStore L) Error ℤ
      unfolding sweep_market
      sweep_unswept env id burn winning m = do
        fee ← gets sweep_fee
        raise_if (ltb_ℤ fee (pos 0) || ltb_ℤ (pos 100) fee) invalid_fee_config
        summary ← on_bank (λ s. (require id m s, s))
        sweep_market env id burn winning m fee summary

      pub sweep_unclaimed_winnings : Env → Address → Symbol → Bool → Action (SweepStore L) Error ℤ
      unfolding sweep_unswept
      sweep_unclaimed_winnings env admin id burn = do
        require_auth env admin
        require_stored_admin admin
        m ← on_bank (load_market id)
        winning ← or_raise m.winning_outcomes market_not_resolved
        open_window ← gets (λ s. not (is_claim_window_expired env id m.end_time s))
        raise_if open_window invalid_state
        raise_if m.winnings_swept sweep_already_done
        sweep_unswept env id burn winning m
