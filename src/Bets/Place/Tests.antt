-- ===== src/Bets/Place/Tests.antt =====
-- Bets on small inputs (contracts/predictify-hybrid/src/bets.rs), with a token whose ledger is what
-- each address holds.
use predictify_contracts.Base.{
  ◌≡◌, refl, Option, none, some, true, false, [], ◌∷◌, ◌==◌, if◌then◌else◌, arith,
}
use predictify_contracts.Base.Int.{ℤ, pos, ◌+ℤ◌, ◌-ℤ◌, ltb_ℤ}
use predictify_contracts.Base.Maps.{Address, empty, update}
use predictify_contracts.Base.Host.{Env}
use predictify_contracts.Base.Action.{is_ok}
use predictify_contracts.Breaker.{BreakerStore, default_config, default_state}
use predictify_contracts.Breaker.Control.Pause.{closed_allows}
use predictify_contracts.Guard.{with_guard}
use predictify_contracts.Markets.{Market, active as trading}
use predictify_contracts.Markets.Cache.{get_market, update_market}
use predictify_contracts.Bets.{BetStore, Bet, new_bet, validate_market_for_betting}
use predictify_contracts.Bets.Limits.{
  validate_bet_parameters, validate_fee_slippage, check_live_fee,
}
use predictify_contracts.Bets.Storage.{
  lock_funds, unlock_funds, update_market_bet_stats, update_market_bet_stats_on_cancel,
}
use predictify_contracts.Bets.Place.{
  place_bet, place_bet_inner, open_bet, admit_bet, enter_bet, cancel_bet, open_cancel, take_back,
}
use predictify_contracts.Bets.Place.Placed.{IsPlaced, place_bet_ok}
use predictify_contracts.Bets.Place.Cancelled.{IsCancelled, cancel_bet_ok}
use predictify_contracts.Bets.Place.Locked.{IsBooked}
use predictify_contracts.Bets.Place.Course.{Op, run_all, run_all-IsBooked}

abbrev at_5 : Env
at_5 = record { now = 5; authorized = λ a. true }

abbrev transfer : Address → Address → Address → ℤ → (Address → ℤ) → Option (Address → ℤ)
transfer token from to n holds =
    if ltb_ℤ (holds from) n
    then none
    else (let paid = update holds from (holds from -ℤ n) in some (update paid to (paid to +ℤ n)))

abbrev running : BreakerStore
running = record {
  config = some default_config;
  state = some (default_state at_5);
  events = some [];
  conditions = some [];
  window = none;
}

abbrev open_market : Market
open_market = record {
  admin = 1;
  question = "?";
  outcomes = 5 ∷ 6 ∷ [];
  end_time = 1000;
  oracle_config = record { feed_id = "BTC"; threshold = pos 5; comparison = "gt" };
  has_fallback = false;
  resolution_timeout = 60;
  oracle_result = none;
  votes = empty;
  stakes = empty;
  claimed = empty;
  total_staked = pos 0;
  dispute_stakes = [];
  winning_outcomes = none;
  fee_collected = false;
  state = trading;
  total_extension_days = 0;
  max_extension_days = 30;
  category = none;
  tags = [];
  min_pool_size = none;
  bet_deadline = 0;
  dispute_window_seconds = 60;
  winnings_swept = false;
}

-- 8 holds 5000000 of the token 4, and the market 7 is open
abbrev house : BetStore (Address → ℤ)
house = record {
  bets = λ i u. none;
  registry = empty;
  stats = empty;
  event_limits = empty;
  global_limits = none;
  config_fees = none;
  fee_config = none;
  plat_fee = none;
  batches = λ u k. false;
  locks = empty;
  token_id = some 4;
  breaker = running;
  markets = record { persistent = update empty 7 (some open_market); cached = empty };
  ledger = λ a. if a == 8 then pos 5000000 else pos 0;
}

house-IsBooked : IsBooked house
house-IsBooked = record {
  distinct = λ i. tt;
  listed = λ i u b e. absurd (ground arith);
  keyed = λ i u b e. absurd (ground arith);
  sum = λ i. refl;
  fits = λ i. refl;
  limits = λ i. (omega arith, omega arith, omega arith);
}

bet_accepted : is_ok (place_bet transfer 9 at_5 8 7 5 (pos 2000000) (pos 200) house).0 ≡ true
unfolding place_bet place_bet_inner open_bet admit_bet enter_bet lock_funds update_market_bet_stats
    with_guard get_market update_market validate_market_for_betting validate_bet_parameters
    validate_fee_slippage check_live_fee ◌+ℤ◌ ◌-ℤ◌
bet_accepted = rw ((closed_allows at_5 "betting" running refl refl).0) refl

-- the store with the bet of 8 on 5, held by the contract 9
abbrev taken : BetStore (Address → ℤ)
taken = record house {
  bets = λ i u.
      if i == 7 then (if u == 8 then some (new_bet at_5 8 7 5 (pos 2000000)) else none) else none;
  registry = update empty 7 (some (8 ∷ []));
  ledger = λ a. if a == 9 then pos 2000000 else pos 0;
}

cancel_accepted : is_ok (cancel_bet transfer 9 at_5 8 7 taken).0 ≡ true
unfolding cancel_bet open_cancel take_back unlock_funds update_market_bet_stats_on_cancel with_guard
    get_market update_market ◌+ℤ◌ ◌-ℤ◌
cancel_accepted = rw ((closed_allows at_5 "cancel_bet" running refl refl).0) refl

place_bet_ok_example :
    (m : Market) × IsPlaced transfer 9 at_5 8 7 5
      (pos 2000000)
      (pos 200)
      house
      (place_bet transfer 9 at_5 8 7 5 (pos 2000000) (pos 200) house).1
      m
place_bet_ok_example = place_bet_ok transfer 9 at_5 8 7 5 (pos 2000000) (pos 200) house bet_accepted

cancel_bet_ok_example :
    (b : Bet) × (m : Market) × IsCancelled transfer 9 at_5 8 7 taken
      (cancel_bet transfer 9 at_5 8 7 taken).1
      b
      m
cancel_bet_ok_example = cancel_bet_ok transfer 9 at_5 8 7 taken cancel_accepted

run_all-IsBooked_example :
    let ops = Op.place at_5 8 7 5 (pos 2000000) (pos 200) ∷ Op.cancel at_5 8 7 ∷ [] in
    IsBooked (run_all transfer 9 ops house)
run_all-IsBooked_example =
    run_all-IsBooked transfer 9
      (Op.place at_5 8 7 5 (pos 2000000) (pos 200) ∷ Op.cancel at_5 8 7 ∷ []) house house-IsBooked
