-- ===== src/Markets/Tests.antt =====
-- Markets on small inputs (contracts/predictify-hybrid/src/types.rs, markets.rs).
use predictify_contracts.Base.{
  ℕ, ◌*◌, ◌≤◌, ◌≡◌, refl, none, some, true, false, List, [], ◌∷◌, arith,
}
use predictify_contracts.Base.Int.{pos, ◌-ℤ◌}
use predictify_contracts.Base.Maps.{empty, update}
use predictify_contracts.Base.Host.{Env}
use predictify_contracts.Base.Action.{ok, is_ok}
use predictify_contracts.Markets.{Market, MarketState, active, ended}
use predictify_contracts.Markets.Lifecycle.{
  active_ended, ended_disputed, disputed_resolved, resolved_closed, stay, then_step, Reach,
  Chain-bounded,
}
use predictify_contracts.Markets.Updates.{set_winning_outcomes}
use predictify_contracts.Markets.Updates.Course.{Op, run_all, run_all-Reach, Settled, resolved_once}
use predictify_contracts.Markets.Cache.{MarketStore}
use predictify_contracts.Markets.Cache.Plain.{
  Request, IsFresh, answers, plain_answers, answers_refine,
}
use predictify_contracts.Markets.Pause.{market, PauseStore, pause_market, is_market_paused}
use predictify_contracts.Markets.Payout.{calculate_payout}
use predictify_contracts.Markets.Payout.Solvency.{pay_all, payouts_bounded}

abbrev at : ℕ → Env
at t = record { now = t; authorized = λ a. true }

abbrev market_in : MarketState → Market
market_in state = record {
  admin = 1;
  question = "?";
  outcomes = 5 ∷ 6 ∷ [];
  end_time = 1000;
  oracle_config = record { feed_id = "BTC"; threshold = pos 5; comparison = "gt" };
  has_fallback = false;
  resolution_timeout = 60;
  oracle_result = none;
  votes = empty;
  stakes = empty;
  claimed = empty;
  total_staked = pos 0;
  dispute_stakes = [];
  winning_outcomes = none;
  fee_collected = false;
  state = state;
  total_extension_days = 0;
  max_extension_days = 30;
  category = none;
  tags = [];
  min_pool_size = none;
  bet_deadline = 0;
  dispute_window_seconds = 60;
  winnings_swept = false;
}

resolves : is_ok (set_winning_outcomes (5 ∷ []) (market_in ended)).0 ≡ true
unfolding set_winning_outcomes
resolves = refl

abbrev one_market : MarketStore
one_market = record { persistent = update empty 7 (some (market_in active)); cached = empty }

one_market-IsFresh : IsFresh one_market
one_market-IsFresh id m e = absurd (ground arith)

abbrev requests : List Request
requests =
    Request.read 7
    ∷ Request.write 7 (market_in ended)
    ∷ Request.read 7
    ∷ Request.discard 7
    ∷ Request.read 7
    ∷ []

abbrev pausable : PauseStore
pausable = record {
  admin = some 1;
  entry = update empty 7 (some (market (market_in active)));
  cached = empty;
}

pause_accepted : is_ok (pause_market false (at 5) 1 7 24 pausable).0 ≡ true
unfolding pause_market is_market_paused
pause_accepted = refl

payout_of_150 :
    calculate_payout {S = ℕ} (pos 150) (pos 400) (pos 1000) (pos 2) 0 ≡ (ok (pos 367), 0)
unfolding calculate_payout ◌-ℤ◌
payout_of_150 = refl

Chain-bounded_example : 4 ≤ 4
Chain-bounded_example = Chain-bounded (
    then_step active_ended
      (then_step ended_disputed (then_step disputed_resolved (then_step resolved_closed stay))))

-- a vote, and a resolution that comes too early
run_all-Reach_example :
    let ops = Op.vote 8 5 (pos 3) ∷ Op.resolve (5 ∷ []) ∷ [] in
    Reach active (run_all ops (market_in active)).state
run_all-Reach_example =
    run_all-Reach (Op.vote 8 5 (pos 3) ∷ Op.resolve (5 ∷ []) ∷ []) (market_in active)

resolved_once_example :
    let m = (set_winning_outcomes (5 ∷ []) (market_in ended)).1 in
    Settled (5 ∷ []) (run_all (Op.resolve (6 ∷ []) ∷ Op.collect ∷ []) m)
resolved_once_example =
    resolved_once (5 ∷ []) (Op.resolve (6 ∷ []) ∷ Op.collect ∷ []) (market_in ended) resolves

answers_refine_example : answers requests one_market ≡ plain_answers requests one_market.persistent
answers_refine_example = answers_refine requests one_market one_market-IsFresh

-- two winners with all the stakes of the winning side, at a fee of two percent
payouts_bounded_example :
    (paid : ℕ) × (pay_all {S = ℕ} 400 1000 2 (150 ∷ 250 ∷ []) 0 ≡ (ok paid, 0))
    × (100 * paid ≤ 98 * 1000)
payouts_bounded_example =
    payouts_bounded {S = ℕ} 400 1000 2 (150 ∷ 250 ∷ []) 0 (omega arith) (omega arith) (omega arith)
      (omega arith) (omega arith)
