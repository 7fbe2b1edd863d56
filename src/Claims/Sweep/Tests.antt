-- ===== src/Claims/Sweep/Tests.antt =====
-- A sweep on small inputs (contracts/predictify-hybrid/src/lib.rs, `sweep_unclaimed_winnings`).
use predictify_contracts.Base.{
  ◌≡◌, refl, none, some, true, false, [], ◌∷◌, ◌==◌, if◌then◌else◌, arith,
}
use predictify_contracts.Base.Int.{ℤ, pos, ◌+ℤ◌, ◌-ℤ◌}
use predictify_contracts.Base.Maps.{Symbol, empty, update}
use predictify_contracts.Base.Host.{Env}
use predictify_contracts.Base.Action.{Result, ok, is_ok}
use predictify_contracts.Errors.{Error}
use predictify_contracts.Breaker.{BreakerStore, default_config, default_state}
use predictify_contracts.Balances.{add_balance}
use predictify_contracts.Balances.Exact.{IsKeyed}
use predictify_contracts.Markets.{Market, resolved}
use predictify_contracts.Claims.{ClaimStore, Summary, vault, payout_by}
use predictify_contracts.Claims.Sweep.{
  SweepStore, sweep_stake, sweep_voter, sweep_bet, sweep_bettor, sweep_each, sweep_to,
  sweep_winners, sweep_market, sweep_unswept, sweep_unclaimed_winnings,
}
use predictify_contracts.Claims.Sweep.Allowed.{IsAllowed, sweep_unclaimed_winnings_ok}

abbrev at_late : Env
at_late = record { now = 10000000; authorized = λ a. true }

abbrev running : BreakerStore
running = record {
  config = some default_config;
  state = some (default_state at_late);
  events = some [];
  conditions = some [];
  window = none;
}

-- 8 has 200 on the outcome that won, 5, and 9 has 300 on 6
abbrev won_market : Market
won_market = record {
  admin = 1;
  question = "?";
  outcomes = 5 ∷ 6 ∷ [];
  end_time = 1000;
  oracle_config = record { feed_id = "BTC"; threshold = pos 5; comparison = "gt" };
  has_fallback = false;
  resolution_timeout = 60;
  oracle_result = none;
  votes = λ u. if u == 8 then some 5 else (if u == 9 then some 6 else none);
  stakes = λ u. if u == 8 then some (pos 200) else (if u == 9 then some (pos 300) else none);
  claimed = empty;
  total_staked = pos 500;
  dispute_stakes = [];
  winning_outcomes = some (5 ∷ []);
  fee_collected = false;
  state = resolved;
  total_extension_days = 0;
  max_extension_days = 30;
  category = none;
  tags = [];
  min_pool_size = none;
  bet_deadline = 0;
  dispute_window_seconds = 60;
  winnings_swept = false;
}

abbrev totals : Summary
totals = record { winning_total = pos 200; total_pool = pos 500; num_winning_outcomes = 1 }

abbrev bank_with : ℤ → ClaimStore Unit
bank_with percentage = record {
  house = record {
    bets = λ i u. none;
    registry = empty;
    stats = empty;
    event_limits = empty;
    global_limits = none;
    config_fees = some (record { platform_fee_percentage = percentage; fees_enabled = true });
    fee_config = none;
    plat_fee = none;
    batches = λ u k. false;
    locks = empty;
    token_id = some 4;
    breaker = running;
    markets = record { persistent = update empty 7 (some won_market); cached = empty };
    ledger = tt;
  };
  balance = λ u a. none;
  platform_fee = none;
  stats = record { platform = none; users = empty; pushed = [] };
}

abbrev total_of : Symbol → Market → ClaimStore Unit → Result Error Summary
total_of i m s = ok totals

bank-IsKeyed : (p : ℤ) → IsKeyed (vault (bank_with p))
bank-IsKeyed p u b e = absurd (ground arith)

-- the bank with the administrator 1 and the treasury 3
abbrev to_sweep : SweepStore Unit
to_sweep = record {
  bank = bank_with (pos 2);
  admin = some 1;
  old_fee = none;
  claim_period_global = none;
  claim_period_market = empty;
  claim_window_start = empty;
  treasury_addr = some 3;
}

sweep_accepted :
    is_ok
      (sweep_unclaimed_winnings total_of
        (λ votes. (8, 5) ∷ (9, 6) ∷ [])
        at_late
        1
        7
        false
        to_sweep).0
    ≡ true
unfolding sweep_unclaimed_winnings sweep_unswept sweep_market sweep_winners sweep_each sweep_voter
    sweep_bettor sweep_bet sweep_stake sweep_to payout_by add_balance ◌+ℤ◌ ◌-ℤ◌
sweep_accepted = refl

sweep_unclaimed_winnings_ok_example :
    IsAllowed total_of
      (λ votes. (8, 5) ∷ (9, 6) ∷ [])
      at_late
      7
      false
      1
      to_sweep
      (sweep_unclaimed_winnings total_of (λ votes. (8, 5) ∷ (9, 6) ∷ []) at_late 1 7 false to_sweep)
sweep_unclaimed_winnings_ok_example =
    sweep_unclaimed_winnings_ok total_of (λ votes. (8, 5) ∷ (9, 6) ∷ []) at_late 7 false 1 to_sweep
      (bank-IsKeyed (pos 2)) sweep_accepted
