-- ===== src/Claims/Tests.antt =====
-- Claims on small inputs (contracts/predictify-hybrid/src/lib.rs, `claim_winnings`).
use predictify_contracts.Base.{
  ◌≡◌, ◌≢◌, refl, sym, ap, ap₂, List, Option, none, some, true, false, [], ◌∷◌, ◌==◌, if◌then◌else◌,
  arith,
}
use predictify_contracts.Base.Int.{ℤ, pos, ◌+ℤ◌, ◌-ℤ◌}
use predictify_contracts.Base.Lists.{contains}
use predictify_contracts.Base.Maps.{Symbol, empty, update, get_or}
use predictify_contracts.Base.Host.{Env}
use predictify_contracts.Base.Action.{Result, ok, is_ok}
use predictify_contracts.Errors.{Error}
use predictify_contracts.Breaker.{BreakerStore, default_config, default_state}
use predictify_contracts.Breaker.Control.Pause.{closed_allows}
use predictify_contracts.Balances.{add_balance}
use predictify_contracts.Balances.Exact.{IsKeyed}
use predictify_contracts.Markets.{Market, Outcome, resolved}
use predictify_contracts.Claims.{
  ClaimStore, Summary, vault, payout_by, gross_payout, pay_winner, settle_claim, claim_winnings,
}
use predictify_contracts.Claims.Opened.{IsOpened, entered}
use predictify_contracts.Claims.Granted.{Settles, claim_winnings_ok}
use predictify_contracts.Claims.Denied.{IsWinner, winners_denied}
use predictify_contracts.Claims.Distribution.Accounted.{IsSettled}
use predictify_contracts.Claims.Run.{claim, distribute, run_calls, run_calls-IsSettled}

abbrev at_2000 : Env
at_2000 = record { now = 2000; authorized = λ a. true }

abbrev running : BreakerStore
running = record {
  config = some default_config;
  state = some (default_state at_2000);
  events = some [];
  conditions = some [];
  window = none;
}

-- 8 has 200 on the outcome that won, 5, and 9 has 300 on 6
abbrev won_market : Market
won_market = record {
  admin = 1;
  question = "?";
  outcomes = 5 ∷ 6 ∷ [];
  end_time = 1000;
  oracle_config = record { feed_id = "BTC"; threshold = pos 5; comparison = "gt" };
  has_fallback = false;
  resolution_timeout = 60;
  oracle_result = none;
  votes = λ u. if u == 8 then some 5 else (if u == 9 then some 6 else none);
  stakes = λ u. if u == 8 then some (pos 200) else (if u == 9 then some (pos 300) else none);
  claimed = empty;
  total_staked = pos 500;
  dispute_stakes = [];
  winning_outcomes = some (5 ∷ []);
  fee_collected = false;
  state = resolved;
  total_extension_days = 0;
  max_extension_days = 30;
  category = none;
  tags = [];
  min_pool_size = none;
  bet_deadline = 0;
  dispute_window_seconds = 60;
  winnings_swept = false;
}

abbrev totals : Summary
totals = record { winning_total = pos 200; total_pool = pos 500; num_winning_outcomes = 1 }

abbrev bank_with : ℤ → ClaimStore Unit
bank_with percentage = record {
  house = record {
    bets = λ i u. none;
    registry = empty;
    stats = empty;
    event_limits = empty;
    global_limits = none;
    config_fees = some (record { platform_fee_percentage = percentage; fees_enabled = true });
    fee_config = none;
    plat_fee = none;
    batches = λ u k. false;
    locks = empty;
    token_id = some 4;
    breaker = running;
    markets = record { persistent = update empty 7 (some won_market); cached = empty };
    ledger = tt;
  };
  balance = λ u a. none;
  platform_fee = none;
  stats = record { platform = none; users = empty; pushed = [] };
}

abbrev total_of : Symbol → Market → ClaimStore Unit → Result Error Summary
total_of i m s = ok totals

bank-IsKeyed : (p : ℤ) → IsKeyed (vault (bank_with p))
bank-IsKeyed p u b e = absurd (ground arith)

claim_accepted : is_ok (claim_winnings total_of at_2000 8 7 (bank_with (pos 2))).0 ≡ true
unfolding claim_winnings settle_claim pay_winner payout_by gross_payout add_balance ◌+ℤ◌ ◌-ℤ◌
claim_accepted = rw ((closed_allows at_2000 "claim_winnings" running refl refl).0) refl

claim_winnings_ok_example :
    (o : IsOpened total_of at_2000 8 7 (bank_with (pos 2))) × Settles at_2000 8 7 o.market total_of
      o.winning o.outcome
      (entered total_of at_2000 8 7 (bank_with (pos 2)))
      (claim_winnings total_of at_2000 8 7 (bank_with (pos 2))).1
claim_winnings_ok_example =
    claim_winnings_ok total_of at_2000 8 7 (bank_with (pos 2)) (bank-IsKeyed (pos 2)) claim_accepted

winner : IsWinner total_of 8 7 won_market
winner = record {
  wins = λ winning outcome e f.
      ap₂ contains (ap (λ (o : Option (List Outcome)). get_or o []) (sym e))
        (ap (λ (o : Option Outcome). get_or o 5) (sym f));
  stake = 200;
  staked = refl;
  summary = totals;
  summarised = λ t. refl;
  pool = 500;
  pooled = refl;
  rest = 199;
  won = refl;
}

winners_denied_example : is_ok (claim_winnings total_of at_2000 8 7 (bank_with (pos 200))).0 ≢ true
winners_denied_example =
    winners_denied total_of at_2000 8 7 won_market
      (record { platform_fee_percentage = pos 200; fees_enabled = true }) 200 (bank_with (pos 200))
      (bank-IsKeyed (pos 200)) refl winner refl refl (omega arith)

run_calls-IsSettled_example : IsSettled 7 (bank_with (pos 2)) won_market (
    run_calls total_of
      (λ votes. (8, 5) ∷ (9, 6) ∷ [])
      (λ loop n. false)
      7
      (claim at_2000 8 ∷ distribute at_2000 ∷ [])
      (bank_with (pos 2)))
run_calls-IsSettled_example =
    run_calls-IsSettled total_of (λ votes. (8, 5) ∷ (9, 6) ∷ []) (λ loop n. false) 7
      (claim at_2000 8 ∷ distribute at_2000 ∷ []) won_market (bank_with (pos 2))
      (bank-IsKeyed (pos 2)) refl
