-- ===== src/Bets/Settle/Tests.antt =====
-- The bets of a settled market on small inputs (contracts/predictify-hybrid/src/bets.rs), with a
-- token whose ledger is what each address holds.
use predictify_contracts.Base.{
  ◌≡◌, refl, Option, none, some, true, false, [], ◌∷◌, ◌==◌, if◌then◌else◌, arith,
}
use predictify_contracts.Base.Int.{ℤ, pos, ◌+ℤ◌, ◌-ℤ◌, ltb_ℤ}
use predictify_contracts.Base.Lists.{contains}
use predictify_contracts.Base.Maps.{Address, empty, update}
use predictify_contracts.Base.Host.{Env}
use predictify_contracts.Base.Action.{is_ok}
use predictify_contracts.Guard.{with_guard}
use predictify_contracts.Markets.{Market, active as trading}
use predictify_contracts.Markets.Cache.{get_market, update_market}
use predictify_contracts.Bets.{BetStore, Bet, new_bet, mark_as, cancelled}
use predictify_contracts.Bets.Storage.{unlock_funds, get_all_bets_for_market}
use predictify_contracts.Bets.Settle.{resolve_market_bets, refund_market_bets, refund_all}
use predictify_contracts.Bets.Settle.Resolved.{judged, resolve_market_bets_lem}
use predictify_contracts.Bets.Settle.Refunded.{repaid, refund_market_bets_ok}

abbrev at_5 : Env
at_5 = record { now = 5; authorized = λ a. true }

abbrev transfer : Address → Address → Address → ℤ → (Address → ℤ) → Option (Address → ℤ)
transfer token from to n holds =
    if ltb_ℤ (holds from) n
    then none
    else (let paid = update holds from (holds from -ℤ n) in some (update paid to (paid to +ℤ n)))

abbrev some_market : Market
some_market = record {
  admin = 1;
  question = "?";
  outcomes = 5 ∷ 6 ∷ [];
  end_time = 1000;
  oracle_config = record { feed_id = "BTC"; threshold = pos 5; comparison = "gt" };
  has_fallback = false;
  resolution_timeout = 60;
  oracle_result = none;
  votes = empty;
  stakes = empty;
  claimed = empty;
  total_staked = pos 0;
  dispute_stakes = [];
  winning_outcomes = none;
  fee_collected = false;
  state = trading;
  total_extension_days = 0;
  max_extension_days = 30;
  category = none;
  tags = [];
  min_pool_size = none;
  bet_deadline = 0;
  dispute_window_seconds = 60;
  winnings_swept = false;
}

-- 8 has an active bet on 5 in the market 7, and 3 a cancelled one
abbrev bet_of : Address → Option Bet
bet_of u =
    if u == 8
    then some (new_bet at_5 8 7 5 (pos 2000000))
    else (if u == 3 then some (mark_as cancelled (new_bet at_5 3 7 5 (pos 1000000))) else none)

abbrev played : BetStore (Address → ℤ)
played = record {
  bets = λ i u. if i == 7 then bet_of u else none;
  registry = update empty 7 (some (8 ∷ 3 ∷ []));
  stats = empty;
  event_limits = empty;
  global_limits = none;
  config_fees = none;
  fee_config = none;
  plat_fee = none;
  batches = λ u k. false;
  locks = empty;
  token_id = some 4;
  breaker = record { config = none; state = none; events = none; conditions = none; window = none };
  markets = record { persistent = update empty 7 (some some_market); cached = empty };
  ledger = λ a. if a == 9 then pos 2000000 else pos 0;
}

played-IsKeyed :
    (u : Address) (b : Bet) → played.bets 7 u ≡ some b → (b.market_id ≡ 7) × (b.user ≡ u)
played-IsKeyed u b e = ground arith

refund_accepted : is_ok (refund_market_bets transfer 9 7 played).0 ≡ true
unfolding refund_market_bets refund_all unlock_funds with_guard get_market update_market ◌+ℤ◌ ◌-ℤ◌
refund_accepted = refl

-- the cancelled bet of 3 is judged too
resolve_market_bets_lem_example : (resolve_market_bets 7 (5 ∷ []) played).1.bets 7 3 ≡ (
    if contains (get_all_bets_for_market 7 played) 3
    then judged (5 ∷ []) (played.bets 7 3)
    else played.bets 7 3)
resolve_market_bets_lem_example = resolve_market_bets_lem 7 (5 ∷ []) played 3 played-IsKeyed

refund_market_bets_ok_example : (refund_market_bets transfer 9 7 played).1.bets 7 8 ≡ (
    if contains (get_all_bets_for_market 7 played) 8
    then repaid (played.bets 7 8)
    else played.bets 7 8)
refund_market_bets_ok_example =
    refund_market_bets_ok transfer 9 7 played played-IsKeyed refund_accepted 8
