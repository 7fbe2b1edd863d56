-- ===== src/Disputes/Votes/Tests.antt =====
-- Votes on a dispute on small inputs (contracts/predictify-hybrid/src/disputes.rs), with a token
-- whose ledger is what each address holds.
use predictify_contracts.Base.{
  ◌≡◌, refl, Option, none, some, true, false, [], ◌∷◌, ◌==◌, if◌then◌else◌, arith,
}
use predictify_contracts.Base.Int.{ℤ, pos, ◌+ℤ◌, ◌-ℤ◌, ltb_ℤ}
use predictify_contracts.Base.Maps.{Address, empty, update}
use predictify_contracts.Base.Host.{Env}
use predictify_contracts.Base.Action.{is_ok}
use predictify_contracts.Markets.{Market, disputed}
use predictify_contracts.Markets.Cache.{get_market}
use predictify_contracts.Disputes.{DisputeStore, DisputeVote, DisputeVoting, active}
use predictify_contracts.Disputes.Votes.{
  add_vote_to_dispute, vote_on_dispute, distribute_dispute_fees, claim_dispute_winnings,
}
use predictify_contracts.Disputes.Votes.Twice.{IsCounted, vote_on_dispute_ok}
use predictify_contracts.Disputes.Votes.Stuck.{IsOpen, Op, run_all, votes_stay_stuck}

abbrev at_5 : Env
at_5 = record { now = 5; authorized = λ a. true }

abbrev transfer : Address → Address → Address → ℤ → (Address → ℤ) → Option (Address → ℤ)
transfer token from to n holds =
    if ltb_ℤ (holds from) n
    then none
    else (let paid = update holds from (holds from -ℤ n) in some (update paid to (paid to +ℤ n)))

abbrev disputed_market : Market
disputed_market = record {
  admin = 1;
  question = "?";
  outcomes = 5 ∷ 6 ∷ [];
  end_time = 1;
  oracle_config = record { feed_id = "BTC"; threshold = pos 5; comparison = "gt" };
  has_fallback = false;
  resolution_timeout = 60;
  oracle_result = some 5;
  votes = empty;
  stakes = empty;
  claimed = empty;
  total_staked = pos 0;
  dispute_stakes = (3, pos 10) ∷ [];
  winning_outcomes = none;
  fee_collected = false;
  state = disputed;
  total_extension_days = 0;
  max_extension_days = 30;
  category = none;
  tags = [];
  min_pool_size = none;
  bet_deadline = 0;
  dispute_window_seconds = 60;
  winnings_swept = false;
}

abbrev voting : DisputeVoting
voting = record {
  dispute_id = 2;
  voting_start = 0;
  voting_end = 100;
  total_votes = 1;
  support_votes = 1;
  against_votes = 0;
  total_support_stake = pos 20;
  total_against_stake = pos 0;
  status = active;
}

-- 8 has already voted with 20
abbrev polls : DisputeStore (Address → ℤ)
polls = record {
  votings = update empty 2 (some voting);
  votes = λ i u.
      if u == 8
      then some (record {
        user = 8;
        dispute_id = 2;
        vote = true;
        stake = pos 20;
        timestamp = 1;
        reason = none;
      })
      else none;
  claimed = λ i u. false;
  distributions = empty;
  token_id = some 4;
  markets = record { persistent = update empty 7 (some disputed_market); cached = empty };
  ledger = λ a. pos 50;
}

polls-IsOpen : IsOpen polls
polls-IsOpen = record { votings = λ i d e. ground arith; distributions = λ i. refl }

second_vote_accepted :
    is_ok (vote_on_dispute transfer 9 at_5 8 7 2 true (pos 30) none polls).0 ≡ true
unfolding vote_on_dispute add_vote_to_dispute get_market ◌+ℤ◌ ◌-ℤ◌
second_vote_accepted = refl

vote_on_dispute_ok_example :
    let s' = (vote_on_dispute transfer 9 at_5 8 7 2 true (pos 30) none polls).1 in
    let v : DisputeVote = record {
      user = 8;
      dispute_id = 2;
      vote = true;
      stake = pos 30;
      timestamp = 5;
      reason = none;
    } in
    ((token : Address) × (polls.token_id ≡ some token)
      × (transfer token 8 9 (pos 30) polls.ledger ≡ some s'.ledger))
    × IsCounted 2 v polls s'
vote_on_dispute_ok_example =
    vote_on_dispute_ok transfer 9 at_5 8 7 2 true (pos 30) none polls second_vote_accepted

votes_stay_stuck_example :
    let s =
      run_all transfer 9
        (Op.vote at_5 8 7 2 true (pos 30) none ∷ Op.distribute at_5 2 ∷ [])
        polls in
    (is_ok (distribute_dispute_fees at_5 2 s).0 ≡ false)
    × (is_ok (claim_dispute_winnings transfer 9 at_5 2 8 s).0 ≡ false)
votes_stay_stuck_example =
    votes_stay_stuck transfer 9 (Op.vote at_5 8 7 2 true (pos 30) none ∷ Op.distribute at_5 2 ∷ [])
      at_5 2 8 polls polls-IsOpen
