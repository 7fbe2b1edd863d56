-- ===== src/Disputes/Votes.antt =====
-- The operations of a dispute's vote (contracts/predictify-hybrid/src/disputes.rs,
-- `DisputeManager`).
pub mod Twice
pub mod Stuck
mod Tests
use Prim.Native.String.{String}
use predictify_contracts.Base.{
  ℕ, Option, some, none, Bool, true, false, not, ◌==◌, ◌&&◌, if◌then◌else◌,
}
use predictify_contracts.Base.Int.{ℤ, pos, pos_part, neg_part, checked_add, checked_mul, div_i128}
use predictify_contracts.Base.Words.{add_u32}
use predictify_contracts.Base.Maps.{Address, Symbol, update, update₂}
use predictify_contracts.Base.Host.{Env, require_auth}
use predictify_contracts.Base.Action.{
  Action, Result, ok, err, pure, raise_if, gets, or_raise, or_abort, modify, zoom, ◌>>=◌, ◌>>◌,
}
use predictify_contracts.Errors.{
  Error, disputer_cannot_vote, dispute_cond_not_met, dispute_fee_failed, invalid_state,
  already_claimed, nothing_to_claim, invalid_input,
}
use predictify_contracts.Markets.{Market}
use predictify_contracts.Markets.Cache.{get_market}
use predictify_contracts.Disputes.{
  DisputeVote, DisputeVoting, DisputeFeeDistribution, DisputeStore, is_completed, has_stake,
  calculate_stake_weighted_outcome, get_dispute_voting, get_dispute_fee_distribution,
  validate_dispute_voting_conditions, validate_user_hasnt_voted,
}

-- one side's count and stake with a vote added
abbrev pub tallied : DisputeVote → DisputeVoting → ℕ → ℕ → ℤ → DisputeVoting
tallied v d total votes stake =
    if v.vote
    then record d { total_votes = total; support_votes = votes; total_support_stake = stake }
    else record d { total_votes = total; against_votes = votes; total_against_stake = stake }

module _ {L : Type 0} where
  pub add_vote_to_dispute : Env → Symbol → DisputeVote → Action (DisputeStore L) Error (Unit {0})
  add_vote_to_dispute env id v = do
    d ← get_dispute_voting env id
    total ← or_abort (add_u32 d.total_votes 1)
    votes ← or_abort (add_u32 (if v.vote then d.support_votes else d.against_votes) 1)
    stake ←
        or_abort
          (checked_add (if v.vote then d.total_support_stake else d.total_against_stake) v.stake)
    modify (λ s. record s { votings = update s.votings id (some (tallied v d total votes stake)) })
    modify (λ s. record s { votes = update₂ s.votes id v.user (some v) })

  -- `calculate_dispute_outcome`
  pub calculate_dispute_outcome : Env → Symbol → Action (DisputeStore L) Error Bool
  calculate_dispute_outcome env id = do
    d ← get_dispute_voting env id
    raise_if (not (is_completed d.status)) dispute_cond_not_met
    pure (calculate_stake_weighted_outcome d)

  pub validate_dispute_resolution_conditions : Env → Symbol → Action (DisputeStore L) Error Bool
  validate_dispute_resolution_conditions env id = do
    d ← get_dispute_voting env id
    raise_if (not (is_completed d.status)) dispute_cond_not_met
    f ← gets (get_dispute_fee_distribution id)
    raise_if f.fees_distributed dispute_fee_failed
    pure true

  pub distribute_fees_based_on_outcome :
      Env → Symbol → DisputeVoting → Bool → Action (DisputeStore L) Error DisputeFeeDistribution
  distribute_fees_based_on_outcome env id d outcome = do
    total ← or_abort (checked_add d.total_support_stake d.total_against_stake)
    let f : DisputeFeeDistribution = record {
      dispute_id = id;
      total_fees = total;
      winner_stake = if outcome then d.total_support_stake else d.total_against_stake;
      loser_stake = if outcome then d.total_against_stake else d.total_support_stake;
      distribution_timestamp = env.now;
      fees_distributed = true;
    }
    modify (λ s. record s { distributions = update s.distributions id (some f) })
    pure f

  pub distribute_dispute_fees : Env → Symbol → Action (DisputeStore L) Error DisputeFeeDistribution
  distribute_dispute_fees env id = do
    validate_dispute_resolution_conditions env id
    outcome ← calculate_dispute_outcome env id
    d ← get_dispute_voting env id
    distribute_fees_based_on_outcome env id d outcome

  -- how `vote_on_dispute` begins, before the stake moves
  abbrev pub admit_vote : Env → Address → Symbol → Symbol → Action (DisputeStore L) Error (Unit {0})
  admit_vote env user market_id id = do
    require_auth env user
    m ← zoom (λ s. s.markets) (λ x s. record s { markets = x }) (get_market market_id)
    raise_if (has_stake m.dispute_stakes user) disputer_cannot_vote
    validate_dispute_voting_conditions env id
    validate_user_hasnt_voted env user id

  -- what a vote on the winning side is worth
  abbrev pub payout_of : ℤ → DisputeFeeDistribution → Action (DisputeStore L) Error ℤ
  payout_of stake f = do
    raise_if (pos_part f.winner_stake == 0 && neg_part f.winner_stake == 0) invalid_state
    product ← or_raise (checked_mul stake f.loser_stake) invalid_input
    bonus ← or_abort (div_i128 product f.winner_stake)
    or_raise (checked_add stake bonus) invalid_input

  module _ (transfer : Address → Address → Address → ℤ → L → Option L) (contract : Address) where
    -- `transfer_stake` and `transfer_winnings`
    abbrev pub move : Address → Address → ℤ → Action (DisputeStore L) Error (Unit {0})
    move from to amount = do
      entry ← gets (λ s. s.token_id)
      token ← or_raise entry invalid_state
      ledger ← gets (λ s. s.ledger)
      ledger' ← or_abort (transfer token from to amount ledger)
      modify (λ s. record s { ledger = ledger' })

    pub vote_on_dispute :
        Env
        → Address
        → Symbol
        → Symbol
        → Bool
        → ℤ
        → Option String
        → Action (DisputeStore L) Error (Unit {0})
    vote_on_dispute env user market_id id vote stake reason = do
      admit_vote env user market_id id
      move user contract stake
      add_vote_to_dispute env id (record {
        user = user;
        dispute_id = id;
        vote = vote;
        stake = stake;
        timestamp = env.now;
        reason = reason;
      })

    pub claim_dispute_winnings : Env → Symbol → Address → Action (DisputeStore L) Error ℤ
    claim_dispute_winnings env id user = do
      require_auth env user
      f ← gets (get_dispute_fee_distribution id)
      raise_if (not f.fees_distributed) invalid_state
      before ← gets (λ s. s.claimed id user)
      raise_if before already_claimed
      entry ← gets (λ s. s.votes id user)
      v ← or_raise entry nothing_to_claim
      d ← get_dispute_voting env id
      raise_if (if calculate_stake_weighted_outcome d then not v.vote else v.vote) nothing_to_claim
      payout ← payout_of v.stake f
      modify (λ s. record s { claimed = update₂ s.claimed id user true })
      move contract user payout
      pure payout
