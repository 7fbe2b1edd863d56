-- ===== src/Governance/Ballot.antt =====
-- Proposals and the votes on them (contracts/predictify-hybrid/src/governance.rs). The digest that
-- hides a committed vote and the call of a proposal's target are the host's: parameters.
pub mod Counting
pub mod Reveal
pub mod Execution
mod Tests
use Prim.Native.String.{String}
use text.Mathlib.Text.{◌==◌ as str_eq}
use predictify_contracts.Base.{
  ℕ, ◌+◌, ◌-◌, ◌*◌, ◌/◌, Option, none, some, Bool, true, false, not, ◌&&◌, ◌||◌, List, [], ◌∷◌,
  ◌++◌, ◌==◌, ltb, leb, if◌then◌else◌,
}
use predictify_contracts.Base.Maps.{Address, Symbol, update, update₂, get_or, has}
use predictify_contracts.Base.Words.{add_u128, mul_u128, saturating_add_u64}
use predictify_contracts.Base.Host.{Env, require_auth}
use predictify_contracts.Base.Action.{pure, raise_if, gets, or_raise, or_abort, modify, ◌>>=◌, ◌>>◌}
use predictify_contracts.Governance.{
  QuorumDecay, GovernanceProposal, GovernanceStore, Call, proposal_exists, proposal_not_found,
  voting_not_started, voting_ended, voting_still_active, already_voted, not_passed,
  already_executed, not_initialized, invalid_params, no_commitment, invalid_reveal,
  commitment_exists,
}
use predictify_contracts.Governance.Quorum.{compute_effective_quorum}

pub create_proposal :
    Env → Address → Symbol → String → String → Option Address → Option Symbol → Call Symbol
create_proposal env proposer id title description target call_fn = do
  require_auth env proposer
  raise_if (str_eq title "" || str_eq description "") invalid_params
  raise_if (if has target then not (has call_fn) else has call_fn) invalid_params
  initialized ← gets (λ s. has s.admin)
  raise_if (not initialized) not_initialized
  known ← gets (λ s. has (s.proposal id))
  raise_if known proposal_exists
  entry ← gets (λ s. s.voting_period)
  period ← or_raise entry not_initialized
  modify (λ s. record s {
    proposal = update s.proposal id (
        some (record {
          id = id;
          proposer = proposer;
          title = title;
          description = description;
          target = target;
          call_fn = call_fn;
          start_time = env.now;
          end_time = saturating_add_u64 env.now period;
          for_votes = 0;
          against_votes = 0;
          executed = false;
        }));
  })
  modify (λ s. record s { proposal_list = some (get_or s.proposal_list [] ++ id ∷ []) })
  pure id

-- a voter's weight: the own vote and one for each delegation
abbrev pub weight : GovernanceStore → Address → ℕ
weight s voter = 1 + get_or (s.delegate_count voter) 0

-- the common end of `vote` and `reveal_vote`: the weight is added and the vote recorded
pub count_vote : Address → Symbol → Bool → GovernanceProposal → Call (Unit {0})
count_vote voter id support p = do
  w ← gets (λ s. weight s voter)
  n ← or_abort (add_u128 (if support then p.for_votes else p.against_votes) w)
  modify (λ s. record s { vote_of = update₂ s.vote_of id voter (some (if support then 1 else 2)) })
  modify (λ s. record s {
    proposal =
        update s.proposal id
          (some (if support then record p { for_votes = n } else record p { against_votes = n }));
  })

pub vote : Env → Address → Symbol → Bool → Call (Unit {0})
unfolding count_vote
vote env voter id support = do
  require_auth env voter
  entry ← gets (λ s. s.proposal id)
  p ← or_raise entry proposal_not_found
  raise_if (ltb env.now p.start_time) voting_not_started
  raise_if (leb p.end_time env.now) voting_ended
  raise_if p.executed already_executed
  voted ← gets (λ s. has (s.vote_of id voter))
  raise_if voted already_voted
  count_vote voter id support p

pub commit_vote : Env → Address → Symbol → ℕ → Call (Unit {0})
commit_vote env voter id commitment = do
  require_auth env voter
  entry ← gets (λ s. s.proposal id)
  p ← or_raise entry proposal_not_found
  raise_if (ltb env.now p.start_time) voting_not_started
  raise_if (leb p.end_time env.now) voting_ended
  voted ← gets (λ s. has (s.vote_of id voter))
  raise_if voted already_voted
  committed ← gets (λ s. has (s.commitment id voter))
  raise_if committed commitment_exists
  modify (λ s. record s { commitment = update₂ s.commitment id voter (some commitment) })

-- the bytes whose digest is committed: the salt and the vote
abbrev pub preimage : List ℕ → Bool → List ℕ
preimage salt support = salt ++ (if support then 1 else 0) ∷ []

module _ (sha256 : List ℕ → ℕ) where
  pub reveal_vote : Env → Address → Symbol → List ℕ → Bool → Call (Unit {0})
  unfolding count_vote
  reveal_vote env voter id salt support = do
    require_auth env voter
    entry ← gets (λ s. s.commitment id voter)
    stored ← or_raise entry no_commitment
    raise_if (not (stored == sha256 (preimage salt support))) invalid_reveal
    entry' ← gets (λ s. s.proposal id)
    p ← or_raise entry' proposal_not_found
    raise_if (ltb env.now p.start_time) voting_not_started
    raise_if (leb p.end_time env.now) voting_ended
    voted ← gets (λ s. has (s.vote_of id voter))
    raise_if voted already_voted
    count_vote voter id support p
    modify (λ s. record s { commitment = update₂ s.commitment id voter none })

-- the outcome of a vote that has ended, with the reason
abbrev pub outcome : GovernanceProposal → ℕ → Bool × String
outcome p effective_quorum =
    if ltb p.for_votes effective_quorum
    then (false, "quorum not reached")
    else (if leb p.for_votes p.against_votes
        then (false, "not enough for votes")
        else (true, "passed"))

-- the floor that `validate_proposal` computes for the event of an automatic rejection
abbrev pub rejection_floor : ℕ → Option QuorumDecay → ℕ → Option ℕ
rejection_floor base none effective = some effective
rejection_floor base (some d) effective = mul_u128 base d.floor_bps

pub validate_proposal : Env → Symbol → Call (Bool × String)
validate_proposal env id = do
  entry ← gets (λ s. s.proposal id)
  p ← or_raise entry proposal_not_found
  raise_if (ltb env.now p.end_time) voting_still_active
  entry' ← gets (λ s. s.quorum_votes)
  base_quorum ← or_raise entry' not_initialized
  decay ← gets (λ s. get_or s.quorum_decay none)
  effective ← or_abort (compute_effective_quorum base_quorum decay (env.now - p.start_time))
  or_abort
      (if ltb p.for_votes effective then rejection_floor base_quorum decay effective else some 0)
  pure (outcome p effective)

module _ (invoke_contract : Address → Symbol → Call (Unit {0})) where
  -- the call of the target, where a proposal has one
  abbrev pub perform : Option Address → Option Symbol → Call (Unit {0})
  perform none f = pure tt
  perform (some t) none = pure tt
  perform (some t) (some f) = invoke_contract t f

  pub execute_proposal : Env → Address → Symbol → Call (Unit {0})
  unfolding validate_proposal
  execute_proposal env caller id = do
    require_auth env caller
    entry ← gets (λ s. s.proposal id)
    p ← or_raise entry proposal_not_found
    raise_if p.executed already_executed
    verdict ← validate_proposal env id
    raise_if (not verdict.0) not_passed
    perform p.target p.call_fn
    modify (λ s. record s { proposal = update s.proposal id (some (record p { executed = true })) })
