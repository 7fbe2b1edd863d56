-- ===== src/Disputes.antt =====
-- Voting on a dispute, and the distribution and the claims after it
-- (contracts/predictify-hybrid/src/disputes.rs, and `VotingUtils` of
-- contracts/predictify-hybrid/src/voting.rs for the transfers). Events and the list of the winners'
-- addresses, which stays empty, are left out. The token contract's `transfer` is a parameter, where
-- `none` is a transfer that fails and so panics.
pub mod Votes
use Prim.Native.String.{String}
use predictify_contracts.Base.{
  ℕ, ◌+◌, ◌*◌, Option, some, none, Bool, true, false, not, ◌||◌, List, [], ◌∷◌, ◌==◌, ltb,
  if◌then◌else◌,
}
use predictify_contracts.Base.Int.{
  ℤ, pos, pos_part, neg_part, ltb_ℤ, checked_add, checked_mul, div_i128,
}
use predictify_contracts.Base.Words.{add_u32, add_u64}
use predictify_contracts.Base.Lists.{is_empty}
use predictify_contracts.Base.Maps.{Address, Symbol, Map, update, update₂, get_or}
use predictify_contracts.Base.Host.{Env, require_auth}
use predictify_contracts.Base.Action.{
  Action, Result, ok, err, pure, raise_if, lift, gets, or_raise, or_abort, modify, zoom, ◌>>=◌,
  ◌>>◌,
}
use predictify_contracts.Errors.{
  Error, disputer_cannot_vote, dispute_vote_expired, dispute_vote_denied, dispute_already_voted,
  dispute_cond_not_met, dispute_fee_failed, invalid_state, already_claimed, nothing_to_claim,
  invalid_input,
}
use predictify_contracts.Markets.{Market}
use predictify_contracts.Markets.Cache.{MarketStore, get_market}

pub data DisputeVotingStatus : Type 0 where
  active completed expired cancelled : DisputeVotingStatus

abbrev pub is_active : DisputeVotingStatus → Bool
is_active active = true
is_active completed = false
is_active expired = false
is_active cancelled = false

abbrev pub is_completed : DisputeVotingStatus → Bool
is_completed active = false
is_completed completed = true
is_completed expired = false
is_completed cancelled = false

pub record DisputeVote : Type 0 where
  pub user : Address
  pub dispute_id : Symbol
  pub vote : Bool
  pub stake : ℤ
  pub timestamp : ℕ
  pub reason : Option String

pub record DisputeVoting : Type 0 where
  pub dispute_id : Symbol
  pub voting_start : ℕ
  pub voting_end : ℕ
  pub total_votes : ℕ
  pub support_votes : ℕ
  pub against_votes : ℕ
  pub total_support_stake : ℤ
  pub total_against_stake : ℤ
  pub status : DisputeVotingStatus

pub record DisputeFeeDistribution : Type 0 where
  pub dispute_id : Symbol
  pub total_fees : ℤ
  pub winner_stake : ℤ
  pub loser_stake : ℤ
  pub distribution_timestamp : ℕ
  pub fees_distributed : Bool

-- the entries "dispute_v", "vote", "d_clm", "dispute_f" and "TokenID", the markets' entries, and the
-- token contract's ledger
pub record DisputeStore (L : Type 0) : Type 0 where
  pub votings : Map DisputeVoting
  pub votes : Symbol → Address → Option DisputeVote
  pub claimed : Symbol → Address → Bool
  pub distributions : Map DisputeFeeDistribution
  pub token_id : Option Address
  pub markets : MarketStore
  pub ledger : L

-- the voting of a dispute on which nobody has voted: 24 hours from now; the sum panics on overflow
abbrev pub new_voting : Env → Symbol → Option DisputeVoting
new_voting env id = elim (add_u64 env.now (24 * 3600)) [
  | some end ↦ some (record {
    dispute_id = id;
    voting_start = env.now;
    voting_end = end;
    total_votes = 0;
    support_votes = 0;
    against_votes = 0;
    total_support_stake = pos 0;
    total_against_stake = pos 0;
    status = active;
  })
  | none ↦ none
]

abbrev pub no_distribution : Symbol → DisputeFeeDistribution
no_distribution id = record {
  dispute_id = id;
  total_fees = pos 0;
  winner_stake = pos 0;
  loser_stake = pos 0;
  distribution_timestamp = 0;
  fees_distributed = false;
}

-- whether an address is a key of the stakes' entries
abbrev pub has_stake : List (Address × ℤ) → Address → Bool
has_stake [] user = false
has_stake ((u, n) ∷ l) user = u == user || has_stake l user

-- the votes that the check for a second vote looks through
abbrev pub has_voted : List DisputeVote → Address → Bool
has_voted [] user = false
has_voted (v ∷ vs) user = v.user == user || has_voted vs user

-- exact ties resolve to `false`
abbrev pub calculate_stake_weighted_outcome : DisputeVoting → Bool
calculate_stake_weighted_outcome v = ltb_ℤ v.total_against_stake v.total_support_stake

module _ {L : Type 0} where
  -- an entry that is there, or what the code puts in its place
  abbrev pub entry_or :
      Option DisputeVoting → Option DisputeVoting → Action (DisputeStore L) Error DisputeVoting
  entry_or (some v) _ = pure v
  entry_or none new = or_abort new

  abbrev pub get_dispute_voting : Env → Symbol → Action (DisputeStore L) Error DisputeVoting
  get_dispute_voting env id s = entry_or (s.votings id) (new_voting env id) s

  -- the code returns an empty list, whatever votes are stored
  abbrev pub get_dispute_votes : Env → Symbol → Action (DisputeStore L) Error (List DisputeVote)
  get_dispute_votes env id = do get_dispute_voting env id; pure []

  abbrev pub get_dispute_fee_distribution : Symbol → DisputeStore L → DisputeFeeDistribution
  get_dispute_fee_distribution id s = get_or (s.distributions id) (no_distribution id)

  abbrev pub validate_dispute_voting_conditions :
      Env → Symbol → Action (DisputeStore L) Error (Unit {0})
  validate_dispute_voting_conditions env id = do
    v ← get_dispute_voting env id
    raise_if (ltb env.now v.voting_start || ltb v.voting_end env.now) dispute_vote_expired
    raise_if (not (is_active v.status)) dispute_vote_denied

  abbrev pub validate_user_hasnt_voted :
      Env → Address → Symbol → Action (DisputeStore L) Error (Unit {0})
  validate_user_hasnt_voted env user id = do
    votes ← get_dispute_votes env id
    raise_if (has_voted votes user) dispute_already_voted
