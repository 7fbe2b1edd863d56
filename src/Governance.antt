-- ===== src/Governance.antt =====
-- Governance (contracts/predictify-hybrid/src/governance.rs): what is stored, the set-up and the
-- administrator's settings. The children hold the quorum, delegation and the proposals' ballots.
pub mod Quorum
pub mod Delegation
pub mod Ballot
use Prim.Native.String.{String}
use predictify_contracts.Base.{
  ℕ, Option, none, some, Bool, true, false, not, ◌||◌, List, [], ◌==◌, ltb, if◌then◌else◌,
}
use predictify_contracts.Base.Int.{ℤ, pos, leb_ℤ, pos_part}
use predictify_contracts.Base.Maps.{Address, Symbol, Map, has, get_or}
use predictify_contracts.Base.Host.{Env, require_auth}
use predictify_contracts.Base.Action.{
  Action, pure, abort, abort_unless, raise_if, gets, or_raise, modify, ◌>>=◌, ◌>>◌,
}

pub record QuorumDecay : Type 0 where
  pub floor_bps : ℕ
  pub halving_seconds : ℕ

pub record GovernanceProposal : Type 0 where
  pub id : Symbol
  pub proposer : Address
  pub title : String
  pub description : String
  pub target : Option Address
  pub call_fn : Option Symbol
  pub start_time : ℕ
  pub end_time : ℕ
  pub for_votes : ℕ
  pub against_votes : ℕ
  pub executed : Bool

pub data GovernanceError : Type 0 where
  proposal_exists proposal_not_found voting_not_started voting_ended : GovernanceError
  voting_still_active already_voted not_passed already_executed not_admin : GovernanceError
  not_initialized invalid_params self_delegation delegation_already_set : GovernanceError
  delegate_limit_reached no_delegation_set delegation_cycle no_commitment : GovernanceError
  invalid_reveal commitment_exists : GovernanceError

-- The persistent entries, one field for each `StorageKey`. A vote is 1 for and 2 against.
pub record GovernanceStore : Type 0 where
  pub admin : Option Address
  pub voting_period : Option ℕ
  pub quorum_votes : Option ℕ
  pub quorum_decay : Option (Option QuorumDecay)
  pub proposal_list : Option (List Symbol)
  pub proposal : Map GovernanceProposal
  pub vote_of : Symbol → Address → Option ℕ
  pub delegate : Map Address
  pub delegate_count : Map ℕ
  pub commitment : Symbol → Address → Option ℕ

abbrev pub Call : Type 0 → Type 0
Call = Action GovernanceStore GovernanceError

-- a decay that `initialize` and `set_quorum_decay` refuse
abbrev pub is_bad_decay : Option QuorumDecay → Bool
is_bad_decay none = false
is_bad_decay (some d) = ltb 10000 d.floor_bps || d.halving_seconds == 0

pub initialize : Address → ℤ → ℕ → Option QuorumDecay → Call (Unit {0})
initialize admin voting_period_seconds quorum_votes quorum_decay s =
    if has s.admin
    then pure tt s
    else (do
      abort_unless (not (leb_ℤ voting_period_seconds (pos 0) || quorum_votes == 0))
      abort_unless (not (is_bad_decay quorum_decay))
      modify (λ s. record s {
        admin = some admin;
        voting_period = some (pos_part voting_period_seconds);
        quorum_votes = some quorum_votes;
        quorum_decay = some quorum_decay;
        proposal_list = some [];
      }))
        s

pub ensure_admin : Env → Address → Call (Unit {0})
ensure_admin env caller = do
  require_auth env caller
  entry ← gets (λ s. s.admin)
  admin ← or_raise entry not_initialized
  raise_if (not (admin == caller)) not_admin

pub set_voting_period : Env → Address → ℤ → Call (Unit {0})
unfolding ensure_admin
set_voting_period env caller new_period_seconds = do
  ensure_admin env caller
  raise_if (leb_ℤ new_period_seconds (pos 0)) invalid_params
  modify (λ s. record s { voting_period = some (pos_part new_period_seconds) })

pub set_quorum : Env → Address → ℕ → Call (Unit {0})
unfolding ensure_admin
set_quorum env caller new_quorum = do
  ensure_admin env caller
  raise_if (new_quorum == 0) invalid_params
  modify (λ s. record s { quorum_votes = some new_quorum })

pub set_quorum_decay : Env → Address → Option QuorumDecay → Call (Unit {0})
unfolding ensure_admin
set_quorum_decay env caller decay = do
  ensure_admin env caller
  raise_if (is_bad_decay decay) invalid_params
  modify (λ s. record s { quorum_decay = some decay })

pub get_quorum_decay : GovernanceStore → Option QuorumDecay
get_quorum_decay s = get_or s.quorum_decay none
