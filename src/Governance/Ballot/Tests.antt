-- ===== src/Governance/Ballot/Tests.antt =====
-- Proposals, votes and executions on small inputs (contracts/predictify-hybrid/src/governance.rs).
use predictify_contracts.Base.{
  ℕ, ◌+◌, ◌*◌, ◌≡◌, refl, none, some, true, false, List, [], ◌∷◌, arith,
}
use predictify_contracts.Base.Maps.{Address, Symbol, empty, update, update₂}
use predictify_contracts.Base.Host.{Env}
use predictify_contracts.Base.Action.{ok, pure}
use predictify_contracts.Governance.{GovernanceProposal, GovernanceStore, Call}
use predictify_contracts.Governance.Quorum.{compute_effective_quorum}
use predictify_contracts.Governance.Delegation.Tally.{IsTallied}
use predictify_contracts.Governance.Ballot.{
  vote, count_vote, commit_vote, reveal_vote, validate_proposal, execute_proposal, preimage,
}
use predictify_contracts.Governance.Ballot.Counting.{
  voted, IsOpen, Op, apply_all, Excluded, counted_once,
}
use predictify_contracts.Governance.Ballot.Reveal.{reveal-commit}
use predictify_contracts.Governance.Ballot.Execution.{HasPassed, execute_proposal_ok}

abbrev at : ℕ → Env
at t = record { now = t; authorized = λ a. true }

-- voting from 10 to 110, two votes for it
abbrev motion : GovernanceProposal
motion = record {
  id = 7;
  proposer = 1;
  title = "fees";
  description = "lower them";
  target = none;
  call_fn = none;
  start_time = 10;
  end_time = 110;
  for_votes = 2;
  against_votes = 1;
  executed = false;
}

-- 4 has delegated to 5
abbrev store : GovernanceStore
store = record {
  admin = some 1;
  voting_period = some 100;
  quorum_votes = some 2;
  quorum_decay = none;
  proposal_list = some (7 ∷ []);
  proposal = update empty 7 (some motion);
  vote_of = λ p a. none;
  delegate = update empty 4 (some 5);
  delegate_count = update empty 5 (some 1);
  commitment = λ p a. none;
}

store-IsTallied : IsTallied store (4 ∷ [])
store-IsTallied = record {
  distinct = (refl, tt);
  exact = λ a. ground arith;
  counts = λ v. ground arith;
  capped = λ v. ground arith;
  forward = λ a b e. (ground arith, ground arith);
}

is_open : (a : Address) → IsOpen (at 20) a 7 motion store
is_open a = record {
  signed = refl;
  stored = refl;
  started = omega arith;
  running = omega arith;
  pending = refl;
  unvoted = refl;
}

-- a digest for the examples: the bytes read in base 256
abbrev digest : List ℕ → ℕ
digest [] = 1
digest (b ∷ bs) = b + 256 * digest bs

counted_once_example :
    Excluded digest 7 5
      (apply_all digest (Op.cast (at 30) 4 7 false ∷ []) (vote (at 20) 5 7 true store).1)
unfolding vote count_vote
counted_once_example =
    counted_once digest 7 5 (at 20) true store (Op.cast (at 30) 4 7 false ∷ []) refl

-- 3 has committed to a vote
abbrev hidden : GovernanceStore
hidden = record store {
  commitment = update₂ store.commitment 7 3 (some (digest (preimage (9 ∷ 8 ∷ []) true)));
}

abbrev committed : GovernanceStore
committed = (commit_vote (at 20) 3 7 (digest (preimage (9 ∷ 8 ∷ []) true)) store).1

reveal-commit_example : reveal_vote digest (at 30) 3 7 (9 ∷ 8 ∷ []) true committed ≡ (
  ok tt,
  record (voted 3 7 true motion committed) { commitment = update₂ committed.commitment 7 3 none },
)
unfolding commit_vote
reveal-commit_example =
    reveal-commit digest (at 20) (at 30) 3 7 (9 ∷ 8 ∷ []) true motion store refl refl refl
      (omega arith) (omega arith) (omega arith)

-- a target that does nothing
abbrev idle : Address → Symbol → Call (Unit {0})
idle a f = pure tt

execute_proposal_ok_example :
    (p : GovernanceProposal) × HasPassed (at 200) 7 p store
    × (p.executed ≡ false)
    × ((execute_proposal idle (at 200) 6 7 store).1.proposal 7
        ≡ some (record p { executed = true }))
unfolding execute_proposal validate_proposal compute_effective_quorum
execute_proposal_ok_example = execute_proposal_ok idle (at 200) 6 7 store refl
