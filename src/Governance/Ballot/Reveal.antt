-- ===== src/Governance/Ballot/Reveal.antt =====
-- Committing to a vote and revealing it (contracts/predictify-hybrid/src/governance.rs).
use predictify_contracts.Base.{
  ℕ, ◌+◌, ◌≤◌, ◌<◌, ◌≡◌, ◌≢◌, none, some, Bool, true, List, arith, if◌then◌else◌,
}
use predictify_contracts.Base.Maps.{Address, Symbol, update₂}
use predictify_contracts.Base.Words.{u128_max}
use predictify_contracts.Base.Host.{Env}
use predictify_contracts.Base.Action.{ok, err, is_ok}
use predictify_contracts.Governance.{GovernanceProposal, GovernanceStore, invalid_reveal}
use predictify_contracts.Governance.Ballot.{weight, preimage, count_vote, commit_vote, reveal_vote}
use predictify_contracts.Governance.Ballot.Counting.{voted}

module _ (sha256 : List ℕ → ℕ) where
  -- A commitment that was accepted can be revealed with its salt and vote by its signer while the
  -- voting is open, if the count does not overflow: the vote is counted with the voter's weight and
  -- the commitment is removed.
  pub reveal-commit :
      (env later : Env) (voter : Address) (id : Symbol) (salt : List ℕ) (support : Bool)
      (p : GovernanceProposal) (s : GovernanceStore)
      → s.proposal id ≡ some p
      → is_ok (commit_vote env voter id (sha256 (preimage salt support)) s).0 ≡ true
      → later.authorized voter ≡ true
      → env.now ≤ later.now
      → later.now < p.end_time
      → (if support then p.for_votes else p.against_votes) + weight s voter ≤ u128_max
      → let s₁ = (commit_vote env voter id (sha256 (preimage salt support)) s).1 in
        reveal_vote sha256 later voter id salt support s₁ ≡ (
          ok tt,
          record (voted voter id support p s₁) { commitment = update₂ s₁.commitment id voter none },
        )
  unfolding commit_vote reveal_vote count_vote
  reveal-commit env later voter id salt support p s e h signed order before fits = ground arith

  -- A revelation with a salt and vote of another digest than the committed one is refused with
  -- `InvalidReveal` and changes nothing.
  pub reveal-commit_other :
      (env later : Env) (voter : Address) (id : Symbol) (salt other : List ℕ) (support claim : Bool)
      (s : GovernanceStore)
      → is_ok (commit_vote env voter id (sha256 (preimage salt support)) s).0 ≡ true
      → later.authorized voter ≡ true
      → sha256 (preimage other claim) ≢ sha256 (preimage salt support)
      → let s₁ = (commit_vote env voter id (sha256 (preimage salt support)) s).1 in
        reveal_vote sha256 later voter id other claim s₁ ≡ (err invalid_reveal, s₁)
  unfolding commit_vote reveal_vote
  reveal-commit_other env later voter id salt other support claim s h signed differ = ground arith
