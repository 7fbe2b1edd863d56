-- ===== src/Governance/Ballot/Counting.antt =====
-- What a vote changes, and who can vote afterwards
-- (contracts/predictify-hybrid/src/governance.rs, `vote`, `commit_vote`, `reveal_vote`).
use Prim.Native.String.{String}
use predictify_contracts.Base.{
  ℕ, ◌+◌, ◌≤◌, ◌<◌, ◌≡◌, ◌≢◌, refl, inl, inr, Option, some, Bool, true, false, List, [], ◌∷◌,
  if◌then◌else◌, arith, Option-cases,
}
use predictify_contracts.Base.Maps.{Address, Symbol, update, update₂, has}
use predictify_contracts.Base.Words.{u128_max}
use predictify_contracts.Base.Host.{Env}
use predictify_contracts.Base.Action.{ok, is_ok, commit, ◌>>◌}
use predictify_contracts.Governance.{GovernanceProposal, GovernanceStore}
use predictify_contracts.Governance.Delegation.Tally.{IsTallied, delegate-incoming}
use predictify_contracts.Governance.Ballot.{
  weight, count_vote, create_proposal, vote, commit_vote, reveal_vote,
}

-- The state after a vote of the voter's weight: the side's count grows by it, the vote is recorded,
-- and nothing else changes.
abbrev pub voted : Address → Symbol → Bool → GovernanceProposal → GovernanceStore → GovernanceStore
voted voter id support p s =
    let w = weight s voter in
    record s {
      vote_of = update₂ s.vote_of id voter (some (if support then 1 else 2));
      proposal = update s.proposal id (
          some (
            if support
            then record p { for_votes = p.for_votes + w }
            else record p { against_votes = p.against_votes + w }));
    }

-- The conditions under which a vote can be cast.
pub record IsOpen (env : Env) (voter : Address) (id : Symbol) (p : GovernanceProposal)
    (s : GovernanceStore) : Type 0 where
  pub signed : env.authorized voter ≡ true
  pub stored : s.proposal id ≡ some p
  pub started : p.start_time ≤ env.now
  pub running : env.now < p.end_time
  pub pending : p.executed ≡ false
  pub unvoted : has (s.vote_of id voter) ≡ false

-- A vote that succeeds was signed, on a stored, running and unexecuted proposal, the first by its
-- voter, and it adds exactly the voter's weight to its side and records the vote.
pub vote_ok :
    (env : Env) (voter : Address) (id : Symbol) (support : Bool) (s : GovernanceStore)
    → is_ok (vote env voter id support s).0 ≡ true
    → (p : GovernanceProposal) × IsOpen env voter id p s
      × ((vote env voter id support s).1 ≡ voted voter id support p s)
unfolding vote count_vote
vote_ok env voter id support s h = elim (Option-cases (s.proposal id)) [
  | inl e ↦ ground arith
  | inr (p, e) ↦ (
    p,
    record {
      signed = ground arith;
      stored = e;
      started = ground arith;
      running = ground arith;
      pending = ground arith;
      unvoted = ground arith;
    },
    ground arith,
  )
]

-- Where a proposal is open to the voter and the side's count does not overflow, the vote succeeds
-- with exactly that effect.
pub vote_enough :
    (env : Env) (voter : Address) (id : Symbol) (support : Bool) (p : GovernanceProposal)
    (s : GovernanceStore)
    → IsOpen env voter id p s
    → (if support then p.for_votes else p.against_votes) + weight s voter ≤ u128_max
    → vote env voter id support s ≡ (ok tt, voted voter id support p s)
unfolding vote count_vote
vote_enough env voter id support p s o fits = ground arith

-- An address that has delegated its vote can still cast it after its delegate has voted, where both
-- can vote and nothing overflows: the two votes add at least three to the count.
pub delegated_vote_counts_twice :
    (env : Env) (a b : Address) (id : Symbol) (p : GovernanceProposal) (s : GovernanceStore)
    (l : List Address)
    → IsTallied s l
    → s.delegate a ≡ some b
    → IsOpen env a id p s
    → IsOpen env b id p s
    → p.for_votes + weight s b + weight s a ≤ u128_max
    → let (r, s') = (vote env b id true >> vote env a id true) s in
      (r ≡ ok tt)
      × ((p' : GovernanceProposal) × (s'.proposal id ≡ some p') × (p.for_votes + 3 ≤ p'.for_votes))
delegated_vote_counts_twice env a b id p s l t d oa ob fits =
    let ne : a ≢ b = (t.forward a b d).0 in
    let first = vote_enough env b id true p s ob (omega arith) in
    let p₁ = record p { for_votes = p.for_votes + weight s b } in
    let second =
      vote_enough env a id true p₁ (voted b id true p s)
        (record {
          signed = oa.signed;
          stored = ground arith;
          started = oa.started;
          running = oa.running;
          pending = oa.pending;
          unvoted = ground (arith, oa.unvoted);
        })
        (omega arith) in
    rw first (
      rw second (
        refl,
        (
          record p₁ { for_votes = p₁.for_votes + weight s a },
          ground arith,
          omega (arith, delegate-incoming s l a b t d),
        ),
      ))

module _ (sha256 : List ℕ → ℕ) where
  -- The operations on proposals by which votes are cast.
  pub data Op : Type 0 where
    create : Env → Address → Symbol → String → String → Option Address → Option Symbol → Op
    cast : Env → Address → Symbol → Bool → Op
    hide : Env → Address → Symbol → ℕ → Op
    reveal : Env → Address → Symbol → List ℕ → Bool → Op

  abbrev pub apply : Op → GovernanceStore → GovernanceStore
  apply (Op.create env a i title text target f) s =
      (commit (create_proposal env a i title text target f) s).1
  apply (Op.cast env a i support) s = (commit (vote env a i support) s).1
  apply (Op.hide env a i c) s = (commit (commit_vote env a i c) s).1
  apply (Op.reveal env a i salt support) s = (commit (reveal_vote sha256 env a i salt support) s).1

  abbrev pub apply_all : List Op → GovernanceStore → GovernanceStore
  apply_all [] s = s
  apply_all (op ∷ ops) s = apply_all ops (apply op s)

  module _ (id : Symbol) (voter : Address) where
    abbrev pub HasVoted : GovernanceStore → Type 0
    HasVoted s = has (s.vote_of id voter) ≡ true

    apply-HasVoted : (op : Op) (s : GovernanceStore) → HasVoted s → HasVoted (apply op s)
    unfolding create_proposal vote commit_vote reveal_vote
    apply-HasVoted (Op.create env a i title text target f) s h = ground arith
    apply-HasVoted (Op.cast env a i support) s h = ground arith
    apply-HasVoted (Op.hide env a i c) s h = ground arith
    apply-HasVoted (Op.reveal env a i salt support) s h = ground arith

    -- One vote, one commitment and one revelation by the voter fail, and change nothing.
    abbrev pub Excluded : GovernanceStore → Type 0
    Excluded s =
        ((env : Env) (support : Bool) → is_ok (vote env voter id support s).0 ≡ false)
        × ((env : Env) (c : ℕ) → is_ok (commit_vote env voter id c s).0 ≡ false)
        × ((env : Env) (salt : List ℕ) (support : Bool)
            → is_ok (reveal_vote sha256 env voter id salt support s).0 ≡ false)

    excluded : (s : GovernanceStore) → HasVoted s → Excluded s
    unfolding vote commit_vote reveal_vote
    excluded s h =
        (λ env support. ground arith, λ env c. ground arith, λ env salt support. ground arith)

    apply_all-Excluded :
        (ops : List Op) (s : GovernanceStore) → HasVoted s → Excluded (apply_all ops s)
    apply_all-Excluded [] s h = excluded s h
    apply_all-Excluded (op ∷ ops) s h = apply_all-Excluded ops (apply op s) (apply-HasVoted op s h)

    vote-HasVoted :
        (env : Env) (support : Bool) (s : GovernanceStore)
        → is_ok (vote env voter id support s).0 ≡ true
        → HasVoted (vote env voter id support s).1
    unfolding vote count_vote
    vote-HasVoted env support s h = ground arith

    reveal_vote-HasVoted :
        (env : Env) (salt : List ℕ) (support : Bool) (s : GovernanceStore)
        → is_ok (reveal_vote sha256 env voter id salt support s).0 ≡ true
        → HasVoted (reveal_vote sha256 env voter id salt support s).1
    unfolding reveal_vote count_vote
    reveal_vote-HasVoted env salt support s h = ground arith

    -- Once an address has voted on a proposal, then whatever proposals, votes, commitments and
    -- revelations follow, no further vote, commitment or revelation by it on that proposal
    -- succeeds.
    pub counted_once :
        (env : Env) (support : Bool) (s : GovernanceStore) (ops : List Op)
        → is_ok (vote env voter id support s).0 ≡ true
        → Excluded (apply_all ops (vote env voter id support s).1)
    counted_once env support s ops h = apply_all-Excluded ops _ (vote-HasVoted env support s h)

    -- The same after a committed vote was revealed.
    pub revealed_once :
        (env : Env) (salt : List ℕ) (support : Bool) (s : GovernanceStore) (ops : List Op)
        → is_ok (reveal_vote sha256 env voter id salt support s).0 ≡ true
        → Excluded (apply_all ops (reveal_vote sha256 env voter id salt support s).1)
    revealed_once env salt support s ops h =
        apply_all-Excluded ops _ (reveal_vote-HasVoted env salt support s h)
