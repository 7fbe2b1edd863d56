-- ===== src/Disputes/Votes/Stuck.antt =====
-- Runs of the operations of a dispute's vote (contracts/predictify-hybrid/src/disputes.rs).
use Prim.Native.String.{String}
use predictify_contracts.Base.{
  ◌≡◌, refl, sym, ◌∙◌, Option, some, Bool, false, List, [], ◌∷◌, inl, inr, arith, Option-cases,
  Bool-cases,
}
use predictify_contracts.Base.Int.{ℤ}
use predictify_contracts.Base.Maps.{Address, Symbol}
use predictify_contracts.Base.Host.{Env}
use predictify_contracts.Base.Action.{is_ok, commit, commit_keeps, bind_keeps, ◌>>◌}
use predictify_contracts.Disputes.{
  DisputeVote, DisputeVoting, DisputeStore, is_completed, get_dispute_fee_distribution,
}
use predictify_contracts.Disputes.Votes.{
  add_vote_to_dispute, distribute_dispute_fees, vote_on_dispute, claim_dispute_winnings,
  validate_dispute_resolution_conditions, admit_vote, move,
}

module _ {L : Type 0} where
  -- No voting is completed, and nothing is distributed.
  pub record IsOpen (s : DisputeStore L) : Type 0 where
    pub votings :
        (id : Symbol) (d : DisputeVoting) → s.votings id ≡ some d → is_completed d.status ≡ false
    pub distributions : (id : Symbol) → (get_dispute_fee_distribution id s).fees_distributed ≡ false

  add_vote-IsOpen :
      (env : Env) (id : Symbol) (v : DisputeVote) (s : DisputeStore L)
      → IsOpen s
      → IsOpen (add_vote_to_dispute env id v s).1
  unfolding add_vote_to_dispute
  add_vote-IsOpen env id v s k = elim (Option-cases (s.votings id)) [
    | inl e ↦ record {
      votings = λ i d f. ground (arith, e, k.votings i d);
      distributions = λ i. ground (arith, k.distributions i);
    }
    | inr (c, e) ↦ record {
      votings = λ i d f. ground (arith, e, k.votings id c e, k.votings i d);
      distributions = λ i. ground (arith, k.distributions i);
    }
  ]

  -- While no voting is completed and nothing is distributed, no distribution succeeds.
  distribute_fails :
      (env : Env) (id : Symbol) (s : DisputeStore L)
      → IsOpen s
      → (is_ok (distribute_dispute_fees env id s).0 ≡ false)
        × ((distribute_dispute_fees env id s).1 ≡ s)
  unfolding distribute_dispute_fees validate_dispute_resolution_conditions
  distribute_fails env id s k = elim (Option-cases (s.votings id)) [
    | inl e ↦ (ground (arith, e), ground (arith, e))
    | inr (d, e) ↦ rw (e, k.votings id d e) (refl, refl)
  ]

  module _ (transfer : Address → Address → Address → ℤ → L → Option L) (contract : Address) where
    claim_fails :
        (env : Env) (id : Symbol) (user : Address) (s : DisputeStore L)
        → IsOpen s
        → (is_ok (claim_dispute_winnings transfer contract env id user s).0 ≡ false)
          × ((claim_dispute_winnings transfer contract env id user s).1 ≡ s)
    unfolding claim_dispute_winnings
    claim_fails env id user s k =
        let u = k.distributions id in
        elim (Bool-cases (env.authorized user)) [
          | inl a ↦ rw (a, u) (refl, refl)
          | inr a ↦ rw a (refl, refl)
        ]

    same-IsOpen :
        (s s' : DisputeStore L)
        → IsOpen s
        → ((i : Symbol) → s'.votings i ≡ s.votings i)
        → ((i : Symbol) → s'.distributions i ≡ s.distributions i)
        → IsOpen s'
    same-IsOpen s s' k v f = record {
      votings = λ i d e. k.votings i d (sym (v i) ∙ e);
      distributions = λ i. rw (f i) (k.distributions i);
    }

    admit_same :
        (env : Env) (user : Address) (market_id id : Symbol) (s : DisputeStore L) (i : Symbol)
        → let s' = (admit_vote env user market_id id s).1 in
          (s'.votings i ≡ s.votings i) × (s'.distributions i ≡ s.distributions i)
    admit_same env user market_id id s i = ground arith

    move_same :
        (from to : Address) (n : ℤ) (s : DisputeStore L) (i : Symbol)
        → let s' = (move transfer contract from to n s).1 in
          (s'.votings i ≡ s.votings i) × (s'.distributions i ≡ s.distributions i)
    move_same from to n s i = ground arith

    vote-IsOpen :
        (env : Env) (user : Address) (market_id id : Symbol) (vote : Bool) (stake : ℤ)
        (reason : Option String) (s : DisputeStore L)
        → IsOpen s
        → IsOpen (vote_on_dispute transfer contract env user market_id id vote stake reason s).1
    unfolding vote_on_dispute
    vote-IsOpen env user market_id id vote stake reason s k =
        let pay = move transfer contract user contract stake in
        let v : DisputeVote = record {
          user = user;
          dispute_id = id;
          vote = vote;
          stake = stake;
          timestamp = env.now;
          reason = reason;
        } in
        bind_keeps IsOpen (admit_vote env user market_id id)
          (λ _. pay >> add_vote_to_dispute env id v) s
          (same-IsOpen s _ k (λ i. (admit_same env user market_id id s i).0)
            (λ i. (admit_same env user market_id id s i).1))
          (λ _ s₁ k₁.
            bind_keeps IsOpen pay (λ _. add_vote_to_dispute env id v) s₁
              (same-IsOpen s₁ _ k₁ (λ i. (move_same user contract stake s₁ i).0)
                (λ i. (move_same user contract stake s₁ i).1))
              (λ _ s₂ k₂. add_vote-IsOpen env id v s₂ k₂))

-- the calls of a dispute's vote
pub data Op : Type 0 where
  vote : Env → Address → Symbol → Symbol → Bool → ℤ → Option String → Op
  distribute : Env → Symbol → Op
  claim : Env → Symbol → Address → Op

module _ {L : Type 0} (transfer : Address → Address → Address → ℤ → L → Option L)
    (contract : Address) where
  pub run : Op → DisputeStore L → DisputeStore L
  run (vote env user market_id id v stake reason) s =
      (commit (vote_on_dispute transfer contract env user market_id id v stake reason) s).1
  run (distribute env id) s = (commit (distribute_dispute_fees env id) s).1
  run (claim env id user) s = (commit (claim_dispute_winnings transfer contract env id user) s).1

  pub run_all : List Op → DisputeStore L → DisputeStore L
  run_all [] s = s
  run_all (op ∷ ops) s = run_all ops (run op s)

  run-IsOpen : (op : Op) (s : DisputeStore L) → IsOpen s → IsOpen (run op s)
  unfolding run
  run-IsOpen (vote env user market_id id v stake reason) s k =
      commit_keeps IsOpen (vote_on_dispute transfer contract env user market_id id v stake reason) s
        k (λ h. vote-IsOpen transfer contract env user market_id id v stake reason s k)
  run-IsOpen (distribute env id) s k =
      commit_keeps IsOpen (distribute_dispute_fees env id) s k
        (λ h. rw (distribute_fails env id s k).1 k)
  run-IsOpen (claim env id user) s k =
      commit_keeps IsOpen (claim_dispute_winnings transfer contract env id user) s k
        (λ h. rw (claim_fails transfer contract env id user s k).1 k)

  run_all-IsOpen : (ops : List Op) (s : DisputeStore L) → IsOpen s → IsOpen (run_all ops s)
  unfolding run_all
  run_all-IsOpen [] s k = k
  run_all-IsOpen (op ∷ ops) s k = run_all-IsOpen ops (run op s) (run-IsOpen op s k)

  -- Whatever votes, distributions and claims are made from a store where no voting is completed and
  -- nothing is distributed, no distribution and no claim succeeds afterwards: none of these calls
  -- completes a voting.
  pub votes_stay_stuck :
      (ops : List Op) (env : Env) (id : Symbol) (user : Address) (s : DisputeStore L)
      → IsOpen s
      → (is_ok (distribute_dispute_fees env id (run_all ops s)).0 ≡ false)
        × (is_ok (claim_dispute_winnings transfer contract env id user (run_all ops s)).0 ≡ false)
  votes_stay_stuck ops env id user s k =
      let k' = run_all-IsOpen ops s k in
      (
        (distribute_fails env id (run_all ops s) k').0,
        (claim_fails transfer contract env id user (run_all ops s) k').0,
      )
