-- ===== src/Governance/Ballot/Execution.antt =====
-- When a proposal is executed (contracts/predictify-hybrid/src/governance.rs).
use predictify_contracts.Base.{
  ℕ, ◌-◌, ◌≤◌, ◌<◌, ◌≡◌, inl, inr, none, some, true, false, arith, Option-cases,
}
use predictify_contracts.Base.Maps.{Address, Symbol, get_or}
use predictify_contracts.Base.Host.{Env}
use predictify_contracts.Base.Action.{is_ok}
use predictify_contracts.Governance.{GovernanceProposal, GovernanceStore, Call}
use predictify_contracts.Governance.Quorum.{compute_effective_quorum}
use predictify_contracts.Governance.Ballot.{validate_proposal, execute_proposal}

-- A proposal that has ended with the quorum reached and a majority for it.
pub record HasPassed (env : Env) (id : Symbol) (p : GovernanceProposal) (s : GovernanceStore)
    : Type 0 where
  pub stored : s.proposal id ≡ some p
  pub ended : p.end_time ≤ env.now
  pub majority : p.against_votes < p.for_votes
  pub quorum :
      (base q : ℕ) × (s.quorum_votes ≡ some base)
      × (compute_effective_quorum base (get_or s.quorum_decay none) (env.now - p.start_time)
          ≡ some q)
      × (q ≤ p.for_votes)

module _ (invoke_contract : Address → Symbol → Call (Unit {0})) where
  -- A proposal is executed only after its voting has ended, if it was not executed before, has more
  -- votes for it than against it and reaches the quorum in force; it is marked as executed
  -- afterwards.
  pub execute_proposal_ok :
      (env : Env) (caller : Address) (id : Symbol) (s : GovernanceStore)
      → is_ok (execute_proposal invoke_contract env caller id s).0 ≡ true
      → (p : GovernanceProposal) × HasPassed env id p s
        × (p.executed ≡ false)
        × ((execute_proposal invoke_contract env caller id s).1.proposal id
            ≡ some (record p { executed = true }))
  unfolding execute_proposal validate_proposal
  execute_proposal_ok env caller id s h = elim (Option-cases (s.proposal id)) [
    | inl e ↦ ground arith
    | inr (p, e) ↦ elim (Option-cases s.quorum_votes) [
      | inl f ↦ ground arith
      | inr (base, f) ↦
          elim (Option-cases
            (compute_effective_quorum base (get_or s.quorum_decay none) (env.now - p.start_time))) [
              | inl g ↦ ground arith
              | inr (q, g) ↦ (
                p,
                record {
                  stored = e;
                  ended = ground arith;
                  majority = ground arith;
                  quorum = (base, q, f, g, ground arith);
                },
                ground arith,
                ground arith,
              )
            ]
    ]
  ]

  executed_refused :
      (later : Env) (other : Address) (id : Symbol) (t : GovernanceStore) (p : GovernanceProposal)
      → t.proposal id ≡ some (record p { executed = true })
      → is_ok (execute_proposal invoke_contract later other id t).0 ≡ false
  unfolding execute_proposal
  executed_refused later other id t p e = ground arith

  -- After a proposal was executed, an execution by anyone at any later time fails.
  pub execute_proposal_once :
      (env later : Env) (caller other : Address) (id : Symbol) (s : GovernanceStore)
      → is_ok (execute_proposal invoke_contract env caller id s).0 ≡ true
      → is_ok
          (execute_proposal invoke_contract later other id
            (execute_proposal invoke_contract env caller id s).1).0
        ≡ false
  execute_proposal_once env later caller other id s h =
      let (p, passed, fresh, done) = execute_proposal_ok env caller id s h in
      executed_refused later other id _ p done
