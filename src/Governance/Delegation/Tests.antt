-- ===== src/Governance/Delegation/Tests.antt =====
-- Delegations on small inputs (contracts/predictify-hybrid/src/governance.rs).
use predictify_contracts.Base.{◌≡◌, refl, none, some, true, List, [], ◌∷◌, arith}
use predictify_contracts.Base.Maps.{empty, update}
use predictify_contracts.Base.Host.{Env}
use predictify_contracts.Governance.{GovernanceStore}
use predictify_contracts.Governance.Delegation.{incoming, set_delegate, unset_delegate}
use predictify_contracts.Governance.Delegation.Tally.{
  IsTallied, Op, apply_all, Accounted, apply_all-Accounted,
}

abbrev at_5 : Env
at_5 = record { now = 5; authorized = λ a. true }

abbrev fresh : GovernanceStore
fresh = record {
  admin = some 1;
  voting_period = some 100;
  quorum_votes = some 3;
  quorum_decay = none;
  proposal_list = none;
  proposal = empty;
  vote_of = λ p a. none;
  delegate = empty;
  delegate_count = empty;
  commitment = λ p a. none;
}

fresh-IsTallied : IsTallied fresh []
fresh-IsTallied = record {
  distinct = tt;
  exact = λ a. refl;
  counts = λ v. refl;
  capped = λ v. omega arith;
  forward = λ a b e. ground arith;
}

-- 1 and 2 delegate to 3, a delegation back is refused, and 1 takes its own away
abbrev script : List Op
script = Op.set at_5 1 3 ∷ Op.set at_5 2 3 ∷ Op.set at_5 3 1 ∷ Op.unset at_5 1 ∷ []

script_run : incoming (apply_all script fresh) 3 ≡ 1
unfolding set_delegate unset_delegate
script_run = refl

apply_all-Accounted_example : Accounted (apply_all script fresh)
apply_all-Accounted_example = apply_all-Accounted script fresh ([], fresh-IsTallied)

-- 4 has delegated to 5
abbrev delegated : GovernanceStore
delegated = record fresh {
  delegate = update fresh.delegate 4 (some 5);
  delegate_count = update fresh.delegate_count 5 (some 1);
}

delegated-IsTallied : IsTallied delegated (4 ∷ [])
delegated-IsTallied = record {
  distinct = (refl, tt);
  exact = λ a. ground arith;
  counts = λ v. ground arith;
  capped = λ v. ground arith;
  forward = λ a b e. (ground arith, ground arith);
}
