-- ===== src/Governance/Delegation.antt =====
-- Delegation of votes (contracts/predictify-hybrid/src/governance.rs, `set_delegate` and
-- `unset_delegate`).
pub mod Tally
mod Tests
use predictify_contracts.Base.{
  ℕ, ◌+◌, ◌-◌, Option, none, some, Bool, true, false, ◌==◌, ltb, leb, if◌then◌else◌,
}
use predictify_contracts.Base.Maps.{Address, update, get_or, has}
use predictify_contracts.Base.Words.{add_u32}
use predictify_contracts.Base.Host.{Env, require_auth}
use predictify_contracts.Base.Action.{pure, raise_if, gets, or_raise, or_abort, modify, ◌>>=◌, ◌>>◌}
use predictify_contracts.Governance.{
  GovernanceStore, Call, self_delegation, delegation_cycle, delegation_already_set,
  delegate_limit_reached, no_delegation_set,
}

-- `MAX_INCOMING_DELEGATIONS`
abbrev pub max_incoming_delegations : ℕ
max_incoming_delegations = 50

-- whether an entry holds the address
abbrev pub points_to : Option Address → Address → Bool
points_to none a = false
points_to (some b) a = b == a

abbrev pub incoming : GovernanceStore → Address → ℕ
incoming s a = get_or (s.delegate_count a) 0

pub set_delegate : Env → Address → Address → Call (Unit {0})
set_delegate env delegator delegate = do
  require_auth env delegator
  raise_if (delegator == delegate) self_delegation
  back ← gets (λ s. points_to (s.delegate delegate) delegator)
  raise_if back delegation_cycle
  already ← gets (λ s. has (s.delegate delegator))
  raise_if already delegation_already_set
  n ← gets (λ s. incoming s delegate)
  raise_if (leb max_incoming_delegations n) delegate_limit_reached
  modify (λ s. record s { delegate = update s.delegate delegator (some delegate) })
  n' ← or_abort (add_u32 n 1)
  modify (λ s. record s { delegate_count = update s.delegate_count delegate (some n') })

pub unset_delegate : Env → Address → Call (Unit {0})
unset_delegate env delegator = do
  require_auth env delegator
  entry ← gets (λ s. s.delegate delegator)
  delegate ← or_raise entry no_delegation_set
  n ← gets (λ s. incoming s delegate)
  modify (λ s.
      if ltb 0 n
      then record s { delegate_count = update s.delegate_count delegate (some (n - 1)) }
      else s)
  modify (λ s. record s { delegate = update s.delegate delegator none })
