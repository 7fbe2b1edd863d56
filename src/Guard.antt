-- ===== src/Guard.antt =====
-- The reentrancy guard (contracts/predictify-hybrid/src/reentrancy_guard.rs): a lock for each
-- scope, in one persistent entry. The state around the entry is the caller's: `get` and `put`
-- reach the entry in it, and `active` is the caller's error for a lock that is held.
pub mod Locks
mod Tests
use predictify_contracts.Base.{Option, some, Bool, true, false}
use predictify_contracts.Base.Maps.{Symbol, Map, update, get_or}
use predictify_contracts.Base.Action.{
  Action, Result, ok, err, panic, pure, raise_if, gets, modify, ◌>>=◌, ◌>>◌,
}

module _ {S E : Type 0} (get : S → Map Bool) (put : Map Bool → S → S) (active : E) where
  abbrev pub is_locked : Symbol → S → Bool
  is_locked name s = get_or (get s name) false

  abbrev pub set_scope_locked : Symbol → Bool → S → S
  set_scope_locked name locked s = put (update (get s) name (some locked)) s

  -- `check_reentrancy_state`
  abbrev pub check_reentrancy_state : Symbol → Action S E (Unit {0})
  check_reentrancy_state name = do locked ← gets (is_locked name); raise_if locked active

  abbrev pub before_external_call : Symbol → Action S E (Unit {0})
  before_external_call name = do
    locked ← gets (is_locked name)
    raise_if locked active
    modify (set_scope_locked name true)

  -- what `with_guard` does once its closure has returned; a panic ends the invocation
  abbrev pub release : {A : Type 0} → Symbol → Result E A × S → Result E A × S
  release name (ok a, s) = (ok a, set_scope_locked name false s)
  release name (err e, s) = (err e, set_scope_locked name false s)
  release name (panic, s) = (panic, s)

  unfoldable pub with_guard : {A : Type 0} → Symbol → Action S E A → Action S E A
  with_guard name f = before_external_call name >> λ s. release name (f s)
