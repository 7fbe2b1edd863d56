-- ===== src/Admin/Multisig/Tests.antt =====
-- Approvals on small inputs (contracts/predictify-hybrid/src/admin.rs).
use predictify_contracts.Base.{
  ℕ, ◌≤◌, ◌≡◌, refl, none, some, Bool, true, false, List, [], ◌∷◌, arith,
}
use predictify_contracts.Base.Lists.{length, contains, Distinct}
use predictify_contracts.Base.Maps.{empty, update}
use predictify_contracts.Base.Host.{Env}
use predictify_contracts.Base.Action.{is_ok}
use predictify_contracts.Admin.{
  super_admin, validate_permission, validate_admin_permission, contains_permission,
  get_permissions_for_role, PendingAdminAction, AdminStore,
}
use predictify_contracts.Admin.Multisig.{
  open_action, add_approval, create_pending_action, approve_action, execute_action, get_config,
}
use predictify_contracts.Admin.Multisig.Vouched.{Vouched, execute_action-Vouched}
use predictify_contracts.Admin.Members.{assignment_of}
use predictify_contracts.Admin.Multisig.Approvals.{
  IsSound, Op, apply_all, Kept, executed_final, apply_all-IsSound,
}

abbrev at : ℕ → Env
at t = record { now = t; authorized = λ a. true }

-- the first action, approved by 1 and 2
abbrev approved : Bool → PendingAdminAction
approved executed = record {
  action_id = 1;
  action_type = "add_admin";
  target = 4;
  initiator = 1;
  approvals = 1 ∷ 2 ∷ [];
  created_at = 10;
  expires_at = 86410;
  executed = executed;
  details = [];
}

-- two approvals are asked for, and a threshold of three was proposed at 10
abbrev store : Bool → AdminStore
store executed = record {
  admin = some 1;
  admin_role = none;
  migrated = some true;
  admin_key = λ a. a;
  multi_admin = empty;
  admin_list = some (1 ∷ 2 ∷ 3 ∷ []);
  admin_count = some 3;
  paused = none;
  multisig_config = some (record { threshold = 2; total_admins = 3; enabled = true });
  pending_threshold = some (record { new_threshold = 3; proposed_at = 10; proposed_by = 1 });
  next_action_id = some 2;
  pending_action = update empty 1 (some (approved executed));
  audit = record { head = none; records = empty };
}

store-IsSound : (b : Bool) → IsSound (store b)
store-IsSound b = record { distinct = λ i a e. ground arith; fresh = λ i a e. ground arith }

-- nothing is pending at first; 1 creates the action and 2 approves it
abbrev ready : AdminStore
ready = record (store false) {
  pending_action = empty;
  multi_admin = update empty 2 (some (assignment_of (at 5) 2 super_admin 1));
}

abbrev approvals_of_two : List Op
approvals_of_two = Op.create (at 20) 1 "remove_admin" 3 [] ∷ Op.approve (at 30) 2 2 ∷ []

execution_accepted : is_ok (execute_action 2 (apply_all approvals_of_two ready)).0 ≡ true
unfolding execute_action create_pending_action open_action approve_action add_approval
    validate_permission validate_admin_permission contains_permission get_permissions_for_role
execution_accepted = refl

execute_action-Vouched_example :
    let s = apply_all approvals_of_two ready in
    (a : PendingAdminAction) × (s.pending_action 2 ≡ some a)
    × (a.executed ≡ false)
    × Distinct a.approvals
    × ((get_config s).threshold ≤ length a.approvals)
    × ((x : ℕ) → contains a.approvals x ≡ true → Vouched approvals_of_two ready 2 x)
    × ((execute_action 2 s).1 ≡ record s {
      pending_action = update s.pending_action 2 (some (record a { executed = true }));
    })
execute_action-Vouched_example =
    execute_action-Vouched approvals_of_two ready 2 (λ i. refl) execution_accepted

abbrev script : List Op
script =
    Op.create (at 20) 1 "remove_admin" 3 []
    ∷ Op.approve (at 30) 3 1
    ∷ Op.execute 1
    ∷ Op.confirm (at 90000)
    ∷ []

executed_final_example : Kept 1 (approved true) (apply_all script (store true))
executed_final_example =
    executed_final 1 (approved true) refl script (store true) (store-IsSound true) refl

apply_all-IsSound_example : IsSound (apply_all script (store false))
apply_all-IsSound_example = apply_all-IsSound script (store false) (store-IsSound false)
