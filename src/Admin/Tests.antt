-- ===== src/Admin/Tests.antt =====
-- The access checks on small inputs (contracts/predictify-hybrid/src/admin.rs).
use predictify_contracts.Base.{◌≡◌, refl, ◌↔◌, none, some, true}
use predictify_contracts.Base.Maps.{empty}
use predictify_contracts.Base.Host.{Env}
use predictify_contracts.Base.Action.{ok}
use predictify_contracts.Admin.{
  AdminPermission, fee_admin, AdminStore, get_permissions_for_role, map_action_to_permission,
  validate_admin_for_action, require_admin_auth, validate_permission, get_admin_role,
  has_permission, contains_permission,
}
use predictify_contracts.Admin.Access.{Permitted, validate_admin_for_action_iff}

abbrev at_5 : Env
at_5 = record { now = 5; authorized = λ a. true }

-- 1 is the admin, with the role for fees
abbrev store : AdminStore
store = record {
  admin = some 1;
  admin_role = some (record {
    admin = 1;
    role = fee_admin;
    assigned_by = 1;
    assigned_at = 3;
    permissions = get_permissions_for_role fee_admin;
    is_active = true;
  });
  migrated = none;
  admin_key = λ a. a;
  multi_admin = empty;
  admin_list = none;
  admin_count = none;
  paused = none;
  multisig_config = none;
  pending_threshold = none;
  next_action_id = none;
  pending_action = empty;
  audit = record { head = none; records = empty };
}

fees_allowed : (validate_admin_for_action at_5 1 "update_fees" store).0 ≡ ok tt
unfolding validate_admin_for_action require_admin_auth validate_permission get_admin_role
    has_permission get_permissions_for_role contains_permission map_action_to_permission
fees_allowed = refl

validate_admin_for_action_iff_example :
    ((validate_admin_for_action at_5 1 "update_fees" store).0 ≡ ok tt) ↔ (
      (true ≡ true)
      × (store.admin ≡ some 1)
      × ((p : AdminPermission) × (map_action_to_permission "update_fees" ≡ some p)
          × Permitted store 1 p))
validate_admin_for_action_iff_example = validate_admin_for_action_iff at_5 1 "update_fees" store
