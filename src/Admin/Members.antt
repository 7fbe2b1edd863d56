-- ===== src/Admin/Members.antt =====
-- `AdminManager` and the migration (contracts/predictify-hybrid/src/admin.rs): the register of
-- administrators beside the original one.
pub mod Register
mod Tests
use predictify_contracts.Base.{
  ℕ, ◌+◌, ◌-◌, Option, none, some, Bool, true, false, not, ◌&&◌, ◌||◌, List, [], ◌∷◌, ◌++◌, ◌==◌,
  ltb, leb, if◌then◌else◌,
}
use predictify_contracts.Base.Lists.{contains, remove_first}
use predictify_contracts.Base.Maps.{Address, update, get_or, has}
use predictify_contracts.Base.Words.{add_u32}
use predictify_contracts.Base.Host.{Env}
use predictify_contracts.Base.Action.{
  Action, pure, raise_if, gets, or_raise, or_abort, modify, ◌>>=◌, ◌>>◌,
}
use predictify_contracts.Errors.{Error, unauthorized, invalid_state}
use predictify_contracts.Admin.{
  AdminRole, super_admin, emergency, AdminRoleAssignment, AdminStore, role_discriminant,
  is_original_admin, get_permissions_for_role, validate_permission,
}

-- `AdminManager::is_admin`
abbrev pub is_admin : AdminStore → Address → Bool
is_admin s a = is_original_admin s a || has (s.multi_admin (s.admin_key a))

-- `AdminManager::count_admins_with_role`
pub count_admins_with_role : AdminRole → AdminStore → ℕ
count_admins_with_role role s =
    if role_discriminant role == role_discriminant super_admin && has s.admin then 1 else 0

-- the assignment that `add_admin` and the migration store
abbrev pub assignment_of : Env → Address → AdminRole → Address → AdminRoleAssignment
assignment_of env a role by = record {
  admin = a;
  role = role;
  assigned_by = by;
  assigned_at = env.now;
  permissions = get_permissions_for_role role;
  is_active = true;
}

-- the list entry "AdminList" after `push_back`, unless the address is in it
abbrev pub listed : Option (List Address) → Address → Option (List Address)
listed entry a = let l = get_or entry [] in if contains l a then entry else some (l ++ a ∷ [])

-- what `add_admin` does behind its permission check; so for the others below
enrol : Env → Address → Address → AdminRole → Action AdminStore Error (Unit {0})
enrol env current_admin new_admin role = do
  known ← gets (λ s. is_admin s new_admin)
  raise_if known invalid_state
  modify (λ s. record s {
    multi_admin =
        update s.multi_admin (s.admin_key new_admin)
          (some (assignment_of env new_admin role current_admin));
  })
  modify (λ s. record s { admin_list = listed s.admin_list new_admin })
  count ← gets (λ s. get_or s.admin_count 0)
  count' ← or_abort (add_u32 count 1)
  modify (λ s. record s { admin_count = some count' })

pub add_admin : Env → Address → Address → AdminRole → Action AdminStore Error (Unit {0})
unfolding enrol
add_admin env current_admin new_admin role =
    validate_permission current_admin emergency >> enrol env current_admin new_admin role

-- the list entry "AdminList" after `remove(index)`
abbrev pub unlisted : Option (List Address) → Address → Option (List Address)
unlisted none a = none
unlisted (some l) a = if contains l a then some (remove_first l a) else some l

-- the entry "AdminCount" after the removal
abbrev pub one_less : Option ℕ → Option ℕ
one_less entry = let n = get_or entry 0 in if ltb 0 n then some (n - 1) else entry

strike : Address → Address → Action AdminStore Error (Unit {0})
unfolding count_admins_with_role
strike current_admin admin_to_remove = do
  super_admin_count ← gets (count_admins_with_role super_admin)
  raise_if (current_admin == admin_to_remove && leb super_admin_count 1) invalid_state
  stored ← gets (λ s. has (s.multi_admin (s.admin_key admin_to_remove)))
  raise_if (not stored) unauthorized
  modify (λ s. record s { multi_admin = update s.multi_admin (s.admin_key admin_to_remove) none })
  modify (λ s. record s { admin_list = unlisted s.admin_list admin_to_remove })
  modify (λ s. record s { admin_count = one_less s.admin_count })

pub remove_admin : Env → Address → Address → Action AdminStore Error (Unit {0})
unfolding strike
remove_admin env current_admin admin_to_remove =
    validate_permission current_admin emergency >> strike current_admin admin_to_remove

reassign : Env → Address → Address → AdminRole → Action AdminStore Error (Unit {0})
unfolding count_admins_with_role
reassign env current_admin target_admin new_role = do
  entry ← gets (λ s. s.multi_admin (s.admin_key target_admin))
  assignment ← or_raise entry unauthorized
  super_admin_count ← gets (count_admins_with_role super_admin)
  raise_if
      (role_discriminant assignment.role == role_discriminant super_admin
        && not (role_discriminant new_role == role_discriminant super_admin)
        && leb super_admin_count 1)
      invalid_state
  modify (λ s. record s {
    multi_admin = update s.multi_admin (s.admin_key target_admin) (
        some (record assignment {
          role = new_role;
          permissions = get_permissions_for_role new_role;
          assigned_by = current_admin;
          assigned_at = env.now;
        }));
  })

pub update_admin_role : Env → Address → Address → AdminRole → Action AdminStore Error (Unit {0})
unfolding reassign
update_admin_role env current_admin target_admin new_role =
    validate_permission current_admin emergency >> reassign env current_admin target_admin new_role

-- the common part of `deactivate_admin` and `reactivate_admin`
set_active : Bool → Address → Action AdminStore Error (Unit {0})
set_active active target_admin = do
  entry ← gets (λ s. s.multi_admin (s.admin_key target_admin))
  assignment ← or_raise entry unauthorized
  modify (λ s. record s {
    multi_admin =
        update s.multi_admin (s.admin_key target_admin)
          (some (record assignment { is_active = active }));
  })

pub deactivate_admin : Address → Address → Action AdminStore Error (Unit {0})
unfolding set_active
deactivate_admin current_admin target_admin =
    validate_permission current_admin emergency >> set_active false target_admin

pub reactivate_admin : Address → Address → Action AdminStore Error (Unit {0})
unfolding set_active
reactivate_admin current_admin target_admin =
    validate_permission current_admin emergency >> set_active true target_admin

-- `AdminSystemIntegration::migrate_to_multi_admin`
pub migrate_to_multi_admin : Env → AdminStore → AdminStore
unfolding get_permissions_for_role
migrate_to_multi_admin env s = elim s.admin [
  | none ↦ s
  | some a ↦ record s {
    multi_admin = update s.multi_admin (s.admin_key a) (some (assignment_of env a super_admin a));
    admin_list = some (a ∷ []);
    admin_count = some 1;
    migrated = some true;
  }
]

-- `AdminSystemIntegration::ensure_migration`
pub ensure_migration : Env → AdminStore → AdminStore
unfolding migrate_to_multi_admin
ensure_migration env s = if get_or s.migrated false then s else migrate_to_multi_admin env s
