-- ===== src/Admin/Members/Register.antt =====
-- The register of administrators: the list, the count and the stored assignments
-- (contracts/predictify-hybrid/src/admin.rs, `AdminManager`).
use predictify_contracts.Base.{
  ℕ, ◌≡◌, ◌≢◌, refl, inl, inr, none, some, Bool, true, false, List, [], ◌∷◌, arith, Option-cases,
}
use predictify_contracts.Base.Lists.{
  length, contains, Distinct, contains-append, append-Distinct, contains-remove_first_ne,
  contains-remove_first_self, remove_first-Distinct, length-append, length-remove_first,
}
use predictify_contracts.Base.Maps.{Address, get_or, has}
use predictify_contracts.Base.Host.{Env}
use predictify_contracts.Base.Action.{is_ok, check_keeps, commit}
use predictify_contracts.Admin.{
  AdminRole, super_admin, AdminRoleAssignment, AdminStore, emergency, validate_permission,
}
use predictify_contracts.Admin.Access.{validate_permission_read_only}
use predictify_contracts.Admin.Members.{
  enrol, strike, reassign, add_admin, remove_admin, update_admin_role, deactivate_admin,
  reactivate_admin, migrate_to_multi_admin, set_active,
}

abbrev pub members : AdminStore → List Address
members s = get_or s.admin_list []

-- No address is listed twice, exactly the addresses with an assignment under their key are listed,
-- the count is the length of the list, and different addresses have different keys.
pub record IsRegister (s : AdminStore) : Type 0 where
  pub distinct : Distinct (members s)
  pub exact : (a : Address) → contains (members s) a ≡ has (s.multi_admin (s.admin_key a))
  pub counted : get_or s.admin_count 0 ≡ length (members s)
  pub separate : (a b : Address) → s.admin_key a ≡ s.admin_key b → a ≡ b

enrol_ok :
    (env : Env) (c a : Address) (role : AdminRole) (s : AdminStore)
    → IsRegister s
    → is_ok (enrol env c a role s).0 ≡ true
    → IsRegister (enrol env c a role s).1
unfolding enrol
enrol_ok env c a role s reg h =
    let new : contains (members s) a ≡ false = ground (arith, reg.exact a) in
    record {
      distinct = ground (arith, append-Distinct (members s) a reg.distinct new);
      exact = λ j. ground (
        arith,
        reg.exact j,
        reg.exact a,
        reg.separate a j,
        reg.separate j a,
        contains-append (members s) a j,
      );
      counted = ground (arith, length-append (members s) (a ∷ []));
      separate = λ i j. ground (arith, reg.separate i j);
    }

-- Adding an administrator keeps the register consistent, also where the call fails.
pub add_admin-IsRegister :
    (env : Env) (c a : Address) (role : AdminRole) (s : AdminStore)
    → IsRegister s
    → IsRegister (commit (add_admin env c a role) s).1
unfolding add_admin
add_admin-IsRegister env c a role s reg =
    check_keeps IsRegister (validate_permission c emergency) (enrol env c a role) s
      (validate_permission_read_only c emergency s) reg (enrol_ok env c a role s reg)

strike_ok :
    (c a : Address) (s : AdminStore)
    → IsRegister s
    → is_ok (strike c a s).0 ≡ true
    → IsRegister (strike c a s).1
unfolding strike
strike_ok c a s reg h =
    let old : contains (members s) a ≡ true = ground (arith, reg.exact a) in
    record {
      distinct = ground (arith, old, remove_first-Distinct (members s) a reg.distinct);
      exact = λ j. ground (
        arith,
        old,
        reg.exact j,
        reg.separate a j,
        reg.separate j a,
        contains-remove_first_ne (members s) a j,
        contains-remove_first_self (members s) a reg.distinct,
      );
      counted = ground (arith, old, length-remove_first (members s) a old);
      separate = λ i j. ground (arith, old, reg.separate i j);
    }

-- Removing one does too.
pub remove_admin-IsRegister :
    (env : Env) (c a : Address) (s : AdminStore)
    → IsRegister s
    → IsRegister (commit (remove_admin env c a) s).1
unfolding remove_admin
remove_admin-IsRegister env c a s reg =
    check_keeps IsRegister (validate_permission c emergency) (strike c a) s
      (validate_permission_read_only c emergency s) reg (strike_ok c a s reg)

-- A new role, a deactivation and a reactivation leave the set of administrators as it is.
reassign_ok :
    (env : Env) (c a : Address) (role : AdminRole) (s : AdminStore)
    → IsRegister s
    → is_ok (reassign env c a role s).0 ≡ true
    → IsRegister (reassign env c a role s).1
unfolding reassign
reassign_ok env c a role s reg h = record {
  distinct = ground (arith, reg.distinct);
  exact = λ j. ground (arith, reg.exact j, reg.separate a j, reg.separate j a);
  counted = ground (arith, reg.counted);
  separate = λ i j. ground (arith, reg.separate i j);
}

pub update_admin_role-IsRegister :
    (env : Env) (c a : Address) (role : AdminRole) (s : AdminStore)
    → IsRegister s
    → IsRegister (commit (update_admin_role env c a role) s).1
unfolding update_admin_role
update_admin_role-IsRegister env c a role s reg =
    check_keeps IsRegister (validate_permission c emergency) (reassign env c a role) s
      (validate_permission_read_only c emergency s) reg (reassign_ok env c a role s reg)

set_active_ok :
    (active : Bool) (a : Address) (s : AdminStore)
    → IsRegister s
    → is_ok (set_active active a s).0 ≡ true
    → IsRegister (set_active active a s).1
unfolding set_active
set_active_ok active a s reg h = record {
  distinct = ground (arith, reg.distinct);
  exact = λ j. ground (arith, reg.exact j, reg.separate a j, reg.separate j a);
  counted = ground (arith, reg.counted);
  separate = λ i j. ground (arith, reg.separate i j);
}

pub deactivate_admin-IsRegister :
    (c a : Address) (s : AdminStore) → IsRegister s → IsRegister (commit (deactivate_admin c a) s).1
unfolding deactivate_admin
deactivate_admin-IsRegister c a s reg =
    check_keeps IsRegister (validate_permission c emergency) (set_active false a) s
      (validate_permission_read_only c emergency s) reg (set_active_ok false a s reg)

pub reactivate_admin-IsRegister :
    (c a : Address) (s : AdminStore) → IsRegister s → IsRegister (commit (reactivate_admin c a) s).1
unfolding reactivate_admin
reactivate_admin-IsRegister c a s reg =
    check_keeps IsRegister (validate_permission c emergency) (set_active true a) s
      (validate_permission_read_only c emergency s) reg (set_active_ok true a s reg)

-- The operations of `AdminManager`.
pub data Op : Type 0 where
  add : Env → Address → Address → AdminRole → Op
  remove : Env → Address → Address → Op
  change_role : Env → Address → Address → AdminRole → Op
  deactivate reactivate : Address → Address → Op

-- One invocation, rolled back where it fails.
abbrev pub apply : Op → AdminStore → AdminStore
apply (Op.add env c a role) s = (commit (add_admin env c a role) s).1
apply (Op.remove env c a) s = (commit (remove_admin env c a) s).1
apply (Op.change_role env c a role) s = (commit (update_admin_role env c a role) s).1
apply (Op.deactivate c a) s = (commit (deactivate_admin c a) s).1
apply (Op.reactivate c a) s = (commit (reactivate_admin c a) s).1

abbrev pub apply_all : List Op → AdminStore → AdminStore
apply_all [] s = s
apply_all (op ∷ ops) s = apply_all ops (apply op s)

apply-IsRegister : (op : Op) (s : AdminStore) → IsRegister s → IsRegister (apply op s)
apply-IsRegister (Op.add env c a role) s reg = add_admin-IsRegister env c a role s reg
apply-IsRegister (Op.remove env c a) s reg = remove_admin-IsRegister env c a s reg
apply-IsRegister (Op.change_role env c a role) s reg =
    update_admin_role-IsRegister env c a role s reg
apply-IsRegister (Op.deactivate c a) s reg = deactivate_admin-IsRegister c a s reg
apply-IsRegister (Op.reactivate c a) s reg = reactivate_admin-IsRegister c a s reg

pub apply_all-IsRegister :
    (ops : List Op) (s : AdminStore) → IsRegister s → IsRegister (apply_all ops s)
apply_all-IsRegister [] s reg = reg
apply_all-IsRegister (op ∷ ops) s reg =
    apply_all-IsRegister ops (apply op s) (apply-IsRegister op s reg)

-- The migration sets up a consistent register of one administrator, if none was added before it
-- and different addresses have different keys.
pub migrate_to_multi_admin-IsRegister :
    (env : Env) (s : AdminStore)
    → ((k : ℕ) → s.multi_admin k ≡ none)
    → ((a b : Address) → s.admin_key a ≡ s.admin_key b → a ≡ b)
    → s.admin ≢ none
    → IsRegister (migrate_to_multi_admin env s)
unfolding migrate_to_multi_admin
migrate_to_multi_admin-IsRegister env s fresh separate set = elim (Option-cases s.admin) [
  | inl unset ↦ absurd (set unset)
  | inr (b, e) ↦ rw e (record {
    distinct = (refl, tt);
    exact = λ j. ground (arith, fresh (s.admin_key j), separate b j, separate j b);
    counted = refl;
    separate = separate;
  })
]

-- An administrator that was added before the migration, other than the original one, keeps the
-- assignment and is not in the list afterwards.
pub migrate_to_multi_admin_drops :
    (env : Env) (s : AdminStore) {b : Address} {r : AdminRoleAssignment} (a : Address)
    → s.admin ≡ some b
    → a ≢ b
    → (s.admin_key a ≡ s.admin_key b → a ≡ b)
    → s.multi_admin (s.admin_key a) ≡ some r
    → let s' = migrate_to_multi_admin env s in
      (s'.multi_admin (s.admin_key a) ≡ some r) × (contains (members s') a ≡ false)
unfolding migrate_to_multi_admin
migrate_to_multi_admin_drops env s a set other separate held = rw set (ground arith, ground arith)

-- A super administrator of the register can never be given another role.
pub update_admin_role_super :
    (env : Env) (c a : Address) (role : AdminRole) (s : AdminStore) {r : AdminRoleAssignment}
    → s.multi_admin (s.admin_key a) ≡ some r
    → r.role ≡ super_admin
    → role ≢ super_admin
    → is_ok (update_admin_role env c a role s).0 ≡ false
unfolding update_admin_role reassign
update_admin_role_super env c a role s held super other =
    ground (arith, validate_permission_read_only c emergency s)
