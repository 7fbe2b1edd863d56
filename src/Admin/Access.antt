-- ===== src/Admin/Access.antt =====
-- Who passes the access checks of contracts/predictify-hybrid/src/admin.rs.
use Prim.Native.String.{String}
use predictify_contracts.Base.{
  ◌≡◌, ◌≢◌, refl, ◌↔◌, ◌⊎◌, inl, inr, none, some, true, false, arith, Option-cases, Bool-cases,
  ◌==◌, if◌then◌else◌,
}
use predictify_contracts.Base.Maps.{Address, get_or}
use predictify_contracts.Base.Host.{Env}
use predictify_contracts.Base.Action.{ok, err, panic}
use predictify_contracts.Errors.{admin_not_set, unauthorized}
use predictify_contracts.Admin.{
  AdminPermission, emergency, AdminRoleAssignment, AdminStore, has_permission,
  map_action_to_permission, validate_permission, validate_admin_for_action,
}

-- The active assignment of the single-admin system gives `a` the permission `p`.
abbrev pub Assigned : AdminStore → Address → AdminPermission → Type 0
Assigned s a p =
    (r : AdminRoleAssignment) × (s.admin_role ≡ some r)
    × (r.is_active ≡ true)
    × (r.admin ≡ a)
    × (has_permission r.role p ≡ true)

-- Before the migration the original admin passes by an assigned role, after it by address.
abbrev pub Permitted : AdminStore → Address → AdminPermission → Type 0
Permitted s a p = (get_or s.migrated false ≡ true) ⊎ Assigned s a p

-- The access checks change nothing.
pub validate_permission_read_only :
    (a : Address) (p : AdminPermission) (s : AdminStore) → (validate_permission a p s).1 ≡ s
unfolding validate_permission
validate_permission_read_only a p s = ground arith

-- In parts: the original admin signs, the action's name is known, and the permission is held.
pub validate_admin_for_action_lem :
    (env : Env) (a : Address) (action : String) (s : AdminStore) {p : AdminPermission}
    → map_action_to_permission action ≡ some p
    → validate_admin_for_action env a action s ≡ (
        if env.authorized a
        then (elim s.admin [
          | none ↦ (err admin_not_set, s)
          | some b ↦ if a == b then validate_permission a p s else (err unauthorized, s)
        ])
        else (panic, s))
unfolding validate_admin_for_action
validate_admin_for_action_lem env a action s known = rw known (ground arith)

pub validate_admin_for_action_unknown :
    (env : Env) (a : Address) (action : String) (s : AdminStore)
    → map_action_to_permission action ≡ none
    → (validate_admin_for_action env a action s).0 ≢ ok tt
unfolding validate_admin_for_action
validate_admin_for_action_unknown env a action s unknown = rw unknown (ground arith)

permission_held :
    (a : Address) (p : AdminPermission) (s : AdminStore)
    → s.admin ≡ some a
    → (validate_permission a p s).0 ≡ ok tt
    → Permitted s a p
unfolding validate_permission
permission_held a p s e h = elim (Bool-cases (get_or s.migrated false)) [
  | inl m ↦ inl m
  | inr single ↦ elim (Option-cases s.admin_role) [
    | inl unassigned ↦ ground arith
    | inr (r, assigned) ↦ inr (r, assigned, ground arith, ground arith, ground arith)
  ]
]

permission_enough :
    (a : Address) (p : AdminPermission) (s : AdminStore)
    → s.admin ≡ some a
    → Permitted s a p
    → (validate_permission a p s).0 ≡ ok tt
unfolding validate_permission
permission_enough a p s e (inl m) = ground arith
permission_enough a p s e (inr (r, assigned, active, own, held)) = ground arith

-- An administrative action is let through exactly if the caller has signed and is the stored admin,
-- its name is known, and either the contract was migrated or the single active assignment is the
-- caller's and gives the permission.
pub validate_admin_for_action_iff :
    (env : Env) (a : Address) (action : String) (s : AdminStore)
    → ((validate_admin_for_action env a action s).0 ≡ ok tt) ↔ (
        (env.authorized a ≡ true)
        × (s.admin ≡ some a)
        × ((p : AdminPermission) × (map_action_to_permission action ≡ some p) × Permitted s a p))
validate_admin_for_action_iff env a action s = (granted, enough)
  where
    granted :
        (validate_admin_for_action env a action s).0 ≡ ok tt
        → (env.authorized a ≡ true)
          × (s.admin ≡ some a)
          × ((p : AdminPermission) × (map_action_to_permission action ≡ some p) × Permitted s a p)
    granted h = elim (Option-cases (map_action_to_permission action)) [
      | inl unknown ↦ absurd (validate_admin_for_action_unknown env a action s unknown h)
      | inr (p, known) ↦ elim (Option-cases s.admin) [
        | inl unset ↦ absurd (ground (arith, validate_admin_for_action_lem env a action s known))
        | inr (b, set) ↦
            let own : s.admin ≡ some a =
              ground (arith, validate_admin_for_action_lem env a action s known) in
            (
              ground (arith, validate_admin_for_action_lem env a action s known),
              own,
              (
                p,
                known,
                permission_held a p s own
                    (ground (arith, validate_admin_for_action_lem env a action s known)),
              ),
            )
      ]
    ]

    enough :
        (env.authorized a ≡ true)
          × (s.admin ≡ some a)
          × ((p : AdminPermission) × (map_action_to_permission action ≡ some p) × Permitted s a p)
        → (validate_admin_for_action env a action s).0 ≡ ok tt
    enough (signed, own, (p, known, held)) = ground (
      arith,
      validate_admin_for_action_lem env a action s known,
      permission_enough a p s own held,
    )

-- The name under which the circuit breaker asks for a change of its configuration is not known.
pub update_circuit_breaker_config_unknown :
    map_action_to_permission "update_circuit_breaker_config" ≡ none
unfolding map_action_to_permission
update_circuit_breaker_config_unknown = refl

-- The name under which it asks for a pause or a recovery is.
pub emergency_actions_known : map_action_to_permission "emergency_actions" ≡ some emergency
unfolding map_action_to_permission
emergency_actions_known = refl
