-- ===== src/Admin.antt =====
-- Administrators (contracts/predictify-hybrid/src/admin.rs): the stored entries, the roles and
-- their permissions, the access checks and the contract's pause. Text and addresses are only
-- compared. Emitted events are not modelled; the audit record that an operation appends is.
pub mod Members
pub mod Multisig
pub mod Access
mod Tests
use Prim.Native.String.{String}
use text.Mathlib.Text.{◌==◌ as str_eq}
use predictify_contracts.Base.{
  ℕ, Option, none, some, Bool, true, false, not, ◌||◌, List, [], ◌∷◌, ◌==◌, if◌then◌else◌,
}
use predictify_contracts.Base.Maps.{Address, Symbol, Map, get_or, has}
use predictify_contracts.Base.Host.{Env, require_auth}
use predictify_contracts.Base.Action.{
  Action, pure, raise, raise_if, gets, or_raise, modify, zoom, ◌>>=◌, ◌>>◌,
}
use predictify_contracts.Errors.{Error, admin_not_set, unauthorized, invalid_input, invalid_state}
use predictify_contracts.AuditTrail.{
  AuditAction, AuditRecord, AuditStore, append_record, admin_role_updated, contract_paused,
  contract_unpaused, admin_transferred,
}

pub data AdminRole : Type 0 where
  super_admin market_admin config_admin fee_admin read_only_admin : AdminRole

pub data AdminPermission : Type 0 where
  initialize create_market close_market finalize_market extend_market update_fees : AdminPermission
  update_config reset_config collect_fees manage_dispute view_analytic emergency : AdminPermission

-- the enum's discriminant, by which permissions are compared
abbrev pub discriminant : AdminPermission → ℕ
discriminant initialize = 0
discriminant create_market = 1
discriminant close_market = 2
discriminant finalize_market = 3
discriminant extend_market = 4
discriminant update_fees = 5
discriminant update_config = 6
discriminant reset_config = 7
discriminant collect_fees = 8
discriminant manage_dispute = 9
discriminant view_analytic = 10
discriminant emergency = 11

pub contains_permission : List AdminPermission → AdminPermission → Bool
contains_permission [] p = false
contains_permission (q ∷ qs) p = discriminant p == discriminant q || contains_permission qs p

abbrev pub role_discriminant : AdminRole → ℕ
role_discriminant super_admin = 0
role_discriminant market_admin = 1
role_discriminant config_admin = 2
role_discriminant fee_admin = 3
role_discriminant read_only_admin = 4

pub record AdminRoleAssignment : Type 0 where
  pub admin : Address
  pub role : AdminRole
  pub assigned_by : Address
  pub assigned_at : ℕ
  pub permissions : List AdminPermission
  pub is_active : Bool

pub record MultisigConfig : Type 0 where
  pub threshold : ℕ
  pub total_admins : ℕ
  pub enabled : Bool

pub record PendingAdminAction : Type 0 where
  pub action_id : ℕ
  pub action_type : String
  pub target : Address
  pub initiator : Address
  pub approvals : List Address
  pub created_at : ℕ
  pub expires_at : ℕ
  pub executed : Bool
  pub details : List (String × String)  -- the field `data`

pub record PendingThresholdUpdate : Type 0 where
  pub new_threshold : ℕ
  pub proposed_at : ℕ
  pub proposed_by : Address

-- The persistent entries: "Admin", "admin_role", "MultiAdminMigrated", "MultiAdmin_{address}",
-- "AdminList", "AdminCount", "ContractPaused", "MultisigConfig", "PendingThreshold",
-- "NextActionId", "PendingAction_{id}", and the audit trail.
pub record AdminStore : Type 0 where
  pub admin : Option Address
  pub admin_role : Option AdminRoleAssignment
  pub migrated : Option Bool
  -- the number of the key that `get_admin_key` formats: the text form of an address is the host's
  pub admin_key : Address → ℕ
  pub multi_admin : Map AdminRoleAssignment
  pub admin_list : Option (List Address)
  pub admin_count : Option ℕ
  pub paused : Option Bool
  pub multisig_config : Option MultisigConfig
  pub pending_threshold : Option PendingThresholdUpdate
  pub next_action_id : Option ℕ
  pub pending_action : Map PendingAdminAction
  pub audit : AuditStore

-- `AdminRoleManager::get_permissions_for_role`
pub get_permissions_for_role : AdminRole → List AdminPermission
get_permissions_for_role super_admin =
    initialize ∷ create_market ∷ close_market ∷ finalize_market ∷ extend_market ∷ update_fees
    ∷ update_config ∷ reset_config ∷ collect_fees ∷ manage_dispute ∷ view_analytic ∷ emergency ∷ []
get_permissions_for_role market_admin =
    create_market ∷ close_market ∷ finalize_market ∷ extend_market ∷ view_analytic ∷ []
get_permissions_for_role config_admin = update_config ∷ reset_config ∷ view_analytic ∷ []
get_permissions_for_role fee_admin = update_fees ∷ collect_fees ∷ view_analytic ∷ []
get_permissions_for_role read_only_admin = view_analytic ∷ []

-- `AdminRoleManager::has_permission`
pub has_permission : AdminRole → AdminPermission → Bool
unfolding get_permissions_for_role contains_permission
has_permission role p = contains_permission (get_permissions_for_role role) p

-- `AdminAccessControl::map_action_to_permission`
pub map_action_to_permission : String → Option AdminPermission
map_action_to_permission a =
    if str_eq a "initialize"
    then some initialize
    else (if str_eq a "create_market"
        then some create_market
        else (if str_eq a "close_market"
            then some close_market
            else (if str_eq a "finalize_market"
                then some finalize_market
                else (if str_eq a "extend_market"
                    then some extend_market
                    else (if str_eq a "update_fees"
                        then some update_fees
                        else (if str_eq a "update_config"
                            then some update_config
                            else (if str_eq a "reset_config"
                                then some reset_config
                                else (if str_eq a "collect_fees"
                                    then some collect_fees
                                    else (if str_eq a "manage_disputes"
                                        then some manage_dispute
                                        else (if str_eq a "view_analytics"
                                            then some view_analytic
                                            else (if str_eq a "emergency_actions"
                                                then some emergency
                                                else (if str_eq a "admin_broadcast"
                                                    then some emergency
                                                    else none))))))))))))

-- `AdminManager::is_original_admin`
abbrev pub is_original_admin : AdminStore → Address → Bool
is_original_admin s a = elim s.admin [ none ↦ false | some b ↦ a == b ]

-- `AdminAccessControl::require_admin_auth`
pub require_admin_auth : Env → Address → Action AdminStore Error (Unit {0})
require_admin_auth env admin = do
  require_auth env admin
  stored ← gets (λ s. s.admin)
  stored_admin ← or_raise stored admin_not_set
  raise_if (not (admin == stored_admin)) unauthorized

-- `AdminRoleManager::get_admin_role`
pub get_admin_role : Address → Action AdminStore Error AdminRole
get_admin_role admin = do
  entry ← gets (λ s. s.admin_role)
  assignment ← or_raise entry unauthorized
  raise_if (not assignment.is_active) unauthorized
  raise_if (not (admin == assignment.admin)) unauthorized
  pure assignment.role

-- `AdminManager::validate_admin_permission`
pub validate_admin_permission : Address → AdminPermission → Action AdminStore Error (Unit {0})
validate_admin_permission admin p s =
    if is_original_admin s admin
    then pure tt s
    else (do
      assignment ← or_raise (s.multi_admin (s.admin_key admin)) unauthorized
      raise_if (not assignment.is_active || not (contains_permission assignment.permissions p))
          unauthorized)
        s

-- `AdminAccessControl::validate_permission`
pub validate_permission : Address → AdminPermission → Action AdminStore Error (Unit {0})
unfolding validate_admin_permission get_admin_role
validate_permission admin p s =
    if get_or s.migrated false
    then validate_admin_permission admin p s
    else (do role ← get_admin_role admin; raise_if (not (has_permission role p)) unauthorized) s

-- `AdminAccessControl::validate_admin_for_action`
pub validate_admin_for_action : Env → Address → String → Action AdminStore Error (Unit {0})
unfolding require_admin_auth validate_permission
validate_admin_for_action env admin action = do
  require_admin_auth env admin
  permission ← or_raise (map_action_to_permission action) invalid_input
  validate_permission admin permission

-- `ContractPauseManager::is_contract_paused`
pub is_contract_paused : AdminStore → Bool
is_contract_paused s = get_or s.paused false

-- `ContractPauseManager::require_not_paused`
pub require_not_paused : Action AdminStore Error (Unit {0})
unfolding is_contract_paused
require_not_paused = do raise_if (← gets is_contract_paused) invalid_state

module _ (digest : AuditRecord → ℕ) where
  -- the audit record that an operation of this file appends, with no details
  abbrev pub log : Env → AuditAction → Address → Action AdminStore Error ℕ
  log env act who =
      zoom (λ s. s.audit) (λ t s. record s { audit = t }) (append_record digest env act who [] none)

  pub pause : Env → Address → Action AdminStore Error (Unit {0})
  unfolding require_admin_auth
  pause env admin = do
    require_admin_auth env admin
    modify (λ s. record s { paused = some true })
    log env contract_paused admin
    pure tt

  pub unpause : Env → Address → Action AdminStore Error (Unit {0})
  unfolding require_admin_auth
  unpause env admin = do
    require_admin_auth env admin
    modify (λ s. record s { paused = some false })
    log env contract_unpaused admin
    pure tt

  pub transfer_admin : Env → Address → Address → Action AdminStore Error (Unit {0})
  unfolding require_admin_auth
  transfer_admin env current_admin new_admin = do
    require_admin_auth env current_admin
    raise_if (new_admin == current_admin) invalid_input
    modify (λ s. record s { admin = some new_admin })
    log env admin_transferred current_admin
    pure tt

  -- `AdminRoleManager::assign_role`; the first assignment is made without a check
  pub assign_role : Env → Address → AdminRole → Address → Action AdminStore Error (Unit {0})
  unfolding validate_permission get_permissions_for_role
  assign_role env admin role assigned_by s =
      (do
        (if has s.admin_role then validate_permission assigned_by emergency else pure tt)
        modify (λ s. record s {
          admin_role = some (record {
            admin = admin;
            role = role;
            assigned_by = assigned_by;
            assigned_at = env.now;
            permissions = get_permissions_for_role role;
            is_active = true;
          });
        })
        log env admin_role_updated assigned_by
        pure tt)
        s

-- `AdminRoleManager::deactivate_role`
pub deactivate_role : Address → Action AdminStore Error (Unit {0})
unfolding validate_permission
deactivate_role deactivated_by = do
  validate_permission deactivated_by emergency
  entry ← gets (λ s. s.admin_role)
  assignment ← or_raise entry unauthorized
  modify (λ s. record s { admin_role = some (record assignment { is_active = false }) })
