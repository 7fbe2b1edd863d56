-- ===== src/Admin/Multisig.antt =====
-- `MultisigManager` (contracts/predictify-hybrid/src/admin.rs): the approval threshold with its
-- delayed change, and the actions that wait for approvals.
pub mod Approvals
pub mod Vouched
mod Tests
use Prim.Native.String.{String}
use predictify_contracts.Base.{
  ℕ, ◌+◌, Option, none, some, Bool, true, false, not, ◌&&◌, ◌||◌, List, [], ◌∷◌, ◌++◌, ◌==◌, ltb,
  leb,
}
use predictify_contracts.Base.Lists.{length, contains}
use predictify_contracts.Base.Maps.{Address, update, get_or, has}
use predictify_contracts.Base.Words.{add_u64}
use predictify_contracts.Base.Host.{Env}
use predictify_contracts.Base.Action.{
  Action, pure, raise, raise_if, gets, or_raise, or_abort, modify, ◌>>=◌, ◌>>◌,
}
use predictify_contracts.Errors.{
  Error, unauthorized, invalid_input, invalid_state, config_not_found, dispute_error,
}
use predictify_contracts.Admin.{
  emergency, MultisigConfig, PendingAdminAction, PendingThresholdUpdate, AdminStore,
  validate_permission,
}

-- `THRESHOLD_ROTATION_DELAY`, 24 hours
abbrev pub threshold_rotation_delay : ℕ
threshold_rotation_delay = 86400

abbrev pub get_config : AdminStore → MultisigConfig
get_config s =
    get_or s.multisig_config (record { threshold = 1; total_admins = 1; enabled = false })

abbrev pub count_active_admins : AdminStore → ℕ
count_active_admins s = get_or s.admin_count 1

pub propose_threshold : Env → Address → ℕ → Action AdminStore Error (Unit {0})
propose_threshold env admin new_threshold = do
  validate_permission admin emergency
  total_admins ← gets count_active_admins
  raise_if (new_threshold == 0 || ltb total_admins new_threshold) invalid_input
  modify (λ s. record s {
    pending_threshold =
        some (record { new_threshold = new_threshold; proposed_at = env.now; proposed_by = admin });
  })
  or_abort (add_u64 env.now threshold_rotation_delay)
  pure tt

pub confirm_threshold : Env → Action AdminStore Error (Unit {0})
confirm_threshold env = do
  entry ← gets (λ s. s.pending_threshold)
  pending ← or_raise entry invalid_state
  due ← or_abort (add_u64 pending.proposed_at threshold_rotation_delay)
  raise_if (ltb env.now due) invalid_state
  total_admins ← gets count_active_admins
  config ← gets get_config
  elim (pending.new_threshold == 0 || ltb total_admins pending.new_threshold) [
    | true ↦ modify (λ s. record s { pending_threshold = none }) >> raise invalid_input
    | false ↦
        modify (λ s. record s {
          multisig_config = some (record {
            threshold = pending.new_threshold;
            total_admins = total_admins;
            enabled = ltb 1 pending.new_threshold;
          });
        })
        >> modify (λ s. record s { pending_threshold = none })
  ]

pub cancel_threshold_proposal : Address → Action AdminStore Error (Unit {0})
cancel_threshold_proposal admin = do
  validate_permission admin emergency
  pending ← gets (λ s. has s.pending_threshold)
  elim pending [
    | true ↦ modify (λ s. record s { pending_threshold = none })
    | false ↦ raise invalid_state
  ]

abbrev pub get_next_action_id : Action AdminStore Error ℕ
get_next_action_id = do
  current ← gets (λ s. get_or s.next_action_id 1)
  next ← or_abort (add_u64 current 1)
  modify (λ s. record s { next_action_id = some next })
  pure current

-- what `create_pending_action` does behind its permission check; so for `approve_action`
open_action : Env → Address → String → Address → List (String × String) → Action AdminStore Error ℕ
open_action env initiator action_type target details = do
  action_id ← get_next_action_id
  expires ← or_abort (add_u64 env.now 86400)
  modify (λ s. record s {
    pending_action = update s.pending_action action_id (
        some (record {
          action_id = action_id;
          action_type = action_type;
          target = target;
          initiator = initiator;
          approvals = initiator ∷ [];
          created_at = env.now;
          expires_at = expires;
          executed = false;
          details = details;
        }));
  })
  pure action_id

pub create_pending_action :
    Env → Address → String → Address → List (String × String) → Action AdminStore Error ℕ
unfolding open_action
create_pending_action env initiator action_type target details =
    validate_permission initiator emergency >> open_action env initiator action_type target details

add_approval : Env → Address → ℕ → Action AdminStore Error Bool
add_approval env admin action_id = do
  entry ← gets (λ s. s.pending_action action_id)
  action ← or_raise entry config_not_found
  raise_if action.executed invalid_state
  raise_if (ltb action.expires_at env.now) dispute_error
  raise_if (contains action.approvals admin) invalid_state
  let approvals' = action.approvals ++ admin ∷ []
  modify (λ s. record s {
    pending_action =
        update s.pending_action action_id (some (record action { approvals = approvals' }));
  })
  config ← gets get_config
  pure (leb config.threshold (length approvals'))

pub approve_action : Env → Address → ℕ → Action AdminStore Error Bool
unfolding add_approval
approve_action env admin action_id =
    validate_permission admin emergency >> add_approval env admin action_id

pub execute_action : ℕ → Action AdminStore Error (Unit {0})
execute_action action_id = do
  entry ← gets (λ s. s.pending_action action_id)
  action ← or_raise entry config_not_found
  raise_if action.executed invalid_state
  config ← gets get_config
  raise_if (ltb (length action.approvals) config.threshold) unauthorized
  modify (λ s. record s {
    pending_action = update s.pending_action action_id (some (record action { executed = true }));
  })

pub requires_multisig : AdminStore → Bool
requires_multisig s = (get_config s).enabled && ltb 1 (get_config s).threshold
