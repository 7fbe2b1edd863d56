-- ===== src/Admin/Multisig/Approvals.antt =====
-- Actions that wait for approvals (contracts/predictify-hybrid/src/admin.rs, `MultisigManager`):
-- who has approved them, and when they can be executed.
use Prim.Native.String.{String}
use predictify_contracts.Base.{
  ℕ, ◌+◌, ◌≤◌, ◌<◌, ◌≡◌, inl, inr, none, some, true, false, List, [], ◌∷◌, arith, Option-cases,
}
use predictify_contracts.Base.Lists.{length, Distinct, append-Distinct}
use predictify_contracts.Base.Maps.{Address, update, get_or}
use predictify_contracts.Base.Host.{Env}
use predictify_contracts.Base.Action.{is_ok, check_keeps, commit, commit_keeps}
use predictify_contracts.Admin.{
  PendingAdminAction, PendingThresholdUpdate, AdminStore, emergency, validate_permission,
}
use predictify_contracts.Admin.Access.{validate_permission_read_only}
use predictify_contracts.Admin.Multisig.{
  threshold_rotation_delay, get_config, count_active_admins, open_action, add_approval,
  create_pending_action, approve_action, execute_action, propose_threshold, confirm_threshold,
  cancel_threshold_proposal,
}

-- No administrator is counted twice for one action, and the number of the next action is above
-- all that are stored.
pub record IsSound (s : AdminStore) : Type 0 where
  pub distinct :
      (i : ℕ) (a : PendingAdminAction) → s.pending_action i ≡ some a → Distinct a.approvals
  pub fresh :
      (i : ℕ) (a : PendingAdminAction) → s.pending_action i ≡ some a → i < get_or s.next_action_id 1

-- An executed action is still stored as it is.
abbrev pub Kept : ℕ → PendingAdminAction → AdminStore → Type 0
Kept i a s = s.pending_action i ≡ some a

module _ (s : AdminStore) (sound : IsSound s) where
  open_action_ok :
      (env : Env) (by : Address) (kind : String) (target : Address) (det : List (String × String))
      → is_ok (open_action env by kind target det s).0 ≡ true
      → IsSound (open_action env by kind target det s).1
  unfolding open_action
  open_action_ok env by kind target det h = record {
    distinct = λ i a e. ground (arith, sound.distinct i a);
    fresh = λ i a e. ground (arith, sound.fresh i a);
  }

  add_approval_ok :
      (env : Env) (by : Address) (n : ℕ)
      → is_ok (add_approval env by n s).0 ≡ true
      → IsSound (add_approval env by n s).1
  unfolding add_approval
  add_approval_ok env by n h = elim (Option-cases (s.pending_action n)) [
    | inl e ↦ ground arith
    | inr (b, e) ↦ record {
      distinct = λ i a f.
          ground (arith, sound.distinct i a, sound.distinct n b e, append-Distinct b.approvals by);
      fresh = λ i a f. ground (arith, sound.fresh i a, sound.fresh n b e);
    }
  ]

  execute_action-IsSound :
      (n : ℕ) → is_ok (execute_action n s).0 ≡ true → IsSound (execute_action n s).1
  unfolding execute_action
  execute_action-IsSound n h = elim (Option-cases (s.pending_action n)) [
    | inl e ↦ ground arith
    | inr (b, e) ↦ record {
      distinct = λ i a f. ground (arith, sound.distinct i a, sound.distinct n b e);
      fresh = λ i a f. ground (arith, sound.fresh i a, sound.fresh n b e);
    }
  ]

  -- From a sound store, an action is executed only if it is stored, was not executed before, and
  -- has approvals under as many different addresses as the threshold asks for; it is then marked as
  -- executed and nothing else changes.
  pub execute_action_ok :
      (n : ℕ)
      → is_ok (execute_action n s).0 ≡ true
      → (a : PendingAdminAction) × (s.pending_action n ≡ some a)
        × (a.executed ≡ false)
        × Distinct a.approvals
        × ((get_config s).threshold ≤ length a.approvals)
        × ((execute_action n s).1 ≡ record s {
          pending_action = update s.pending_action n (some (record a { executed = true }));
        })
  unfolding execute_action
  execute_action_ok n h = elim (Option-cases (s.pending_action n)) [
    | inl e ↦ ground arith
    | inr (b, e) ↦ (b, e, ground arith, sound.distinct n b e, ground arith, ground arith)
  ]

-- The operations of `MultisigManager`.
pub data Op : Type 0 where
  create : Env → Address → String → Address → List (String × String) → Op
  approve : Env → Address → ℕ → Op
  execute : ℕ → Op
  propose : Env → Address → ℕ → Op
  confirm : Env → Op
  cancel : Address → Op

-- One invocation, rolled back where it fails.
abbrev pub apply : Op → AdminStore → AdminStore
apply (Op.create env by kind target det) s =
    (commit (create_pending_action env by kind target det) s).1
apply (Op.approve env by n) s = (commit (approve_action env by n) s).1
apply (Op.execute n) s = (commit (execute_action n) s).1
apply (Op.propose env by n) s = (commit (propose_threshold env by n) s).1
apply (Op.confirm env) s = (commit (confirm_threshold env) s).1
apply (Op.cancel by) s = (commit (cancel_threshold_proposal by) s).1

abbrev pub apply_all : List Op → AdminStore → AdminStore
apply_all [] s = s
apply_all (op ∷ ops) s = apply_all ops (apply op s)

-- the operations on the threshold leave the pending actions alone
abbrev pub SameActions : AdminStore → AdminStore → Type 0
SameActions s t = (t.pending_action ≡ s.pending_action) × (t.next_action_id ≡ s.next_action_id)

pub propose_same :
    (env : Env) (by : Address) (n : ℕ) (s : AdminStore)
    → SameActions s (propose_threshold env by n s).1
unfolding propose_threshold
propose_same env by n s = ground (arith, validate_permission_read_only by emergency s)

pub confirm_same : (env : Env) (s : AdminStore) → SameActions s (confirm_threshold env s).1
unfolding confirm_threshold
confirm_same env s = ground arith

pub cancel_same : (by : Address) (s : AdminStore) → SameActions s (cancel_threshold_proposal by s).1
unfolding cancel_threshold_proposal
cancel_same by s = ground (arith, validate_permission_read_only by emergency s)

SameActions-IsSound : (s t : AdminStore) → SameActions s t → IsSound s → IsSound t
SameActions-IsSound s t (e, f) sound = record {
  distinct = λ i a g. sound.distinct i a (rw e at g);
  fresh = λ i a g. rw f (sound.fresh i a (rw e at g));
}

apply-IsSound : (op : Op) (s : AdminStore) → IsSound s → IsSound (apply op s)
unfolding create_pending_action approve_action
apply-IsSound (Op.create env by kind target det) s sound =
    check_keeps IsSound (validate_permission by emergency) (open_action env by kind target det) s
      (validate_permission_read_only by emergency s) sound
      (open_action_ok s sound env by kind target det)
apply-IsSound (Op.approve env by n) s sound =
    check_keeps IsSound (validate_permission by emergency) (add_approval env by n) s
      (validate_permission_read_only by emergency s) sound (add_approval_ok s sound env by n)
apply-IsSound (Op.execute n) s sound =
    commit_keeps IsSound (execute_action n) s sound (execute_action-IsSound s sound n)
apply-IsSound (Op.propose env by n) s sound =
    commit_keeps IsSound (propose_threshold env by n) s sound
      (λ _. SameActions-IsSound s _ (propose_same env by n s) sound)
apply-IsSound (Op.confirm env) s sound =
    commit_keeps IsSound (confirm_threshold env) s sound
      (λ _. SameActions-IsSound s _ (confirm_same env s) sound)
apply-IsSound (Op.cancel by) s sound =
    commit_keeps IsSound (cancel_threshold_proposal by) s sound
      (λ _. SameActions-IsSound s _ (cancel_same by s) sound)

module _ (i : ℕ) (a : PendingAdminAction) (done : a.executed ≡ true) where
  open_action-Kept :
      (env : Env) (by : Address) (kind : String) (target : Address) (det : List (String × String))
      (s : AdminStore)
      → IsSound s
      → Kept i a s
      → Kept i a (open_action env by kind target det s).1
  unfolding open_action
  open_action-Kept env by kind target det s sound k = ground (arith, sound.fresh i a k)

  add_approval-Kept :
      (env : Env) (by : Address) (n : ℕ) (s : AdminStore)
      → Kept i a s
      → Kept i a (add_approval env by n s).1
  unfolding add_approval
  add_approval-Kept env by n s k = ground arith

  execute_action-Kept : (n : ℕ) (s : AdminStore) → Kept i a s → Kept i a (execute_action n s).1
  unfolding execute_action
  execute_action-Kept n s k = ground arith

  apply-Kept : (op : Op) (s : AdminStore) → IsSound s → Kept i a s → Kept i a (apply op s)
  unfolding create_pending_action approve_action
  apply-Kept (Op.create env by kind target det) s sound k =
      check_keeps (Kept i a) (validate_permission by emergency) (open_action env by kind target det)
        s (validate_permission_read_only by emergency s) k
        (λ _. open_action-Kept env by kind target det s sound k)
  apply-Kept (Op.approve env by n) s sound k =
      check_keeps (Kept i a) (validate_permission by emergency) (add_approval env by n) s
        (validate_permission_read_only by emergency s) k (λ _. add_approval-Kept env by n s k)
  apply-Kept (Op.execute n) s sound k =
      commit_keeps (Kept i a) (execute_action n) s k (λ _. execute_action-Kept n s k)
  apply-Kept (Op.propose env by n) s sound k =
      commit_keeps (Kept i a) (propose_threshold env by n) s k
        (λ _. ground (arith, propose_same env by n s))
  apply-Kept (Op.confirm env) s sound k =
      commit_keeps (Kept i a) (confirm_threshold env) s k (λ _. ground (arith, confirm_same env s))
  apply-Kept (Op.cancel by) s sound k =
      commit_keeps (Kept i a) (cancel_threshold_proposal by) s k
        (λ _. ground (arith, cancel_same by s))

  -- In a sound store, an executed action stays stored as it is, whatever multisig operations
  -- follow.
  pub executed_final :
      (ops : List Op) (s : AdminStore) → IsSound s → Kept i a s → Kept i a (apply_all ops s)
  executed_final [] s sound k = k
  executed_final (op ∷ ops) s sound k =
      executed_final ops (apply op s) (apply-IsSound op s sound) (apply-Kept op s sound k)

-- Any sequence of multisig operations, failures included, keeps the approvals of every stored
-- action without duplicates and the numbers of new actions above all that are stored.
pub apply_all-IsSound : (ops : List Op) (s : AdminStore) → IsSound s → IsSound (apply_all ops s)
apply_all-IsSound [] s sound = sound
apply_all-IsSound (op ∷ ops) s sound = apply_all-IsSound ops (apply op s) (apply-IsSound op s sound)

-- A threshold is confirmed only a day after it was proposed and lies between one and the number of
-- administrators; it is then in force and no proposal is left.
pub confirm_threshold_ok :
    (env : Env) (s : AdminStore)
    → is_ok (confirm_threshold env s).0 ≡ true
    → (p : PendingThresholdUpdate) × (s.pending_threshold ≡ some p)
      × (p.proposed_at + threshold_rotation_delay ≤ env.now)
      × (1 ≤ p.new_threshold)
      × (p.new_threshold ≤ count_active_admins s)
      × ((get_config (confirm_threshold env s).1).threshold ≡ p.new_threshold)
      × ((confirm_threshold env s).1.pending_threshold ≡ none)
unfolding confirm_threshold
confirm_threshold_ok env s h = elim (Option-cases s.pending_threshold) [
  | inl e ↦ ground arith
  | inr (p, e) ↦ (p, e, ground arith, ground arith, ground arith, ground arith, ground arith)
]
