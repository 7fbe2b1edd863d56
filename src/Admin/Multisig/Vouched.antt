-- ===== src/Admin/Multisig/Vouched.antt =====
-- Who stands behind an executed action (contracts/predictify-hybrid/src/admin.rs,
-- `MultisigManager`): every approval was entered with the permission for it.
use Prim.Native.String.{String}
use predictify_contracts.Base.{
  ℕ, ◌≤◌, ◌≡◌, ◌⊎◌, inl, inr, some, none, true, false, List, [], ◌∷◌, arith, Option-cases,
  Bool-cases, ◌==◌, ◌∙◌, subst, sym, ap,
}
use predictify_contracts.Base.Lists.{length, Distinct, contains, contains-append}
use predictify_contracts.Base.Maps.{Address, update, get_or}
use predictify_contracts.Base.Host.{Env}
use predictify_contracts.Base.Action.{
  Action, Result, is_ok, commit, commit_keeps, bind-is_ok, bind_lem, value_of, ◌>>◌,
}
use predictify_contracts.Errors.{Error}
use predictify_contracts.Admin.{PendingAdminAction, AdminStore, emergency, validate_permission}
use predictify_contracts.Admin.Access.{validate_permission_read_only}
use predictify_contracts.Admin.Multisig.{
  get_config, open_action, add_approval, create_pending_action, approve_action, execute_action,
  propose_threshold, confirm_threshold, cancel_threshold_proposal,
}
use predictify_contracts.Admin.Multisig.Approvals.{
  Op, apply, apply_all, apply_all-IsSound, execute_action_ok, propose_same, confirm_same,
  cancel_same,
}

-- The call is made in the name of `x` and creates action `i`, the next one of the store, or approves it.
abbrev pub Enters : Op → AdminStore → ℕ → Address → Type 0
Enters (Op.create env by kind target det) s i x = (by ≡ x) × (get_or s.next_action_id 1 ≡ i)
Enters (Op.approve env by n) s i x = (by ≡ x) × (n ≡ i)
Enters (Op.execute n) s i x = ⊥
Enters (Op.propose env by n) s i x = ⊥
Enters (Op.confirm env) s i x = ⊥
Enters (Op.cancel by) s i x = ⊥

-- `x` has the permission for emergency actions.
abbrev pub IsPermitted : Address → AdminStore → Type 0
IsPermitted x s = is_ok (validate_permission x emergency s).0 ≡ true

-- One of the calls entered the approval of `i` by `x`, who had the permission at that time.
abbrev pub Vouched : List Op → AdminStore → ℕ → Address → Type 0
Vouched [] s i x = ⊥
Vouched (op ∷ ops) s i x = (Enters op s i x × IsPermitted x s) ⊎ Vouched ops (apply op s) i x

-- Action `i` is stored and has the approval of `x`.
abbrev Approved : ℕ → Address → AdminStore → Type 0
Approved i x s =
    (a : PendingAdminAction) × (s.pending_action i ≡ some a) × (contains a.approvals x ≡ true)

-- a committed call behind the permission check of `x`
permitted_keeps :
    {A : Type 0} (P : AdminStore → Type 0) (x : Address) (k : Action AdminStore Error A)
    (s : AdminStore)
    → P s
    → (IsPermitted x s → is_ok (k s).0 ≡ true → P (k s).1)
    → P (commit (validate_permission x emergency >> k) s).1
permitted_keeps {A} P x k s p h =
    let check = validate_permission x emergency in
    commit_keeps P (check >> k) s p (λ e.
      let first = bind-is_ok check (λ _. k) s e in
      let (u, v) = value_of (check s).0 first in
      let to = bind_lem check (λ _. k) s u v ∙ ap k (validate_permission_read_only x emergency s) in
      subst (λ (r : Result Error A × AdminStore). P r.1) (sym to)
        (h first (subst (λ (r : Result Error A × AdminStore). is_ok r.0 ≡ true) to e)))

module _ (i : ℕ) (x : Address) (s : AdminStore) where
  -- Before the call the action had the approval, or the call enters it.
  abbrev Explained : Op → AdminStore → Type 0
  Explained op t = Approved i x t → Approved i x s ⊎ (Enters op s i x × IsPermitted x s)

  open_action-Explained :
      (env : Env) (by : Address) (kind : String) (target : Address) (det : List (String × String))
      → IsPermitted by s
      → is_ok (open_action env by kind target det s).0 ≡ true
      → Explained (Op.create env by kind target det) (open_action env by kind target det s).1
  unfolding open_action
  open_action-Explained env by kind target det p h (a, e, c) =
      elim (Bool-cases (i == get_or s.next_action_id 1)) [
        | inl f ↦
            let same : by ≡ x = ground arith in
            inr ((same, ground arith), subst (λ y. IsPermitted y s) same p)
        | inr f ↦ inl (a, ground arith, c)
      ]

  add_approval-Explained :
      (env : Env) (by : Address) (n : ℕ)
      → IsPermitted by s
      → is_ok (add_approval env by n s).0 ≡ true
      → Explained (Op.approve env by n) (add_approval env by n s).1
  unfolding add_approval
  add_approval-Explained env by n p h (a, e, c) = elim (Option-cases (s.pending_action i)) [
    | inl f ↦ absurd (ground arith)
    | inr (b, f) ↦ elim (Bool-cases (contains b.approvals x)) [
      | inl g ↦ inl (b, f, g)
      | inr g ↦
          let same : by ≡ x = ground (arith, contains-append b.approvals by x) in
          inr ((same, ground arith), subst (λ y. IsPermitted y s) same p)
    ]
  ]

  execute_action-Explained : (n : ℕ) → Explained (Op.execute n) (execute_action n s).1
  unfolding execute_action
  execute_action-Explained n (a, e, c) = elim (Option-cases (s.pending_action i)) [
    | inl f ↦ absurd (ground arith)
    | inr (b, f) ↦ inl (b, f, ground arith)
  ]

apply-Explained : (i : ℕ) (x : Address) (op : Op) (s : AdminStore) → Explained i x s op (apply op s)
unfolding create_pending_action approve_action
apply-Explained i x (Op.create env by kind target det) s =
    permitted_keeps (Explained i x s (Op.create env by kind target det)) by
      (open_action env by kind target det) s inl
      (λ p h. open_action-Explained i x s env by kind target det p h)
apply-Explained i x (Op.approve env by n) s =
    permitted_keeps (Explained i x s (Op.approve env by n)) by (add_approval env by n) s inl
      (λ p h. add_approval-Explained i x s env by n p h)
apply-Explained i x (Op.execute n) s =
    commit_keeps (Explained i x s (Op.execute n)) (execute_action n) s inl
      (λ h. execute_action-Explained i x s n)
apply-Explained i x (Op.propose env by n) s =
    commit_keeps (Explained i x s (Op.propose env by n)) (propose_threshold env by n) s inl
      (λ h (a, e, c). inl (a, ground (arith, propose_same env by n s), c))
apply-Explained i x (Op.confirm env) s =
    commit_keeps (Explained i x s (Op.confirm env)) (confirm_threshold env) s inl
      (λ h (a, e, c). inl (a, ground (arith, confirm_same env s), c))
apply-Explained i x (Op.cancel by) s =
    commit_keeps (Explained i x s (Op.cancel by)) (cancel_threshold_proposal by) s inl
      (λ h (a, e, c). inl (a, ground (arith, cancel_same by s), c))

apply_all-Explained :
    (i : ℕ) (x : Address) (ops : List Op) (s : AdminStore)
    → Approved i x (apply_all ops s)
    → Approved i x s ⊎ Vouched ops s i x
apply_all-Explained i x [] s held = inl held
apply_all-Explained i x (op ∷ ops) s held = elim (apply_all-Explained i x ops (apply op s) held) [
  | inr v ↦ inr (inr v)
  | inl before ↦ elim (apply-Explained i x op s before) [
    | inl first ↦ inl first
    | inr v ↦ inr (inl v)
  ]
]

-- After any multisig operations from a store without pending actions, failures included, an action
-- is executed only if it is stored, was not executed before, and has the approvals of at least as
-- many different addresses as the threshold asks for, each entered by a call in its name which
-- created or approved this action while the address had the permission for emergency actions; the
-- action is then marked as executed and nothing else changes.
pub execute_action-Vouched :
    (ops : List Op) (start : AdminStore) (n : ℕ)
    → ((i : ℕ) → start.pending_action i ≡ none)
    → is_ok (execute_action n (apply_all ops start)).0 ≡ true
    → let s = apply_all ops start in
      (a : PendingAdminAction) × (s.pending_action n ≡ some a)
      × (a.executed ≡ false)
      × Distinct a.approvals
      × ((get_config s).threshold ≤ length a.approvals)
      × ((x : Address) → contains a.approvals x ≡ true → Vouched ops start n x)
      × ((execute_action n s).1 ≡ record s {
        pending_action = update s.pending_action n (some (record a { executed = true }));
      })
execute_action-Vouched ops start n empty h =
    let sound = apply_all-IsSound ops start (record {
      distinct = λ i a e. absurd (ground (arith, empty i));
      fresh = λ i a e. absurd (ground (arith, empty i));
    }) in
    let (a, e, idle, d, t, to) = execute_action_ok (apply_all ops start) sound n h in
    let vouched : (x : Address) → contains a.approvals x ≡ true → Vouched ops start n x = λ x c.
      elim (apply_all-Explained n x ops start (a, e, c)) [
        | inl (b, f, g) ↦ absurd (ground (arith, empty n))
        | inr v ↦ v
      ] in
    (a, e, idle, d, t, vouched, to)
