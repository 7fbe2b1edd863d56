-- ===== src/Governance/Delegation/Tally.antt =====
-- The counts of incoming delegations and what they stand for
-- (contracts/predictify-hybrid/src/governance.rs, `set_delegate`, `unset_delegate`).
use predictify_contracts.Base.{
  ℕ, ◌+◌, ◌≤◌, ◌≡◌, ◌≢◌, refl, inl, inr, Option, none, some, true, false, List, [], ◌∷◌, ◌==◌,
  if◌then◌else◌, arith, Option-cases,
}
use predictify_contracts.Base.Lists.{
  contains, remove_first, Distinct, remove_first-Distinct, contains-remove_first_ne,
  contains-remove_first_self,
}
use predictify_contracts.Base.Maps.{Address, Map, update, has}
use predictify_contracts.Base.Host.{Env}
use predictify_contracts.Base.Action.{is_ok, commit, commit_keeps}
use predictify_contracts.Governance.{GovernanceStore}
use predictify_contracts.Governance.Delegation.{
  max_incoming_delegations, points_to, incoming, set_delegate, unset_delegate,
}

-- how many of the addresses delegate to `v`
abbrev pub pointing : Map Address → List Address → Address → ℕ
pointing d [] v = 0
pointing d (a ∷ l) v = (if points_to (d a) v then 1 else 0) + pointing d l v

-- The addresses that have delegated are those of the list, each once; every count is the number of
-- them that point there, and is at most the cap; nobody delegates to themselves or back.
pub record IsTallied (s : GovernanceStore) (l : List Address) : Type 0 where
  pub distinct : Distinct l
  pub exact : (a : Address) → contains l a ≡ has (s.delegate a)
  pub counts : (v : Address) → incoming s v ≡ pointing s.delegate l v
  pub capped : (v : Address) → incoming s v ≤ max_incoming_delegations
  pub forward : (a b : Address) → s.delegate a ≡ some b → (a ≢ b) × (s.delegate b ≢ some a)

pointing-update :
    (d : Map Address) (l : List Address) (a : Address) (x : Option Address) (v : Address)
    → contains l a ≡ false
    → pointing (update d a x) l v ≡ pointing d l v
pointing-update d [] a x v out = refl
pointing-update d (b ∷ l) a x v out = ground (arith, pointing-update d l a x v)

pointing-remove_first :
    (d : Map Address) (l : List Address) (a : Address) {b : Address} (v : Address)
    → d a ≡ some b
    → contains l a ≡ true
    → pointing d l v ≡ (if b == v then 1 else 0) + pointing d (remove_first l a) v
pointing-remove_first d [] a v e m = cc
pointing-remove_first d (c ∷ l) a v e m = ground (arith, pointing-remove_first d l a v e)

set_delegate_ok :
    (env : Env) (a b : Address) (s : GovernanceStore) (l : List Address)
    → IsTallied s l
    → is_ok (set_delegate env a b s).0 ≡ true
    → IsTallied (set_delegate env a b s).1 (a ∷ l)
unfolding set_delegate
set_delegate_ok env a b s l t h =
    let new : contains l a ≡ false = ground (arith, t.exact a) in
    record {
      distinct = (new, t.distinct);
      exact = λ c. ground (arith, t.exact c, t.exact a);
      counts = λ v.
          ground (arith, t.counts v, t.counts b, pointing-update s.delegate l a (some b) v new);
      capped = λ v. ground (arith, t.capped v, t.capped b);
      forward =
          λ c d e. (ground (arith, t.forward c d), ground (arith, t.forward c d, t.forward d c));
    }

unset_delegate_ok :
    (env : Env) (a : Address) (s : GovernanceStore) (l : List Address)
    → IsTallied s l
    → is_ok (unset_delegate env a s).0 ≡ true
    → IsTallied (unset_delegate env a s).1 (remove_first l a)
unfolding unset_delegate
unset_delegate_ok env a s l t h = elim (Option-cases (s.delegate a)) [
  | inl e ↦ ground arith
  | inr (b, e) ↦
      let old : contains l a ≡ true = ground (arith, t.exact a) in
      let gone : contains (remove_first l a) a ≡ false =
        contains-remove_first_self l a t.distinct in
      record {
        distinct = remove_first-Distinct l a t.distinct;
        exact = λ c. ground (arith, t.exact c, gone, contains-remove_first_ne l a c);
        counts = λ v. ground (
          arith,
          t.counts v,
          t.counts b,
          pointing-remove_first s.delegate l a v e old,
          pointing-update s.delegate (remove_first l a) a none v gone,
        );
        capped = λ v. ground (arith, t.capped v, t.capped b);
        forward =
            λ c d f. (ground (arith, t.forward c d), ground (arith, t.forward c d, t.forward d c));
      }
]

pub data Op : Type 0 where
  set : Env → Address → Address → Op
  unset : Env → Address → Op

-- One invocation, rolled back where it fails.
abbrev pub apply : Op → GovernanceStore → GovernanceStore
apply (Op.set env a b) s = (commit (set_delegate env a b) s).1
apply (Op.unset env a) s = (commit (unset_delegate env a) s).1

abbrev pub apply_all : List Op → GovernanceStore → GovernanceStore
apply_all [] s = s
apply_all (op ∷ ops) s = apply_all ops (apply op s)

-- There is a list that accounts for the delegations.
abbrev pub Accounted : GovernanceStore → Type 0
Accounted s = (l : List Address) × IsTallied s l

apply-Accounted : (op : Op) (s : GovernanceStore) → Accounted s → Accounted (apply op s)
apply-Accounted (Op.set env a b) s (l, t) =
    commit_keeps Accounted (set_delegate env a b) s (l, t)
      (λ h. (a ∷ l, set_delegate_ok env a b s l t h))
apply-Accounted (Op.unset env a) s (l, t) =
    commit_keeps Accounted (unset_delegate env a) s (l, t)
      (λ h. (remove_first l a, unset_delegate_ok env a s l t h))

-- After any sequence of delegations and removals, failures included, the stored count of every
-- address is the number of addresses that delegate to it, never above the cap, and nobody delegates
-- to themselves or to one that delegates back.
pub apply_all-Accounted :
    (ops : List Op) (s : GovernanceStore) → Accounted s → Accounted (apply_all ops s)
apply_all-Accounted [] s acc = acc
apply_all-Accounted (op ∷ ops) s acc =
    apply_all-Accounted ops (apply op s) (apply-Accounted op s acc)

-- Who has delegated counts in the weight of the delegate.
pub delegate-incoming :
    (s : GovernanceStore) (l : List Address) (a b : Address)
    → IsTallied s l
    → s.delegate a ≡ some b
    → 1 ≤ incoming s b
delegate-incoming s l a b t e =
    ground (arith, t.counts b, t.exact a, pointing-remove_first s.delegate l a b e)
