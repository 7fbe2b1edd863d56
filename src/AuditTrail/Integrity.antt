-- ===== src/AuditTrail/Integrity.antt =====
-- What appending does to the trail, and its links from the head down to the first record
-- (contracts/predictify-hybrid/src/audit_trail.rs, `append_record`, `verify_integrity`).
use Prim.Native.String.{String}
use predictify_contracts.Base.{
  ℕ, zero, suc, ◌+◌, ◌≤◌, ◌≡◌, refl, if◌then◌else◌, Option, some, true, List, arith, ◌∙◌,
  Bool-cases, Option-cases, inl, inr, leb, ==_iff,
}
use predictify_contracts.Base.Maps.{Address, Symbol, get_or, update}
use predictify_contracts.Base.Words.{u64_max}
use predictify_contracts.Base.Host.{Env}
use predictify_contracts.Base.Action.{Result, ok, panic}
use native.Mathlib.Numerals.{add-one}
use predictify_contracts.Errors.{Error}
use predictify_contracts.AuditTrail.{
  AuditAction, AuditRecord, AuditTrailHead, AuditStore, first_head, record_of, get_record,
  append_record, verify_from, verify_integrity,
}

module _ (digest : AuditRecord → ℕ) where
  -- The record of index `i` has the digest `h`, and so on down to the first.
  abbrev pub Linked : AuditStore → ℕ → ℕ → Type 0
  Linked s zero h = h ≡ 0
  Linked s (suc i) h =
      (r : AuditRecord) × (s.records (suc i) ≡ some r)
      × (r.index ≡ suc i)
      × (digest r ≡ h)
      × Linked s i r.prev_record_hash

  abbrev pub latest : AuditStore → AuditTrailHead
  latest s = get_or s.head first_head

  abbrev pub IsChained : AuditStore → Type 0
  IsChained s = Linked s (latest s).latest_index (latest s).latest_hash

  -- records above the chain do not matter
  Linked-above :
      (s t : AuditStore) (i h : ℕ)
      → ((j : ℕ) → j ≤ i → t.records j ≡ s.records j)
      → Linked s i h
      → Linked t i h
  Linked-above s t zero h same l = l
  Linked-above s t (suc i) h same (r, e, ix, d, rest) = (
    r,
    same (suc i) (omega arith) ∙ e,
    ix,
    d,
    Linked-above s t i r.prev_record_hash (λ j le. same j (omega arith)) rest,
  )

  Linked-next :
      (t : AuditStore) (i k h : ℕ) (r : AuditRecord)
      → k ≡ suc i
      → t.records k ≡ some r
      → r.index ≡ k
      → digest r ≡ h
      → Linked t i r.prev_record_hash
      → Linked t k h
  Linked-next t i k h r e p ix d rest = rw e (r, rw e at p, rw e at ix, d, rest)

  module _ (env : Env) (a : AuditAction) (who : Address) (det : List (Symbol × String))
      (nonce : Option ℕ) where
    abbrev pub appended : AuditStore → Result Error ℕ × AuditStore
    appended = append_record digest env a who det nonce

    abbrev pub new_record : AuditStore → AuditRecord
    new_record s = record_of env a who det nonce (latest s) ((latest s).latest_index + 1)

    -- The store after a successful append.
    abbrev pub extended : AuditStore → AuditStore
    extended s = record {
      head = some (record {
        latest_index = (latest s).latest_index + 1;
        latest_hash = digest (new_record s);
      });
      records = update s.records ((latest s).latest_index + 1) (some (new_record s));
    }

    -- An append puts the new record at the next index, with the digest of the one before it, and
    -- moves the head to it; where the index would overflow it panics and changes nothing.
    pub append_record_lem :
        (s : AuditStore)
        → appended s ≡ (
            if leb ((latest s).latest_index + 1) u64_max
            then (ok ((latest s).latest_index + 1), extended s)
            else (panic, s))
    unfolding append_record
    append_record_lem s = ground arith

    extended-IsChained : (s : AuditStore) → IsChained s → IsChained (extended s)
    extended-IsChained s c =
        let n : ℕ = (latest s).latest_index in
        Linked-next (extended s) n (n + 1) _ (new_record s) (add-one n) (ground arith) refl refl
          (Linked-above s (extended s) n (latest s).latest_hash (λ j le. ground arith) c)

    -- Appending a record keeps a linked trail linked, also where the index overflows.
    pub append_record-IsChained : (s : AuditStore) → IsChained s → IsChained (appended s).1
    append_record-IsChained s c =
        rw append_record_lem (elim (Bool-cases (leb ((latest s).latest_index + 1) u64_max)) [
          | inl fits ↦ rw fits (extended-IsChained s c)
          | inr full ↦ rw full c
        ])

    -- No append changes a record that was written before.
    pub get_record-append_record :
        (s : AuditStore) (j : ℕ)
        → j ≤ (latest s).latest_index
        → get_record j (appended s).1 ≡ get_record j s
    unfolding get_record append_record
    get_record-append_record s j h = ground arith

  -- A linked trail passes the check from any of its records, to any depth.
  verify_from-Linked :
      (s : AuditStore) (i h depth : ℕ) → Linked s i h → verify_from digest s i h depth ≡ true
  unfolding verify_from get_record
  verify_from-Linked s zero h depth l = refl
  verify_from-Linked s (suc i) h zero l = refl
  verify_from-Linked s (suc i) h (suc depth) (r, e, ix, d, rest) =
      rw (e, verify_from, get_record)
        (rw ((==_iff _ _).1 d) (verify_from-Linked s i r.prev_record_hash depth rest))

  -- A trail that is linked by digests from its head down to the first record passes
  -- `verify_integrity` at every depth.
  pub verify_integrity-IsChained :
      (s : AuditStore) (depth : ℕ) → IsChained s → verify_integrity digest s depth ≡ true
  unfolding verify_integrity
  verify_integrity-IsChained s depth c = elim (Option-cases s.head) [
    | inl e ↦ rw e
    | inr (h, e) ↦ rw e (verify_from-Linked s h.latest_index h.latest_hash depth (rw e at c))
  ]
