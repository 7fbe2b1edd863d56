-- ===== src/AuditTrail/Tamper.antt =====
-- What a passed check says about the records
-- (contracts/predictify-hybrid/src/audit_trail.rs, `verify_integrity`).
use predictify_contracts.Base.{
  ℕ, zero, suc, ◌≡◌, refl, sym, ◌∙◌, ap₂, some, true, false, inl, inr, ◌∷◌, ◌==◌, ==_iff,
  Bool-cases, Option-cases,
}
use predictify_contracts.AuditTrail.{
  AuditRecord, AuditStore, get_record, latest_from, get_latest_records, verify_from,
  verify_integrity,
}

module _ (digest : AuditRecord → ℕ) where
  -- Two different records of one index, one in each store, have different digests.
  abbrev pub NoCollision : AuditStore → AuditStore → Type 0
  NoCollision s t =
      (j : ℕ) (r r' : AuditRecord)
      → get_record j s ≡ some r
      → get_record j t ≡ some r'
      → digest r ≡ digest r'
      → r ≡ r'

  -- One round of a check that passes: there is a record, its digest is the expected one, and the
  -- check goes on with the digest that the record names.
  pub verify_from-suc :
      (s : AuditStore) (i h d : ℕ)
      → verify_from digest s (suc i) h (suc d) ≡ true
      → (r : AuditRecord) × (get_record (suc i) s ≡ some r)
        × (digest r ≡ h)
        × (verify_from digest s i r.prev_record_hash d ≡ true)
  unfolding verify_from get_record
  verify_from-suc s i h d v = elim (Option-cases (s.records (suc i))) [
    | inl e ↦ cc (rw (e, verify_from, get_record) at v)
    | inr (r, e) ↦ found r e (rw (e, verify_from, get_record) at v)
  ]
    where
      found :
          (r : AuditRecord)
          → s.records (suc i) ≡ some r
          → (elim (digest r == h) [
            | true ↦ verify_from digest s i r.prev_record_hash d
            | false ↦ false
          ])
            ≡ true
          → (r : AuditRecord) × (s.records (suc i) ≡ some r)
            × (digest r ≡ h)
            × (verify_from digest s i r.prev_record_hash d ≡ true)
      found r e w = elim (Bool-cases (digest r == h)) [
        | inl same ↦ (r, e, (==_iff _ _).0 same, rw same at w)
        | inr other ↦ cc (rw other at w)
      ]

  verify_from_agree :
      (s t : AuditStore)
      → NoCollision s t
      → (i h d : ℕ) → verify_from digest s i h d ≡ true
      → verify_from digest t i h d ≡ true
      → latest_from s i d ≡ latest_from t i d
  unfolding latest_from
  verify_from_agree s t nc zero h d v w = refl
  verify_from_agree s t nc (suc i) h zero v w = refl
  verify_from_agree s t nc (suc i) h (suc d) v w =
      let (r, e, dr, v') = verify_from-suc s i h d v in
      let (r', e', dr', w') = verify_from-suc t i h d w in
      let same : r ≡ r' = nc (suc i) r r' e e' (dr ∙ sym dr') in
      rw (e, e', latest_from)
        (ap₂ ◌∷◌ same (verify_from_agree s t nc i r.prev_record_hash d v' (rw (← same) at w')))

  -- Two trails with the same head that both pass `verify_integrity` to a depth return the same
  -- records for that depth, if no two different records that they hold under one index have the
  -- same digest.
  pub verify_integrity_agree :
      (s t : AuditStore) (depth : ℕ)
      → NoCollision s t
      → s.head ≡ t.head
      → verify_integrity digest s depth ≡ true
      → verify_integrity digest t depth ≡ true
      → get_latest_records s depth ≡ get_latest_records t depth
  unfolding verify_integrity get_latest_records
  verify_integrity_agree s t depth nc same v w = elim (Option-cases s.head) [
    | inl e ↦ rw (e, sym same ∙ e)
    | inr (h, e) ↦
        let e' : t.head ≡ some h = sym same ∙ e in
        rw (e, e', latest_from)
          (verify_from_agree s t nc h.latest_index h.latest_hash depth (rw e at v) (rw e' at w))
  ]
