-- ===== src/Guard/Locks.antt =====
-- What the reentrancy guard promises (contracts/predictify-hybrid/src/reentrancy_guard.rs).
use predictify_contracts.Base.{
  ◌≡◌, refl, subst, ◌∙◌, Bool-cases, inl, inr, ◌⊎◌, Bool, true, false, arith,
}
use predictify_contracts.Base.Maps.{Symbol, Map}
use predictify_contracts.Base.Action.{Action, Result, ok, err, panic, is_ok}
use predictify_contracts.Guard.{is_locked, set_scope_locked, release, with_guard}

module _ {S E : Type 0} (get : S → Map Bool) (put : Map Bool → S → S) (active : E)
    (get-put : (m : Map Bool) (s : S) → get (put m s) ≡ m) where
  -- While a scope is locked, a guarded call of it fails and runs nothing.
  pub with_guard_locked :
      {A : Type 0} (name : Symbol) (f : Action S E A) (s : S)
      → is_locked get put active name s ≡ true
      → with_guard get put active name f s ≡ (err active, s)
  unfolding with_guard
  with_guard_locked name f s h = ground arith

  is_locked-set :
      (name : Symbol) (b : Bool) (s : S)
      → is_locked get put active name (set_scope_locked get put active name b s) ≡ b
  is_locked-set name b s = rw get-put (ground arith)

  with_guard_free :
      {A : Type 0} (name : Symbol) (f : Action S E A) (s : S)
      → is_locked get put active name s ≡ false
      → with_guard get put active name f s
        ≡ release get put active name (f (set_scope_locked get put active name true s))
  unfolding with_guard
  with_guard_free name f s h = rw h refl

  release-is_ok :
      {A : Type 0} (name : Symbol) (end : Result E A × S)
      → is_ok (release get put active name end).0 ≡ true
      → (is_ok end.0 ≡ true)
        × (release get put active name end
            ≡ (end.0, set_scope_locked get put active name false end.1))
  release-is_ok name (ok a, s) h = (refl, refl)
  release-is_ok name (err e, s) h = absurd (ground arith)
  release-is_ok name (panic, s) h = absurd (ground arith)

  -- A guarded call that enters its own scope again is refused there and runs nothing inside; the
  -- error comes back and the scope is free afterwards.
  pub with_guard_reentered :
      {A : Type 0} (name : Symbol) (f : Action S E A) (s : S)
      → is_locked get put active name s ≡ false
      → let (r, s') = with_guard get put active name (with_guard get put active name f) s in
        (r ≡ err active) × (is_locked get put active name s' ≡ false)
  with_guard_reentered name f s h =
      let s₁ = set_scope_locked get put active name true s in
      rw (with_guard_free name (with_guard get put active name f) s h) (
        rw (with_guard_locked name f s₁ (is_locked-set name true s))
          (refl, is_locked-set name false s₁))

  released :
      {A : Type 0} (name : Symbol) (end : Result E A × S)
      → ((release get put active name end).0 ≡ end.0)
        × ((end.0 ≡ panic)
            ⊎ (is_locked get put active name (release get put active name end).1 ≡ false))
  released name (ok a, s) = (refl, inr (is_locked-set name false s))
  released name (err e, s) = (refl, inr (is_locked-set name false s))
  released name (panic, s) = (refl, inl refl)

  -- However a guarded call of a free scope returns, with a value or an error, its result comes back
  -- unchanged and the scope is free afterwards, even where the call itself left it locked.
  pub with_guard_released :
      {A : Type 0} (name : Symbol) (f : Action S E A) (s : S)
      → is_locked get put active name s ≡ false
      → let (r, s₁) = f (set_scope_locked get put active name true s) in
        let (r', s₂) = with_guard get put active name f s in
        (r' ≡ r) × ((r ≡ panic) ⊎ (is_locked get put active name s₂ ≡ false))
  with_guard_released name f s h =
      rw (with_guard_free name f s h)
        (released name (f (set_scope_locked get put active name true s)))

  -- A guarded call that ends with a value ran its closure on the locked state, and the lock is
  -- taken off the state that the closure left.
  pub with_guard-is_ok :
      {A : Type 0} (name : Symbol) (f : Action S E A) (s : S)
      → is_ok (with_guard get put active name f s).0 ≡ true
      → let end = f (set_scope_locked get put active name true s) in
        (is_ok end.0 ≡ true)
        × (with_guard get put active name f s
            ≡ (end.0, set_scope_locked get put active name false end.1))
  unfolding with_guard
  with_guard-is_ok name f s h = elim (Bool-cases (is_locked get put active name s)) [
    | inl e ↦ absurd (ground arith)
    | inr e ↦
        let free = with_guard_free name f s e in
        let end = f (set_scope_locked get put active name true s) in
        let (k, r) = release-is_ok name end (subst (λ x. is_ok x.0 ≡ true) free h) in (k, free ∙ r)
  ]
