-- ===== src/Base/Steps.antt =====
-- The first step of a call that ended with a value: what the step has found, and what ran after it.
use mathlib.Core.Bool.{Bool, true, false}
use mathlib.Core.Option.{Option, none, some}
use mathlib.Core.Path.{◌≡◌, refl, subst, ap, ◌∙◌}
use native.Mathlib.Omega.{arith}
use predictify_contracts.Base.Action.{
  bind_ok, Action, Result, ok, err, panic, is_ok, raise_if, abort_unless, or_raise, or_abort, lift,
  run_on, ◌>>=◌, ◌>>◌,
}

-- the same call written otherwise has ended with a value too
pub moved : {E A S : Type 0} {x y : Result E A × S} → x ≡ y → is_ok x.0 ≡ true → is_ok y.0 ≡ true
moved {E} {A} {S} e h = subst (λ (z : Result E A × S). is_ok z.0 ≡ true) e h

module _ {S E B : Type 0} where
  pub raise_if_ok :
      (b : Bool) (e : E) (k : Action S E B) (s : S)
      → is_ok ((raise_if b e >> k) s).0 ≡ true
      → (b ≡ false) × ((raise_if b e >> k) s ≡ k s)
  raise_if_ok true e k s h = absurd (ground arith)
  raise_if_ok false e k s h = (refl, refl)

  pub abort_unless_ok :
      (b : Bool) (k : Action S E B) (s : S)
      → is_ok ((abort_unless b >> k) s).0 ≡ true
      → (b ≡ true) × ((abort_unless b >> k) s ≡ k s)
  abort_unless_ok false k s h = absurd (ground arith)
  abort_unless_ok true k s h = (refl, refl)

  pub or_raise_ok :
      {A : Type 0} (o : Option A) (e : E) (f : A → Action S E B) (s : S)
      → is_ok ((or_raise o e >>= f) s).0 ≡ true
      → (a : A) × (o ≡ some a) × ((or_raise o e >>= f) s ≡ f a s)
  or_raise_ok none e f s h = absurd (ground arith)
  or_raise_ok (some a) e f s h = (a, refl, refl)

  pub or_abort_ok :
      {A : Type 0} (o : Option A) (f : A → Action S E B) (s : S)
      → is_ok ((or_abort o >>= f) s).0 ≡ true
      → (a : A) × (o ≡ some a) × ((or_abort o >>= f) s ≡ f a s)
  or_abort_ok none f s h = absurd (ground arith)
  or_abort_ok (some a) f s h = (a, refl, refl)

  pub lift_ok :
      {A : Type 0} (r : Result E A) (f : A → Action S E B) (s : S)
      → is_ok ((lift r >>= f) s).0 ≡ true
      → (a : A) × (r ≡ ok a) × ((lift r >>= f) s ≡ f a s)
  lift_ok (ok a) f s h = (a, refl, refl)
  lift_ok (err e) f s h = absurd (ground arith)
  lift_ok panic f s h = absurd (ground arith)

run_on_assoc :
    {S E A B C : Type 0} (end : Result E A × S) (f : A → Action S E B) (g : B → Action S E C)
    → run_on (run_on end f) g ≡ run_on end (λ a. f a >>= g)
run_on_assoc (ok a, s) f g = refl
run_on_assoc (err e, s) f g = refl
run_on_assoc (panic, s) f g = refl

-- Steps in a row are one call, however they are grouped.
pub bind_assoc :
    {S E A B C : Type 0} (m : Action S E A) (f : A → Action S E B) (g : B → Action S E C) (s : S)
    → ((m >>= f) >>= g) s ≡ (m >>= λ a. f a >>= g) s
bind_assoc m f g s = run_on_assoc (m s) f g

or_abort_state :
    (S E : Type 0) {A : Type 0} (o : Option A) (s : S) → (or_abort {S = S} {E = E} o s).1 ≡ s
or_abort_state S E none s = refl
or_abort_state S E (some a) s = refl

or_raise_state : {S E A : Type 0} (o : Option A) (e : E) (s : S) → (or_raise {S = S} o e s).1 ≡ s
or_raise_state none e s = refl
or_raise_state (some a) e s = refl

-- an action that leaves the state
abbrev pub Reads : {S E A : Type 0} → Action S E A → Type 0
Reads {S} m = (s : S) → (m s).1 ≡ s

pub or_abort-Reads : (S E : Type 0) {A : Type 0} (o : Option A) → Reads {S = S} {E = E} (or_abort o)
or_abort-Reads S E o s = or_abort_state S E o s

run_on-Reads :
    {S E A B : Type 0} (end : Result E A × S) (f : A → Action S E B)
    → ((a : A) → Reads (f a))
    → (run_on end f).1 ≡ end.1
run_on-Reads (ok a, s) f h = h a s
run_on-Reads (err e, s) f h = refl
run_on-Reads (panic, s) f h = refl

pub or_abort-Reads_then :
    {S E A B : Type 0} (o : Option A) (f : A → Action S E B)
    → ((a : A) → Reads (f a))
    → Reads (or_abort o >>= f)
or_abort-Reads_then {S} {E} o f h s = run_on-Reads (or_abort o s) f h ∙ or_abort_state S E o s

pub or_raise-Reads_then :
    {S E A B : Type 0} (o : Option A) (e : E) (f : A → Action S E B)
    → ((a : A) → Reads (f a))
    → Reads (or_raise o e >>= f)
or_raise-Reads_then o e f h s = run_on-Reads (or_raise o e s) f h ∙ or_raise_state o e s

-- After a step that leaves the state, the rest runs on the state as it was.
pub unchanged_ok :
    {S E A B : Type 0} (m : Action S E A) (f : A → Action S E B) (s : S)
    → Reads m
    → is_ok ((m >>= f) s).0 ≡ true
    → (a : A) × ((m s).0 ≡ ok a) × ((m >>= f) s ≡ f a s)
unchanged_ok m f s r h = let (a, e, g) = bind_ok m f s h in (a, e, g ∙ ap (f a) (r s))
