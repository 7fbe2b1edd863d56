-- ===== src/Base/Action.antt =====
-- Contract code as state passing. A call ends with a value, with one of the contract's error
-- codes, or with a host panic (failed authorisation, checked arithmetic, a failed token call).
-- The state that a call has written comes back in each case; `commit` is the rollback of a whole
-- invocation that the host makes when it does not end with a value.
use mathlib.Core.Bool.{Bool, true, false}
use mathlib.Core.Option.{Option, none, some}
use native.Mathlib.Omega.{arith}
use mathlib.Core.Path.{◌≡◌, refl, sym, ap, subst}
use predictify_contracts.Base.Tests.{if◌then◌else◌}

pub data Result (E A : Type 0) : Type 0 where
  ok : A → Result E A
  err : E → Result E A
  panic : Result E A

abbrev pub Action : Type 0 → Type 0 → Type 0 → Type 0
Action S E A = S → Result E A × S

module _ {S E A : Type 0} where
  abbrev pub pure : A → Action S E A
  pure a s = (ok a, s)

  abbrev pub raise : E → Action S E A
  raise e s = (err e, s)

  abbrev pub abort : Action S E A
  abort s = (panic, s)

  abbrev pub gets : (S → A) → Action S E A
  gets f s = (ok (f s), s)

  abbrev pub or_raise : Option A → E → Action S E A
  or_raise none e = raise e
  or_raise (some a) _ = pure a

  -- the outcome of a pure check, in an action
  abbrev pub lift : Result E A → Action S E A
  lift r s = (r, s)

  -- a checked operation: `none` is an overflow, which panics
  abbrev pub or_abort : Option A → Action S E A
  or_abort none = abort
  or_abort (some a) = pure a

  abbrev pub settle : Result E A × S → S → Result E A × S
  settle (ok a, s') s = (ok a, s')
  settle (err e, s') s = (err e, s)
  settle (panic, s') s = (panic, s)

  -- a whole invocation: what a call wrote is dropped unless it ends with a value
  abbrev pub commit : Action S E A → Action S E A
  commit m s = settle (m s) s

-- what follows a call that has ended
abbrev pub run_on : {S E A B : Type 0} → Result E A × S → (A → Action S E B) → Result E B × S
run_on (ok a, s) f = f a s
run_on (err e, s) f = (err e, s)
run_on (panic, s) f = (panic, s)

infixl 5 ◌>>=◌ ◌>>◌
abbrev pub ◌>>=◌ : {S E A B : Type 0} → Action S E A → (A → Action S E B) → Action S E B
◌>>=◌ m f s = run_on (m s) f

abbrev pub ◌>>◌ : {S E A B : Type 0} → Action S E A → Action S E B → Action S E B
m >> k = m >>= λ _. k

module _ {S E : Type 0} where
  abbrev pub raise_if : Bool → E → Action S E (Unit {0})
  raise_if c e s = (if c then err e else ok tt, s)

  abbrev pub abort_unless : Bool → Action S E (Unit {0})
  abort_unless c s = (if c then ok tt else panic, s)

  abbrev pub modify : (S → S) → Action S E (Unit {0})
  modify f s = (ok tt, f s)

-- whether a call ended with a value
abbrev pub is_ok : {E A : Type 0} → Result E A → Bool
is_ok (ok a) = true
is_ok (err e) = false
is_ok panic = false

-- an action on a part of the state
abbrev pub zoom : {S T E A : Type 0} → (S → T) → (T → S → S) → Action T E A → Action S E A
zoom get put m s = let (r, t) = m (get s) in (r, put t s)

settle_keeps :
    {S E A : Type 0} (P : S → Type 0) (end : Result E A × S) (s : S)
    → P s
    → (is_ok end.0 ≡ true → P end.1)
    → P (settle end s).1
settle_keeps P (ok a, s') s p h = h refl
settle_keeps P (err e, s') s p h = p
settle_keeps P (panic, s') s p h = p

-- A committed call keeps what holds of the state, if it does where the call ends with a value.
pub commit_keeps :
    {S E A : Type 0} (P : S → Type 0) (m : Action S E A) (s : S)
    → P s
    → (is_ok (m s).0 ≡ true → P (m s).1)
    → P (commit m s).1
commit_keeps P m s = settle_keeps P (m s) s

-- So does a committed call that begins with a check which reads only, if the rest does.
pub check_keeps :
    {S E A : Type 0} (P : S → Type 0) (m : Action S E (Unit {0})) (k : Action S E A) (s : S)
    → (m s).1 ≡ s
    → P s
    → (is_ok (k s).0 ≡ true → P (k s).1)
    → P (commit (m >> k) s).1
check_keeps {S} {E} {A} P m k s same p h = commit_keeps P (m >> k) s p (λ e. go (m s) same e)
  where
    go :
        (end : Result E (Unit {0}) × S)
        → end.1 ≡ s
        → is_ok (run_on end (λ _. k)).0 ≡ true
        → P (run_on end (λ _. k)).1
    go (ok a, s') e f = subst (λ (x : S). is_ok (k x).0 ≡ true → P (k x).1) (sym e) h f
    go (err x, s') e f = subst P (sym e) p
    go (panic, s') e f = subst P (sym e) p

commit_ok_end :
    {S E A : Type 0} (end : Result E A × S) (s : S) → is_ok end.0 ≡ true → settle end s ≡ end
commit_ok_end (ok a, s') s h = refl
commit_ok_end (err e, s') s h = ground arith
commit_ok_end (panic, s') s h = ground arith

-- The host keeps what a call wrote that ends with a value.
pub commit_ok :
    {S E A : Type 0} (m : Action S E A) (s : S) → is_ok (m s).0 ≡ true → commit m s ≡ m s
commit_ok m s h = commit_ok_end (m s) s h

run_on-is_ok :
    {S E A B : Type 0} (end : Result E A × S) (f : A → Action S E B)
    → is_ok (run_on end f).0 ≡ true
    → is_ok end.0 ≡ true
run_on-is_ok (ok a, s) f h = refl
run_on-is_ok (err e, s) f h = absurd (ground arith)
run_on-is_ok (panic, s) f h = absurd (ground arith)

-- Where a call ends with a value, its first step did.
pub bind-is_ok :
    {S E A B : Type 0} (m : Action S E A) (f : A → Action S E B) (s : S)
    → is_ok ((m >>= f) s).0 ≡ true
    → is_ok (m s).0 ≡ true
bind-is_ok m f s = run_on-is_ok (m s) f

run_on_lem :
    {S E B : Type 0} (end : Result E (Unit {0}) × S) (k : Action S E B)
    → is_ok end.0 ≡ true
    → run_on end (λ _. k) ≡ k end.1
run_on_lem (ok _, s) k h = refl
run_on_lem (err e, s) k h = absurd (ground arith)
run_on_lem (panic, s) k h = absurd (ground arith)

-- After a step that ends without a result, the rest runs on its state.
pub then_lem :
    {S E B : Type 0} (m : Action S E (Unit {0})) (k : Action S E B) (s : S)
    → is_ok (m s).0 ≡ true
    → (m >> k) s ≡ k (m s).1
then_lem m k s = run_on_lem (m s) k

-- The value of a call that ended with one.
pub value_of : {E A : Type 0} (r : Result E A) → is_ok r ≡ true → (a : A) × (r ≡ ok a)
value_of (ok a) h = (a, refl)
value_of (err e) h = absurd (ground arith)
value_of panic h = absurd (ground arith)

run_on_value :
    {S E A B : Type 0} (r : Result E A) (s : S) (f : A → Action S E B) (a : A)
    → r ≡ ok a
    → run_on (r, s) f ≡ f a s
run_on_value r s f a h = ap (λ x. run_on (x, s) f) h

-- After a step that ends with `a`, the rest runs on `a` and its state.
pub bind_lem :
    {S E A B : Type 0} (m : Action S E A) (f : A → Action S E B) (s : S) (a : A)
    → (m s).0 ≡ ok a
    → (m >>= f) s ≡ f a (m s).1
bind_lem m f s a h = run_on_value (m s).0 (m s).1 f a h

-- The value of the first step of a call that ended with one, and what ran after it.
pub bind_ok :
    {S E A B : Type 0} (m : Action S E A) (f : A → Action S E B) (s : S)
    → is_ok ((m >>= f) s).0 ≡ true
    → (a : A) × ((m s).0 ≡ ok a) × ((m >>= f) s ≡ f a (m s).1)
bind_ok m f s h = let (a, e) = value_of (m s).0 (bind-is_ok m f s h) in (a, e, bind_lem m f s a e)

run_on_keeps :
    {S E A B : Type 0} (P : S → Type 0) (end : Result E A × S) (f : A → Action S E B)
    → P end.1
    → ((a : A) (s' : S) → P s' → P (f a s').1)
    → P (run_on end f).1
run_on_keeps P (ok a, s) f p h = h a s p
run_on_keeps P (err e, s) f p h = p
run_on_keeps P (panic, s) f p h = p

-- What the first step and the rest keep, the call keeps, however it ends.
pub bind_keeps :
    {S E A B : Type 0} (P : S → Type 0) (m : Action S E A) (f : A → Action S E B) (s : S)
    → P (m s).1
    → ((a : A) (s' : S) → P s' → P (f a s').1)
    → P ((m >>= f) s).1
bind_keeps P m f s p h = run_on_keeps P (m s) f p h
