-- ===== src/Base/Lists.antt =====
-- Lists measured and searched by native numbers.
use Prim.Native.Nat.{ℕ, zero, suc, ◌+◌}
use mathlib.Core.Bool.{Bool, true, false, ◌||◌}
use mathlib.Core.Path.{◌≡◌, refl}
use mathlib.Core.Logic.{◌≢◌}
use mathlib.Core.List.{List, [], ◌∷◌, ◌++◌}
use mathlib.Core.Option.{Option, none, some}
use native.Mathlib.Omega.{arith}
use predictify_contracts.Base.Tests.{◌==◌, if◌then◌else◌}

module _ {ℓ} {A : Type ℓ} where
  abbrev pub length : List A → ℕ
  length [] = 0
  length (x ∷ xs) = suc (length xs)

  abbrev pub get_elem? : List A → ℕ → Option A
  get_elem? [] i = none
  get_elem? (x ∷ xs) zero = some x
  get_elem? (x ∷ xs) (suc i) = get_elem? xs i

  -- `remove(0)`
  abbrev pub drop_first : List A → List A
  drop_first [] = []
  drop_first (x ∷ xs) = xs

  abbrev pub is_empty : List A → Bool
  is_empty [] = true
  is_empty (x ∷ xs) = false

  pub length-append : (xs ys : List A) → length (xs ++ ys) ≡ length xs + length ys
  length-append [] ys = omega arith
  length-append (x ∷ xs) ys = omega (arith, length-append xs ys)

-- `contains` on a vector of addresses, symbols or other values that are only compared
abbrev pub contains : List ℕ → ℕ → Bool
contains [] a = false
contains (x ∷ xs) a = a == x || contains xs a

-- no entry is listed twice
abbrev pub Distinct : List ℕ → Type 0
Distinct [] = Unit
Distinct (x ∷ xs) = (contains xs x ≡ false) × Distinct xs

-- `first_index_of` and `remove`: the list without the first entry that is `a`
abbrev pub remove_first : List ℕ → ℕ → List ℕ
remove_first [] a = []
remove_first (x ∷ xs) a = if a == x then xs else x ∷ remove_first xs a

pub contains-append :
    (xs : List ℕ) (x a : ℕ) → contains (xs ++ x ∷ []) a ≡ (contains xs a || a == x)
contains-append [] x a = ground arith
contains-append (y ∷ xs) x a = ground (arith, contains-append xs x a)

pub append-Distinct :
    (xs : List ℕ) (x : ℕ) → Distinct xs → contains xs x ≡ false → Distinct (xs ++ x ∷ [])
append-Distinct [] x d new = (refl, tt)
append-Distinct (y ∷ xs) x d new = ground (arith, append-Distinct xs x d.1, contains-append xs x y)

pub contains-remove_first_ne :
    (xs : List ℕ) (x a : ℕ) → a ≢ x → contains (remove_first xs x) a ≡ contains xs a
contains-remove_first_ne [] x a ne = refl
contains-remove_first_ne (y ∷ xs) x a ne = ground (arith, contains-remove_first_ne xs x a ne)

pub contains-remove_first_self :
    (xs : List ℕ) (x : ℕ) → Distinct xs → contains (remove_first xs x) x ≡ false
contains-remove_first_self [] x d = refl
contains-remove_first_self (y ∷ xs) x d = ground (arith, contains-remove_first_self xs x d.1)

pub remove_first-Distinct : (xs : List ℕ) (x : ℕ) → Distinct xs → Distinct (remove_first xs x)
remove_first-Distinct [] x d = tt
remove_first-Distinct (y ∷ xs) x d =
    ground (arith, remove_first-Distinct xs x d.1, contains-remove_first_ne xs x y)

pub length-remove_first :
    (xs : List ℕ) (x : ℕ) → contains xs x ≡ true → suc (length (remove_first xs x)) ≡ length xs
length-remove_first [] x h = cc
length-remove_first (y ∷ xs) x h = ground (arith, length-remove_first xs x)
