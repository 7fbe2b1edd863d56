-- ===== src/Resolution/Weights/Sorting.antt =====
-- The insertion sort of the weighted median (contracts/predictify-hybrid/src/resolution.rs,
-- `weighted_median`).
use predictify_contracts.Base.{
  ℕ, ◌+◌, ◌≡◌, refl, inl, inr, Bool, List, [], ◌∷◌, arith, Bool-cases, if◌then◌else◌,
}
use predictify_contracts.Base.Int.{ℤ, ltb_ℤ, ◌≤ℤ◌}
use predictify_contracts.Resolution.{sink, insert_all, onto}

-- the weight of the entries whose price passes a test
abbrev pub mass : (ℤ → Bool) → List (ℤ × ℕ) → ℕ
mass t [] = 0
mass t (x ∷ xs) = (if t x.0 then x.1 else 0) + mass t xs

pub sink-mass : (t : ℤ → Bool) (x : ℤ × ℕ) (l : List (ℤ × ℕ)) → mass t (sink x l) ≡ mass t (x ∷ l)
unfolding sink
sink-mass t x [] = refl
sink-mass t x (y ∷ ys) = ground (arith, sink-mass t x ys)

pub insert_all-mass :
    (t : ℤ → Bool) (done l : List (ℤ × ℕ)) → mass t (insert_all done l) ≡ mass t done + mass t l
unfolding insert_all
insert_all-mass t done [] = omega arith
insert_all-mass t done (x ∷ xs) =
    omega (arith, insert_all-mass t (sink x done) xs, sink-mass t x done)

pub onto-mass : (t : ℤ → Bool) (l xs : List (ℤ × ℕ)) → mass t (onto l xs) ≡ mass t l + mass t xs
unfolding onto
onto-mass t l [] = omega arith
onto-mass t l (x ∷ xs) = omega (arith, onto-mass t (x ∷ l) xs)

-- every price is at most, or at least, the one given
abbrev pub AllAtMost : ℤ → List (ℤ × ℕ) → Type 0
AllAtMost b [] = Unit
AllAtMost b (x ∷ xs) = (x.0 ≤ℤ b) × AllAtMost b xs

abbrev pub AllAtLeast : ℤ → List (ℤ × ℕ) → Type 0
AllAtLeast b [] = Unit
AllAtLeast b (x ∷ xs) = (b ≤ℤ x.0) × AllAtLeast b xs

abbrev pub Descending : List (ℤ × ℕ) → Type 0
Descending [] = Unit
Descending (x ∷ xs) = AllAtMost x.0 xs × Descending xs

abbrev pub Ascending : List (ℤ × ℕ) → Type 0
Ascending [] = Unit
Ascending (x ∷ xs) = AllAtLeast x.0 xs × Ascending xs

pub AllAtMost-trans : (a b : ℤ) (l : List (ℤ × ℕ)) → a ≤ℤ b → AllAtMost a l → AllAtMost b l
AllAtMost-trans a b [] h k = tt
AllAtMost-trans a b (x ∷ xs) h k = (omega arith, AllAtMost-trans a b xs h k.1)

pub sink-AllAtMost :
    (b : ℤ) (x : ℤ × ℕ) (l : List (ℤ × ℕ)) → x.0 ≤ℤ b → AllAtMost b l → AllAtMost b (sink x l)
unfolding sink
sink-AllAtMost b x [] h k = (h, tt)
sink-AllAtMost b x (y ∷ ys) h k = elim (Bool-cases (ltb_ℤ x.0 y.0)) [
  | inl e ↦ rw e (k.0, sink-AllAtMost b x ys h k.1)
  | inr e ↦ rw e (h, k)
]

pub sink-Descending : (x : ℤ × ℕ) (l : List (ℤ × ℕ)) → Descending l → Descending (sink x l)
unfolding sink
sink-Descending x [] d = (tt, tt)
sink-Descending x (y ∷ ys) d = elim (Bool-cases (ltb_ℤ x.0 y.0)) [
  | inl e ↦ rw e (sink-AllAtMost y.0 x ys (ground arith) d.0, sink-Descending x ys d.1)
  | inr e ↦
      let below : y.0 ≤ℤ x.0 = ground arith in
      rw e ((below, AllAtMost-trans y.0 x.0 ys below d.0), d)
]

pub insert_all-Descending :
    (done l : List (ℤ × ℕ)) → Descending done → Descending (insert_all done l)
unfolding insert_all
insert_all-Descending done [] d = d
insert_all-Descending done (x ∷ xs) d =
    insert_all-Descending (sink x done) xs (sink-Descending x done d)

-- what is put in front is at most what stands there
abbrev pub Below : List (ℤ × ℕ) → List (ℤ × ℕ) → Type 0
Below [] l = Unit
Below (x ∷ xs) l = AllAtLeast x.0 l × Below xs l

pub Below-cons :
    (x : ℤ × ℕ) (xs l : List (ℤ × ℕ)) → AllAtMost x.0 xs → Below xs l → Below xs (x ∷ l)
Below-cons x [] l h k = tt
Below-cons x (y ∷ ys) l h k = ((h.0, k.0), Below-cons x ys l h.1 k.1)

pub onto-Ascending :
    (l xs : List (ℤ × ℕ)) → Ascending l → Descending xs → Below xs l → Ascending (onto l xs)
unfolding onto
onto-Ascending l [] a d b = a
onto-Ascending l (x ∷ xs) a d b = onto-Ascending (x ∷ l) xs (b.0, a) d.1 (Below-cons x xs l d.0 b.1)

pub Below-nil : (xs : List (ℤ × ℕ)) → Below xs []
Below-nil [] = tt
Below-nil (x ∷ xs) = (tt, Below-nil xs)

-- the array after the sort
unfoldable pub sorted : List (ℤ × ℕ) → List (ℤ × ℕ)
sorted l = onto [] (insert_all [] l)

pub sorted-mass : (t : ℤ → Bool) (l : List (ℤ × ℕ)) → mass t (sorted l) ≡ mass t l
unfolding sorted
sorted-mass t l = omega (arith, onto-mass t [] (insert_all [] l), insert_all-mass t [] l)

pub sorted-Ascending : (l : List (ℤ × ℕ)) → Ascending (sorted l)
unfolding sorted
sorted-Ascending l =
    onto-Ascending [] (insert_all [] l) tt (insert_all-Descending [] l tt)
      (Below-nil (insert_all [] l))
