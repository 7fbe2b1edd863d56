-- ===== src/Governance/Quorum/Bounds.antt =====
-- The range of the effective quorum and its course in time
-- (contracts/predictify-hybrid/src/governance.rs, `compute_effective_quorum`).
use native.Mathlib.Nat.{
  le_refl, le_trans, mul-le-mul_left, mul-le-mul_right, div-le_of_le-mul, le-div_iff_mul-le,
}
use predictify_contracts.Base.{
  ℕ, ◌-◌, ◌*◌, ◌/◌, ◌≤◌, ◌<◌, ◌≡◌, refl, Option, none, some, arith, leb, ltb, if◌then◌else◌,
  Bool-cases, inl, inr,
}
use predictify_contracts.Base.Words.{u128_max, saturating_mul_u64}
use predictify_contracts.Governance.{QuorumDecay}
use predictify_contracts.Governance.Quorum.{decayed, compute_effective_quorum}

-- x * e / p never passes x for e ≤ p
part-le : (x e p : ℕ) → e < p → x * e / p ≤ x
part-le x e p h = div-le_of_le-mul p (grind arith)

part_mono : (x e f p : ℕ) → 0 < p → e ≤ f → x * e / p ≤ x * f / p
part_mono x e f p pos h =
    (le-div_iff_mul-le pos).1
      (le_trans ((le-div_iff_mul-le pos).0 (le_refl (x * e / p))) (mul-le-mul_left x h))

floor-le : (base bps : ℕ) → bps ≤ 10000 → base * bps / 10000 ≤ base
floor-le base bps h = div-le_of_le-mul 10000 (grind arith)

decayed_bounds :
    (base floor p e : ℕ) {q : ℕ}
    → floor ≤ base
    → decayed base floor p e ≡ some q
    → (floor ≤ q) × (q ≤ base)
decayed_bounds base floor p e le h = (ground arith, ground arith)

decayed_mono :
    (base floor p e f : ℕ) {q r : ℕ}
    → floor ≤ base
    → e ≤ f
    → decayed base floor p e ≡ some q
    → decayed base floor p f ≡ some r
    → r ≤ q
decayed_mono base floor p e f le ef hq hr = elim (Bool-cases (leb p f)) [
  | inl over ↦ ground (arith, decayed_bounds base floor p e le hq)
  | inr under ↦ ground (arith, part_mono (base - floor) e f p (ground arith) ef)
]

decayed_total :
    (base floor p e : ℕ)
    → floor ≤ base
    → base * e ≤ u128_max
    → (q : ℕ) × (decayed base floor p e ≡ some q)
decayed_total base floor p e le fits = elim (Bool-cases (leb p e)) [
  | inl over ↦ (floor, rw over)
  | inr under ↦
      let part = (base - floor) * e / p in
      let span : (base - floor) * e ≤ u128_max =
        le_trans (mul-le-mul_right {m = base - floor} {n = base} e (omega arith)) fits in
      (
        if ltb (base - part) floor then floor else base - part,
        ground (arith, part-le (base - floor) e p (ground arith)),
      )
]

abbrev pub IsDecay : Option QuorumDecay → Type 0
IsDecay none = Unit
IsDecay (some d) = (d.floor_bps ≤ 10000) × (0 < d.halving_seconds)

-- The floor under a quorum: the given part of the base, or the base itself with no decay.
abbrev pub floor_of : ℕ → Option QuorumDecay → ℕ
floor_of base none = base
floor_of base (some d) = base * d.floor_bps / 10000

-- With a decay that the set-up accepts, the effective quorum is never above the base and never
-- below the floor.
pub compute_effective_quorum_bounds :
    (base e : ℕ) (d : Option QuorumDecay) {q : ℕ}
    → IsDecay d
    → compute_effective_quorum base d e ≡ some q
    → (floor_of base d ≤ q) × (q ≤ base)
unfolding compute_effective_quorum
compute_effective_quorum_bounds base e none v h = ground arith
compute_effective_quorum_bounds base e (some d) v h =
    decayed_bounds base (base * d.floor_bps / 10000) (saturating_mul_u64 d.halving_seconds 2) e
      (floor-le base d.floor_bps v.0) (ground arith)

-- With a decay that the set-up accepts, the effective quorum never rises while time passes.
pub compute_effective_quorum_mono :
    (base e f : ℕ) (d : Option QuorumDecay) {q r : ℕ}
    → IsDecay d
    → e ≤ f
    → compute_effective_quorum base d e ≡ some q
    → compute_effective_quorum base d f ≡ some r
    → r ≤ q
unfolding compute_effective_quorum
compute_effective_quorum_mono base e f none v ef hq hr = ground arith
compute_effective_quorum_mono base e f (some d) v ef hq hr =
    decayed_mono base (base * d.floor_bps / 10000) (saturating_mul_u64 d.halving_seconds 2) e f
      (floor-le base d.floor_bps v.0) ef (ground arith) (ground arith)

-- With a decay that the set-up accepts, the effective quorum is computed without overflow for every
-- base whose products with 10000 and with the elapsed time fit in a u128.
pub compute_effective_quorum_total :
    (base e : ℕ) (d : Option QuorumDecay)
    → IsDecay d
    → base * 10000 ≤ u128_max
    → base * e ≤ u128_max
    → (q : ℕ) × (compute_effective_quorum base d e ≡ some q)
unfolding compute_effective_quorum
compute_effective_quorum_total base e none v small fits = (base, refl)
compute_effective_quorum_total base e (some d) v small fits =
    let scaled : base * d.floor_bps ≤ u128_max = le_trans (mul-le-mul_left base v.0) small in
    let (q, e') =
      decayed_total base (base * d.floor_bps / 10000) (saturating_mul_u64 d.halving_seconds 2) e
        (floor-le base d.floor_bps v.0) fits in
    (q, ground arith)
