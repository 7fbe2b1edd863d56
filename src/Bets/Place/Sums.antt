-- ===== src/Bets/Place/Sums.antt =====
-- Sums of the active bets over a registry (contracts/predictify-hybrid/src/bets.rs).
use predictify_contracts.Base.{
  ℕ, ◌+◌, ◌≤◌, ◌≡◌, refl, ap, ◌∙◌, Option, none, some, true, false, List, [], ◌∷◌, ◌++◌, ◌==◌, ◌||◌,
  arith, inl, inr, if◌then◌else◌, Bool-cases,
}
use predictify_contracts.Base.Int.{pos_part}
use predictify_contracts.Base.Lists.{contains, Distinct, contains-append, append-Distinct}
use predictify_contracts.Base.Maps.{Address}
use predictify_contracts.Bets.{Bet, is_active}
use predictify_contracts.Bets.Place.Placed.{joined}

pub to_path : (a b : ℕ) → (a == b) ≡ true → a ≡ b
to_path a b h = ground arith

-- what of a bet is locked
abbrev pub live : Option Bet → ℕ
live none = 0
live (some b) = if is_active b then pos_part b.amount else 0

abbrev pub live_sum : (Address → Option Bet) → List Address → ℕ
live_sum f [] = 0
live_sum f (u ∷ us) = live (f u) + live_sum f us

live_sum-append :
    (f : Address → Option Bet) (us : List Address) (u : Address)
    → live_sum f (us ++ u ∷ []) ≡ live_sum f us + live (f u)
live_sum-append f [] u = omega arith
live_sum-append f (v ∷ us) u = omega (arith, live_sum-append f us u)

pub live-le :
    (f : Address → Option Bet) (us : List Address) (u : Address)
    → contains us u ≡ true
    → live (f u) ≤ live_sum f us
live-le f [] u h = absurd (ground arith)
live-le f (v ∷ us) u h = elim (Bool-cases (u == v)) [
  | inl e ↦ omega (arith, ap (λ x. live (f x)) (to_path u v e))
  | inr e ↦ omega (arith, live-le f us u (ground arith))
]

-- the bets of two stores that differ at most at the user `u`
module _ (f g : Address → Option Bet) (u : Address)
    (same : (v : Address) → (v == u) ≡ false → g v ≡ f v) where
  live_sum_other : (us : List Address) → contains us u ≡ false → live_sum g us ≡ live_sum f us
  live_sum_other [] h = refl
  live_sum_other (v ∷ us) h =
      let e = same v (ground arith) in rw e (omega (arith, live_sum_other us (ground arith)))

  live_sum_change :
      (us : List Address)
      → Distinct us
      → contains us u ≡ true
      → live_sum g us + live (f u) ≡ live_sum f us + live (g u)
  live_sum_change [] d h = absurd (ground arith)
  live_sum_change (v ∷ us) d h = elim (Bool-cases (u == v)) [
    | inl e ↦
        let q = to_path u v e in
        let new : contains us u ≡ false = ap (contains us) q ∙ d.0 in
        omega (arith, live_sum_other us new, ap (λ x. live (f x)) q, ap (λ x. live (g x)) q)
    | inr e ↦
        let k = live_sum_change us d.1 (ground arith) in
        let q = same v (ground arith) in rw q (omega (arith, k))
  ]

  pub live_sum-joined :
      (us : List Address)
      → Distinct us
      → (contains us u ≡ false → live (f u) ≡ 0)
      → live_sum g (joined us u) + live (f u) ≡ live_sum f us + live (g u)
  live_sum-joined us d z = elim (Bool-cases (contains us u)) [
    | inl e ↦ rw e (live_sum_change us d e)
    | inr e ↦ rw e (omega (arith, live_sum-append g us u, live_sum_other us e, z e))
  ]

pub joined-Distinct : (us : List Address) (u : Address) → Distinct us → Distinct (joined us u)
joined-Distinct us u d = elim (Bool-cases (contains us u)) [
  | inl e ↦ rw e d
  | inr e ↦ rw e (append-Distinct us u d e)
]

pub contains-joined :
    (us : List Address) (u v : Address) → contains (joined us u) v ≡ (contains us v || v == u)
contains-joined us u v = elim (Bool-cases (contains us u)) [
  | inl e ↦ elim (Bool-cases (v == u)) [
    | inl k ↦
        let there : contains us v ≡ true = ap (contains us) (to_path v u k) ∙ e in
        rw e (rw there refl)
    | inr k ↦ rw e (rw k (ground arith))
  ]
  | inr e ↦ rw e (contains-append us u v)
]
