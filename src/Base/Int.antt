-- ===== src/Base/Int.antt =====
-- `i128` values as integers over the native numbers, with the checked operations of the contract.
use Prim.Native.Nat.{ℕ, zero, suc, ◌+◌, ◌-◌, ◌*◌, ◌/◌, ◌≤◌, ◌<◌}
use mathlib.Core.Path.{◌≡◌}
use mathlib.Core.Bool.{Bool, ◌&&◌}
use mathlib.Core.Option.{Option, none, some}
use native.Mathlib.Omega.{arith}
use predictify_contracts.Base.Tests.{ltb, leb, if◌then◌else◌}

-- `negsuc n` is -(n + 1)
pub data ℤ : Type 0 where
  pos : ℕ → ℤ
  negsuc : ℕ → ℤ

abbrev pub pos_part : ℤ → ℕ
pos_part (pos n) = n
pos_part (negsuc _) = 0

abbrev pub neg_part : ℤ → ℕ
neg_part (pos _) = 0
neg_part (negsuc n) = suc n

abbrev pub sub_ℕ : ℕ → ℕ → ℤ
sub_ℕ a b = if leb b a then pos (a - b) else negsuc (b - a - 1)

infixl 65 ◌+ℤ◌ ◌-ℤ◌
infix 50 ◌≤ℤ◌ ◌<ℤ◌
unfoldable pub ◌+ℤ◌ : ℤ → ℤ → ℤ
a +ℤ b = sub_ℕ (pos_part a + pos_part b) (neg_part a + neg_part b)

unfoldable pub ◌-ℤ◌ : ℤ → ℤ → ℤ
a -ℤ b = sub_ℕ (pos_part a + neg_part b) (neg_part a + pos_part b)

abbrev pub ◌≤ℤ◌ : ℤ → ℤ → Type 0
a ≤ℤ b = pos_part a + neg_part b ≤ pos_part b + neg_part a

abbrev pub ◌<ℤ◌ : ℤ → ℤ → Type 0
a <ℤ b = pos_part a + neg_part b < pos_part b + neg_part a

abbrev pub ltb_ℤ : ℤ → ℤ → Bool
ltb_ℤ a b = ltb (pos_part a + neg_part b) (pos_part b + neg_part a)

abbrev pub leb_ℤ : ℤ → ℤ → Bool
leb_ℤ a b = leb (pos_part a + neg_part b) (pos_part b + neg_part a)

-- with these the operations can stay shut
pub +ℤ_parts :
    (a b : ℤ)
    → pos_part (a +ℤ b) + neg_part a + neg_part b ≡ neg_part (a +ℤ b) + pos_part a + pos_part b
unfolding ◌+ℤ◌
+ℤ_parts a b = ground arith

pub -ℤ_parts :
    (a b : ℤ)
    → pos_part (a -ℤ b) + neg_part a + pos_part b ≡ neg_part (a -ℤ b) + pos_part a + neg_part b
unfolding ◌-ℤ◌
-ℤ_parts a b = ground arith

pub eq_of_parts : (a b : ℤ) → pos_part a + neg_part b ≡ pos_part b + neg_part a → a ≡ b
eq_of_parts a b h = ground arith

pub ruleset int_laws = (arith, +ℤ_parts, -ℤ_parts, eq_of_parts)

-- 2 ^ 127 - 1
abbrev pub i128_max : ℕ
i128_max = 170141183460469231731687303715884105727

-- the value, if an `i128` holds it
abbrev pub in_i128 : ℤ → Bool
in_i128 a = leb (pos_part a) i128_max && leb (neg_part a) (i128_max + 1)

abbrev pub to_i128 : ℤ → Option ℤ
to_i128 a = if in_i128 a then some a else none

abbrev pub checked_add : ℤ → ℤ → Option ℤ
checked_add a b = to_i128 (a +ℤ b)

abbrev pub checked_sub : ℤ → ℤ → Option ℤ
checked_sub a b = to_i128 (a -ℤ b)

-- `saturating_sub`, which stops at the ends of the range
abbrev pub saturating_sub : ℤ → ℤ → ℤ
saturating_sub a b =
    let d = a -ℤ b in
    if in_i128 d then d else (if leb_ℤ (pos 0) d then pos i128_max else negsuc i128_max)

-- the integer of a sign and a magnitude
abbrev pub neg : ℕ → ℤ
neg zero = pos zero
neg (suc n) = negsuc n

infixl 70 ◌*ℤ◌
abbrev pub ◌*ℤ◌ : ℤ → ℤ → ℤ
pos a *ℤ pos b = pos (a * b)
pos a *ℤ negsuc b = neg (a * suc b)
negsuc a *ℤ pos b = neg (suc a * b)
negsuc a *ℤ negsuc b = pos (suc a * suc b)

abbrev pub checked_mul : ℤ → ℤ → Option ℤ
checked_mul a b = to_i128 (a *ℤ b)

-- `/`, which rounds towards 0 and panics at 0
abbrev pub div_i128 : ℤ → ℤ → Option ℤ
div_i128 a (pos zero) = none
div_i128 (pos a) (pos (suc b)) = some (pos (a / suc b))
div_i128 (pos a) (negsuc b) = some (neg (a / suc b))
div_i128 (negsuc a) (pos (suc b)) = some (neg (suc a / suc b))
div_i128 (negsuc a) (negsuc b) = to_i128 (pos (suc a / suc b))
