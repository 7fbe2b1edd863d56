-- ===== src/Base/Words.antt =====
-- Unsigned machine words, `u32`, `u64` and `u128`. The release build checks overflow
-- (Cargo.toml, `overflow-checks`), so `none` is a panic; the saturating operations stop at the
-- ends of the range.
use Prim.Native.Nat.{ℕ, ◌+◌, ◌-◌, ◌*◌}
use mathlib.Core.Option.{Option, none, some}
use predictify_contracts.Base.Tests.{leb, if◌then◌else◌}

-- 2 ^ 32 - 1
abbrev pub u32_max : ℕ
u32_max = 4294967295

-- 2 ^ 64 - 1
abbrev pub u64_max : ℕ
u64_max = 18446744073709551615

-- 2 ^ 128 - 1
abbrev pub u128_max : ℕ
u128_max = 340282366920938463463374607431768211455

abbrev pub up_to : ℕ → ℕ → Option ℕ
up_to top n = if leb n top then some n else none

abbrev pub add_u32 : ℕ → ℕ → Option ℕ
add_u32 a b = up_to u32_max (a + b)

abbrev pub mul_u32 : ℕ → ℕ → Option ℕ
mul_u32 a b = up_to u32_max (a * b)

abbrev pub add_u64 : ℕ → ℕ → Option ℕ
add_u64 a b = up_to u64_max (a + b)

abbrev pub add_u128 : ℕ → ℕ → Option ℕ
add_u128 a b = up_to u128_max (a + b)

abbrev pub mul_u128 : ℕ → ℕ → Option ℕ
mul_u128 a b = up_to u128_max (a * b)

-- a word minus a word
abbrev pub sub_word : ℕ → ℕ → Option ℕ
sub_word a b = if leb b a then some (a - b) else none

abbrev pub clamp_to : ℕ → ℕ → ℕ
clamp_to top n = if leb n top then n else top

abbrev pub saturating_add_u32 : ℕ → ℕ → ℕ
saturating_add_u32 a b = clamp_to u32_max (a + b)

abbrev pub saturating_add_u64 : ℕ → ℕ → ℕ
saturating_add_u64 a b = clamp_to u64_max (a + b)

abbrev pub saturating_mul_u64 : ℕ → ℕ → ℕ
saturating_mul_u64 a b = clamp_to u64_max (a * b)

abbrev pub mul_u64 : ℕ → ℕ → Option ℕ
mul_u64 a b = up_to u64_max (a * b)
