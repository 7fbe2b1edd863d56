-- ===== src/Base/Maps.antt =====
-- Storage maps. Addresses and symbols are only compared with one another, so they are numbers; a
-- map is the function from a key to what is stored there.
use Prim.Native.Nat.{ℕ}
use mathlib.Core.Option.{Option, none, some}
use mathlib.Core.Bool.{Bool, true, false}
use predictify_contracts.Base.Tests.{◌==◌, if◌then◌else◌}

abbrev pub Address : Type 0
Address = ℕ

abbrev pub Symbol : Type 0
Symbol = ℕ

abbrev pub Map : Type 0 → Type 0
Map V = ℕ → Option V

abbrev pub update {ℓ} : {V : Type ℓ} → (ℕ → V) → ℕ → V → ℕ → V
update m k v j = if j == k then v else m j

abbrev pub update₂ {ℓ} : {V : Type ℓ} → (ℕ → ℕ → V) → ℕ → ℕ → V → ℕ → ℕ → V
update₂ m k l v i j = if i == k then (if j == l then v else m i j) else m i j

abbrev pub empty : {V : Type 0} → Map V
empty _ = none

abbrev pub has : {V : Type 0} → Option V → Bool
has none = false
has (some _) = true

abbrev pub get_or : {V : Type 0} → Option V → V → V
get_or none d = d
get_or (some v) _ = v
