-- ===== src/Governance/Quorum.antt =====
-- The quorum that falls with time (contracts/predictify-hybrid/src/governance.rs,
-- `compute_effective_quorum`); `none` is an overflow of the checked u128 arithmetic.
pub mod Bounds
mod Tests
use predictify_contracts.Base.{
  ℕ, ◌+◌, ◌-◌, ◌*◌, ◌/◌, Option, none, some, Bool, true, false, ltb, leb, if◌then◌else◌,
}
use predictify_contracts.Base.Words.{mul_u128, sub_word, saturating_mul_u64}
use predictify_contracts.Governance.{QuorumDecay}

infixl 5 ◌>>=◌
abbrev pub ◌>>=◌ : {A B : Type 0} → Option A → (A → Option B) → Option B
none >>= f = none
some a >>= f = f a

-- the value between the base and the floor
abbrev pub decayed : ℕ → ℕ → ℕ → ℕ → Option ℕ
decayed base_quorum floor full_decay_period elapsed =
    if leb full_decay_period elapsed then some floor else (do
      span ← sub_word base_quorum floor
      scaled ← mul_u128 span elapsed
      effective ← sub_word base_quorum (scaled / full_decay_period)
      some (if ltb effective floor then floor else effective))

unfoldable pub compute_effective_quorum : ℕ → Option QuorumDecay → ℕ → Option ℕ
compute_effective_quorum base_quorum none elapsed = some base_quorum
compute_effective_quorum base_quorum (some cfg) elapsed = do
  scaled ← mul_u128 base_quorum cfg.floor_bps
  decayed base_quorum (scaled / 10000) (saturating_mul_u64 cfg.halving_seconds 2) elapsed
