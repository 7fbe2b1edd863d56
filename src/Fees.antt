-- ===== src/Fees.antt =====
-- Fees (contracts/predictify-hybrid/src/fees.rs): the fee configuration and what is stored of it,
-- and the arithmetic of the fees. Events are left out.
pub mod Breakdown
pub mod Withdraw
pub mod Queue
mod Tests
use predictify_contracts.Base.{
  ℕ, Option, none, some, Bool, true, false, not, ◌&&◌, ◌||◌, ◌==◌, List, if◌then◌else◌,
}
use predictify_contracts.Base.Int.{ℤ, pos, ltb_ℤ, leb_ℤ, checked_mul, checked_sub, div_i128}
use predictify_contracts.Base.Maps.{Address, Map}
use predictify_contracts.Base.Action.{
  Action, Result, ok, err, raise_if, or_raise, pure, ◌>>=◌, ◌>>◌,
}
use predictify_contracts.Errors.{
  Error, invalid_fee_config, fee_arithmetic_overflow, insufficient_stake, invalid_input,
  unauthorized, nothing_to_claim,
}
use predictify_contracts.AuditTrail.{AuditStore}

pub record FeeConfig : Type 0 where
  pub platform_fee_percentage : ℤ
  pub creation_fee : ℤ
  pub min_fee_amount : ℤ
  pub max_fee_amount : ℤ
  pub collection_threshold : ℤ
  pub fees_enabled : Bool

pub record FeeWithdrawalSchedule : Type 0 where
  pub timelock_seconds : ℕ
  pub max_withdrawal_bps : ℕ

pub record HistoricalFeeConfig : Type 0 where
  pub config : FeeConfig
  pub replaced_at : ℕ

-- the entries "Admin", "tot_fees", "wd_last", "wd_cfg", "fee_cfg", "pfee_cfg", "pfee_eta",
-- "fc_hist", "TokenID" and "reent_lk", the audit trail's, and the token contract's ledger
pub record FeeStore (L : Type 0) : Type 0 where
  pub admin : Option Address
  pub vault : Option ℤ
  pub last_withdrawal : Option ℕ
  pub schedule : Option FeeWithdrawalSchedule
  pub active : Option FeeConfig
  pub pending : Option FeeConfig
  pub pending_eta : Option ℕ
  pub history : Option (List HistoricalFeeConfig)
  pub token_id : Option Address
  pub locks : Map Bool
  pub audit : AuditStore
  pub ledger : L

-- `PLATFORM_FEE_PERCENTAGE`, `MAX_FEE_PERCENTAGE` and `MIN_FEE_AMOUNT`
abbrev pub platform_fee : ℕ
platform_fee = 200

abbrev pub max_fee_percentage : ℕ
max_fee_percentage = 500

abbrev pub min_fee : ℕ
min_fee = 1000000

abbrev pub standard_fees : FeeConfig
standard_fees = record {
  platform_fee_percentage = pos platform_fee;
  creation_fee = pos 10000000;
  min_fee_amount = pos min_fee;
  max_fee_amount = pos 1000000000;
  collection_threshold = pos 100000000;
  fees_enabled = true;
}

abbrev pub checked_mul_div_floor : {S : Type 0} → ℤ → ℤ → ℤ → Action S Error ℤ
checked_mul_div_floor value multiplier divisor = do
  raise_if (ltb_ℤ value (pos 0) || ltb_ℤ multiplier (pos 0) || leb_ℤ divisor (pos 0))
      invalid_fee_config
  product ← or_raise (checked_mul value multiplier) fee_arithmetic_overflow
  or_raise (div_i128 product divisor) fee_arithmetic_overflow

-- The code divides by `crate::PERCENTAGE_DENOMINATOR`, which the crate's root does not declare: it
-- is a parameter here.
abbrev pub checked_bps_floor : {S : Type 0} (denominator : ℤ) → ℤ → ℤ → Action S Error ℤ
checked_bps_floor denominator amount bps = checked_mul_div_floor amount bps denominator

-- `FeeValidator::validate_fee_config`
pub validate_fee_config : FeeConfig → Result Error (Unit {0})
validate_fee_config c =
    if ltb_ℤ c.platform_fee_percentage (pos 0)
      || ltb_ℤ (pos max_fee_percentage) c.platform_fee_percentage
    then err invalid_input
    else (if ltb_ℤ c.creation_fee (pos 0)
        then err invalid_input
        else (if ltb_ℤ c.min_fee_amount (pos 0)
            then err invalid_input
            else (if ltb_ℤ c.max_fee_amount c.min_fee_amount
                then err invalid_input
                else (if ltb_ℤ c.collection_threshold (pos 0) then err invalid_input else ok tt))))

-- `FeeValidator::validate_admin_permissions`
abbrev pub validate_admin_permissions :
    {L : Type 0} → Address → FeeStore L → Result Error (Unit {0})
validate_admin_permissions admin s = elim s.admin [
  | some stored ↦ if admin == stored then ok tt else err unauthorized
  | none ↦ err unauthorized
]
