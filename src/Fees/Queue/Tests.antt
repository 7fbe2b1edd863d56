-- ===== src/Fees/Queue/Tests.antt =====
-- A queued fee configuration on small inputs (contracts/predictify-hybrid/src/fees.rs).
use predictify_contracts.Base.{ℕ, ◌≡◌, refl, none, some, true}
use predictify_contracts.Base.Int.{pos}
use predictify_contracts.Base.Maps.{empty}
use predictify_contracts.Base.Host.{Env}
use predictify_contracts.Base.Action.{is_ok}
use predictify_contracts.Fees.{FeeStore, FeeConfig, standard_fees}
use predictify_contracts.Fees.Queue.{apply_update}

abbrev at : ℕ → Env
at t = record { now = t; authorized = λ a. true }

abbrev dear : FeeConfig
dear = record standard_fees { platform_fee_percentage = pos 500 }

abbrev queued : FeeStore ℕ
queued = record {
  admin = some 1;
  vault = none;
  last_withdrawal = none;
  schedule = none;
  active = some standard_fees;
  pending = some dear;
  pending_eta = some 100;
  history = none;
  token_id = none;
  locks = empty;
  audit = record { records = empty; head = none };
  ledger = 0;
}

update_accepted : is_ok (apply_update (at 120) 8 queued).0 ≡ true
unfolding apply_update
update_accepted = refl
