-- ===== src/Admin/Members/Tests.antt =====
-- The register of administrators on small inputs (contracts/predictify-hybrid/src/admin.rs).
use predictify_contracts.Base.{refl, none, some, true, List, [], ◌∷◌, arith}
use predictify_contracts.Base.Maps.{empty, update}
use predictify_contracts.Base.Host.{Env}
use predictify_contracts.Admin.{super_admin, market_admin, fee_admin, AdminStore}
use predictify_contracts.Admin.Members.{assignment_of, migrate_to_multi_admin}
use predictify_contracts.Admin.Members.Register.{
  IsRegister, Op, apply_all, apply_all-IsRegister, migrate_to_multi_admin-IsRegister,
}

abbrev at_5 : Env
at_5 = record { now = 5; authorized = λ a. true }

abbrev single : AdminStore
single = record {
  admin = some 1;
  admin_role = none;
  migrated = none;
  admin_key = λ a. a;
  multi_admin = empty;
  admin_list = none;
  admin_count = none;
  paused = none;
  multisig_config = none;
  pending_threshold = none;
  next_action_id = none;
  pending_action = empty;
  audit = record { head = none; records = empty };
}

-- 2 is added, then 3; 2 is removed
abbrev script : List Op
script = Op.add at_5 1 2 market_admin ∷ Op.add at_5 1 3 fee_admin ∷ Op.remove at_5 1 2 ∷ []

apply_all-IsRegister_example : IsRegister (apply_all script (migrate_to_multi_admin at_5 single))
apply_all-IsRegister_example =
    apply_all-IsRegister script (migrate_to_multi_admin at_5 single)
      (migrate_to_multi_admin-IsRegister at_5 single (λ k. refl) (λ a b e. e) (λ e. ground arith))

-- 2 is a super administrator that was added before the migration
abbrev early : AdminStore
early = record single {
  multi_admin = update single.multi_admin 2 (some (assignment_of at_5 2 super_admin 1));
  admin_list = some (2 ∷ []);
  admin_count = some 1;
}
