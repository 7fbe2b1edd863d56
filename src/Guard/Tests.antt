-- ===== src/Guard/Tests.antt =====
-- The reentrancy guard on small inputs (contracts/predictify-hybrid/src/reentrancy_guard.rs). The
-- state is the entry of the locks itself.
use predictify_contracts.Base.{Bool}
use predictify_contracts.Base.Maps.{Map}
use predictify_contracts.Base.Action.{Action, pure, raise}
use predictify_contracts.Errors.{Error, invalid_input}

abbrev get : Map Bool → Map Bool
get m = m

abbrev put : Map Bool → Map Bool → Map Bool
put m _ = m

abbrev work : Action (Map Bool) Error (Unit {0})
work = pure tt

abbrev failing : Action (Map Bool) Error (Unit {0})
failing = raise invalid_input
