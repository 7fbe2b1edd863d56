-- ===== src/Base/Host.antt =====
-- What the Soroban host gives a call: the ledger's time, and the addresses that have authorised
-- the invocation (`require_auth` panics for any other).
use Prim.Native.Nat.{ℕ}
use mathlib.Core.Bool.{Bool}
use predictify_contracts.Base.Maps.{Address}
use predictify_contracts.Base.Action.{Action, abort_unless}

pub record Env : Type 0 where
  pub now : ℕ  -- `env.ledger().timestamp()`, a u64
  pub authorized : Address → Bool

-- `address.require_auth()`
abbrev pub require_auth : {S E : Type 0} → Env → Address → Action S E (Unit {0})
require_auth env a = abort_unless (env.authorized a)
