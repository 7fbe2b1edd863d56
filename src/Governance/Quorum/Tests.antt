-- ===== src/Governance/Quorum/Tests.antt =====
-- The effective quorum on small inputs (contracts/predictify-hybrid/src/governance.rs).
use predictify_contracts.Base.{Option, some}
use predictify_contracts.Governance.{QuorumDecay}

-- down to a fifth in 2000 seconds
abbrev decay : Option QuorumDecay
decay = some (record { floor_bps = 2000; halving_seconds = 1000 })
