-- ===== src/Lib.antt =====
-- Verification of Predictify Hybrid, a Soroban contract for prediction markets
-- (contracts/predictify-hybrid/src). The contract is a set of modules over the host's storage: the
-- administrators decide who may act, the circuit breaker decides what may be written, the rate limiter
-- decides how often, governance decides by vote, the balances move tokens under the reentrancy guard,
-- and the audit trail records what administrators do.
--
-- How the code is modelled. An operation is a function from the entries it reads and writes to a result
-- and the entries after it: a value, an error code, or a host panic (a missing signature, a checked
-- overflow, a failed token call). The entries are a record with a field for each storage key; `commit`
-- is the rollback that the host makes when an invocation does not end with a value. Addresses and
-- symbols are only compared and are numbers. A u32, u64 or u128 is a number that the checked operations
-- keep in range, an i128 an integer likewise. All loops are structural; no fuel is used.
--
-- Base: shared names, results with state, maps, words, integers, lists, the host's time and signatures.
-- Errors: the error codes of err.rs.
-- AuditTrail: audit_trail.rs. Integrity and Tamper hold its proofs. The digest is a parameter.
-- Admin: admin.rs, the access checks, roles and the pause; Members is `AdminManager` with the migration,
-- Multisig is `MultisigManager`; Access, Members/Register, Multisig/Approvals and
-- Multisig/Vouched hold the proofs. The text form of an address, from which `get_admin_key` makes a key,
-- belongs to the host: the numbers of the keys are a field of the entries.
-- Breaker: circuit_breaker.rs, the entries; Control and Control/Trigger have the operations, which read
-- the administrators' entries; Control/Machine, Pause, Probes and Admission hold the proofs.
-- Governance: governance.rs, the entries and settings; Quorum, Delegation and Ballot have the operations,
-- their children the proofs. The digest of a commitment and the call of a target are parameters.
-- Limiter: rate_limiter.rs; Counters, Counters/Quota and Settings hold the proofs.
-- Guard: reentrancy_guard.rs; Locks holds the proofs.
-- Balances: balances.rs with `BalanceStorage` of storage.rs, on top of the breaker and the guard; Exact
-- holds the proofs. The token contract is a parameter.
-- Markets: types.rs and markets.rs, the state machine and its checks; Lifecycle is the step relation and
-- holds its proofs, Updates is `MarketStateManager` on a market in memory, with proofs in Updates/Course,
-- Cache its store, with proofs in Cache/Plain, Pause the pause (Pause/Clash), Payout the payout
-- (Payout/Solvency). A pause is stored under the market's key, and whether a read of the wrong type panics
-- or finds nothing belongs to the host: it is the parameter `strict`.
-- Bets: bets.rs, on top of the breaker, the guard and the market cache; Limits and Storage have the checks
-- and the entries, Place the placing and the cancelling, with proofs in its children (Admitted, Placed,
-- Cancelled, Sums, Locked, Course), Settle the resolution and the refund of a market's bets.
-- Fees: fees.rs; Breakdown is the calculation, Withdraw the scheduled withdrawal (Withdraw/Timelock), Queue
-- the time-locked configuration. The token contract, the digest of an audit record, and
-- `crate::PERCENTAGE_DENOMINATOR`, which the crate's root does not declare, are parameters.
-- Disputes: the votes on a dispute of disputes.rs; Votes has the operations, Votes/Twice and Votes/Stuck
-- the proofs.
-- Oracles: oracles.rs, the prices of the three clients and the comparison with a threshold. What the
-- contracts of Reflector and Band answer, and the byte length of a text, are parameters.
-- Resolution: resolution.rs, the quotes, the outliers and the weighted median, with proofs in Weights and
-- Outliers; Median is `resolve_with_median` on the market cache, with proofs in its children.
-- Statistics: statistics.rs, the counters of the platform and of the users.
-- Claims: lib.rs, `claim_winnings` (Opened, Granted and Denied hold its proofs) and, in Distribution,
-- `distribute_payouts` (Turns and Accounted), over the entries of the bets, markets, balances and
-- statistics; Gap compares balances with the claims on record, Run runs both calls in any order. Sweep
-- is `sweep_unclaimed_winnings` with its policy of recovery.rs (its children hold the proofs). The order
-- in which the host lists the entries of a map, whether the instruction budget is exceeded, and
-- `ResolutionOutcomeCache::require`, which no file defines, are parameters.
-- The Tests modules run the operations and the theorems on concrete inputs.
--
-- Not modelled: emitted events, storage lifetimes and the expiry of temporary entries, which belong to
-- the host; reports; `place_bets`, which uses an error code that err.rs does not declare, and the payout
-- of a bet, which reads the resolution; the collection of fees, opening and resolving disputes, votes on
-- markets, extensions, the other ways to resolve a market and the checks of oracles, which are left for
-- later; leaderboard.rs and lists.rs, which are not modules of the crate; the copies of tests and the
-- example contract.
pub mod Base
pub mod Errors
pub mod AuditTrail
pub mod Admin
pub mod Breaker
pub mod Governance
pub mod Limiter
pub mod Guard
pub mod Balances
pub mod Markets
pub mod Bets
pub mod Fees
pub mod Disputes
pub mod Oracles
pub mod Resolution
pub mod Statistics
pub mod Claims
