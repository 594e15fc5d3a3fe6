-- ===== src/Supervisor.antt =====
-- The root-owned recovery supervisor of the bridge, scripts/bridge_recovery.py.
pub mod Clock
pub mod State
pub mod Decide
pub mod Record
pub mod Store
pub mod Persistence
pub mod Machine
pub mod Options
pub mod Recover
pub mod Effects
pub mod Traces
pub mod Passes
pub mod Guarantees
pub mod Waiting
pub mod Outcomes
pub mod Restarted
mod Bench
mod Tests
pub mod Decisions
pub mod Observations
