-- ===== src/Bridge.antt =====
-- The bridge process, server.py.
pub mod State
pub mod Status
pub mod Trust
pub mod Heard
pub mod Units
pub mod Newest
pub mod Sound
pub mod Delivery
pub mod Startup
pub mod Stages
pub mod Exits
pub mod Commands
pub mod Targets
pub mod Snapshot
pub mod SwitchEvents
pub mod Conversion
pub mod Purge
mod Tests
mod CommandTests
