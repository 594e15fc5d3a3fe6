-- ===== src/Integration.antt =====
-- custom_components/casambi_mqtt: the setup of a config entry, its switches, lights and scenes, its device
-- triggers, the migration of its entities and the configuration flows.
pub mod Names
pub mod Topics
pub mod Runtime
pub mod Switches
pub mod Buttons
pub mod Handling
pub mod Runs
pub mod Stored
pub mod Restored
pub mod Kept
pub mod Observed
pub mod Reload
pub mod Started
pub mod Options
pub mod Migration
pub mod Plans
pub mod Migrating
pub mod Flows
pub mod Separate
pub mod Networks
pub mod Entities
pub mod Lights
pub mod Scenes
pub mod Calls
pub mod Control
pub mod Published
pub mod Repeats
pub mod Triggers
pub mod Firing
mod Tests
mod EntityTests
