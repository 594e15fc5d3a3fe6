-- ===== src/Recovery.antt =====
-- custom_components/casambi_mqtt/recovery.py: the entry's recovery manager and health coordinator.
pub mod Manager
pub mod Task
pub mod Coordinator
pub mod Events
pub mod Frame
pub mod Budget
pub mod Proved
pub mod Started
pub mod Store
mod Tests
