-- ===== src/Health.antt =====
-- The health observation of the integration: health_protocol.py and health.py, both in
-- custom_components/casambi_mqtt.
pub mod Protocol
pub mod Wire
pub mod RoundTrip
pub mod Replies
pub mod Bridge
pub mod Freshness
pub mod Probe
pub mod Collect
pub mod Verdicts
pub mod Sources
pub mod Successes
pub mod Endings
pub mod Observer
pub mod Ticking
mod Tests
mod ProbeTests
