-- ===== src/DatadogAgent.antt =====
-- cmd/datadog-agent: the check that metrics reach Datadog.
pub mod Client
pub mod Check
pub mod Reading
pub mod Effects
pub mod Success
pub mod New
pub mod Evidence
pub mod Cancelled
pub mod Keys
