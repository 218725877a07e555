-- ===== src/Tests.antt =====
-- Runs of the model at concrete inputs.
pub mod World
mod Healthy
mod Cluster
mod Helpers
mod Signals
mod Small
mod Ingress
mod Checks
mod Cli
mod CleanUps
mod Plans
mod Datadog
