-- ===== src/Tests.antt =====
-- Runs at concrete inputs: each result is applied to values at which its conditions hold.
pub mod Tasks
pub mod Pipelines
pub mod Files
pub mod Sessions
pub mod Plans
pub mod Monitors
pub mod Talks
pub mod Gates
pub mod Checks
pub mod Grants
pub mod Logs
