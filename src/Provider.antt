-- ===== src/Provider.antt =====
-- internal/provider: what the orchestrator learns from a turn that failed.
pub mod Failure
pub mod Retries
pub mod Cooldowns
pub mod Pool
mod Samples
