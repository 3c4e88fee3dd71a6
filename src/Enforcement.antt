-- ===== src/Enforcement.antt =====
-- internal/enforcement: the portable policy machine of the supervision adapters.
pub mod Vocabulary
pub mod Validation
pub mod Evaluation
pub mod Closed
pub mod Accepted
pub mod Completion
pub mod Budgets
mod Samples
