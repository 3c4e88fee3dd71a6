-- ===== src/Store.antt =====
-- internal/store: the durable state of the supervisor. `Schema` is the tables, and each other module
-- is named for the part of the store whose statements it holds.
pub mod Schema
pub mod Cycle
pub mod Queries
pub mod Tasks
pub mod Workers
pub mod Reaper
pub mod Blocks
pub mod Plans
pub mod Partitions
pub mod Steps
pub mod Exclusive
pub mod Lifecycle
mod Samples
