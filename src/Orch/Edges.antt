-- ===== src/Orch/Edges.antt =====
-- The document-order edges of internal/orch/plan_import.go: leaf by leaf, their stateful walk, and
-- what they say about readiness and about cycles.
pub mod Leafwise
pub mod Walk
pub mod Readiness
pub mod Order
pub mod Backward
