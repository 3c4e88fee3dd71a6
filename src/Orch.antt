-- ===== src/Orch.antt =====
-- internal/orch: the orchestrator. `Import` is internal/orch/plan_import.go with `stepTaskID` of
-- internal/orch/dispatch_graph.go, and `Edges` is about its document-order edges.
pub mod Import
pub mod Edges
pub mod Spend
pub mod Specs
mod ImportSamples
mod Samples
pub mod Rotation
pub mod Acceptance
pub mod Verify
