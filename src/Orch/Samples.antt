-- ===== src/Orch/Samples.antt =====
-- A small plan, what the code does on it, and the theorems about document order at it.
use radioactive_ralph.Prelude.{
  ◌≡◌, refl, String, true, false, ◌||◌, none, [], ◌∷◌, map, all, filterb, text_eq, itoa, join,
}
use radioactive_ralph.Plan.{
  Plan, group, nil, cons, Step, DoneSet, walk_groups, decompose_refs, step_id, group_done,
  leaf_ready,
}
use radioactive_ralph.Orch.Import.{step_task_id, document_order_edges}
use radioactive_ralph.Orch.Edges.Readiness.{ready_edge, closed_edge}
use radioactive_ralph.Orch.Edges.Order.{graph_edges, unannotated, document_order-decompose}
use radioactive_ralph.Plan.Leaves.{leaves}
use radioactive_ralph.Orch.Edges.Leafwise.{deps_of, edges_of}
use radioactive_ralph.Orch.Edges.Walk.{document_order_edges-leaves}

abbrev plain : String → Step
plain text = record { text = text; detail = ""; requires_approval = false; metadata = none }

-- Two parallel steps, then two sequential ones under a subheading.
abbrev sample : Plan
sample = cons (group "Prepare" 1 true (plain "fetch" ∷ plain "configure" ∷ []) nil) (
    cons
      (group "Build" 1 false []
        (cons (group "Core" 2 false (plain "compile" ∷ plain "link" ∷ []) nil) nil))
      nil)

-- The parallel steps and the first sequential one are done.
abbrev sample_done : DoneSet
sample_done id = text_eq id "0.0" || (text_eq id "0.1" || text_eq id "1.0.0")

program : Unit {0}
unfolding walk_groups decompose_refs group_done leaf_ready step_id document_order_edges step_task_id
    itoa join
program = tt

sample_edges :
    map (λ e. e.1) (graph_edges sample) ≡ [] ∷ [] ∷ ("0.0" ∷ "0.1" ∷ []) ∷ ("1.0.0" ∷ []) ∷ []
unfolding program
sample_edges = refl

sample_plain : unannotated (walk_groups sample [] 0) ≡ true
unfolding program
sample_plain = refl

sample_closed : all (closed_edge sample_done step_task_id) (graph_edges sample) ≡ true
unfolding program
sample_closed = refl

document_order-decompose_example :
    map (λ e. e.0.0) (filterb (ready_edge sample_done step_task_id) (graph_edges sample))
    ≡ (decompose_refs sample sample_done).1
document_order-decompose_example =
    document_order-decompose sample sample_done sample_plain sample_closed

sample_ready :
    (decompose_refs sample sample_done).1 ≡ record { group_path = 1 ∷ 0 ∷ []; index = 1 } ∷ []
unfolding program
sample_ready = refl

document_order_edges-leaves_example :
    document_order_edges sample (map step_task_id (walk_groups sample [] 0))
    ≡ deps_of (edges_of step_task_id [] (leaves sample [] 0))
document_order_edges-leaves_example = document_order_edges-leaves step_task_id sample
