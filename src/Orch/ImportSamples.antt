-- ===== src/Orch/ImportSamples.antt =====
-- The import of the sample document: internal/orch/plan_import.go on what internal/plan parses.
use radioactive_ralph.Prelude.{
  ◌≡◌, refl, String, Bool, true, false, Option, none, some, List, [], ◌∷◌, map, distinct_by,
  text_eq, itoa, join,
}
use radioactive_ralph.Plan.{TaskMetadata, walk_groups, step_id, group_id}
use radioactive_ralph.Plan.Samples.{read, document, parsed, parse_document, bare}
use radioactive_ralph.Plan.Validate.{ids_of, walk_plan_steps}
use radioactive_ralph.Orch.Import.{
  GraphTaskSpec, ok, graph_specs, document_order_edges, step_task_id,
}
use radioactive_ralph.Orch.Specs.{graph_specs-ids}

abbrev spec : String → String → Bool → List String → String → Option TaskMetadata → GraphTaskSpec
spec id text approval deps path m = record {
  id = id;
  description = text;
  acceptance_json = "";
  requires_approval = approval;
  depends_on = deps;
  group_path = path;
  team_path = "";
  metadata = m;
  inputs = [];
  outputs = [];
}

abbrev specs : List GraphTaskSpec
specs =
    spec "build" "build it" false [] "0.0" (some bare)
    ∷ spec "review" "review it" true [] "0.0"
        (some (record bare { id = "review"; different_from = "build" ∷ [] }))
    ∷ spec "1.0" "push" false ("build" ∷ "review" ∷ []) "1" none
    ∷ []

import_parsed : graph_specs (λ s. "") parsed ≡ ok specs
unfolding graph_specs document_order_edges walk_groups step_task_id step_id itoa join group_id
import_parsed = refl

graph_specs-ids_example :
    (map (λ s. s.id) specs ≡ ids_of (walk_plan_steps parsed))
    × (distinct_by text_eq (ids_of (walk_plan_steps parsed)) ≡ true)
graph_specs-ids_example =
    graph_specs-ids read (λ s. "") document parsed specs parse_document import_parsed
