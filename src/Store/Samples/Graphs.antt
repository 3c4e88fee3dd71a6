-- ===== src/Store/Samples/Graphs.antt =====
-- A plan graph of two tasks, written to an empty database, and the theorems about edges at it.
use radioactive_ralph.Prelude.{◌≡◌, refl, ◌↔◌, String, true, false, none, some, List, [], ◌∷◌, Memᴰ}
use radioactive_ralph.Store.Schema.{Db, Result, ok, err, would_cycle}
use radioactive_ralph.Store.Tasks.{create_task, add_dep}
use radioactive_ralph.Store.Plans.{
  CreatePlanOpts, create_plan, set_plan_status, reserve_task_output, reserve_task_input,
  put_task_metadata, GraphTaskSpec, write_node, write_edges, write_graph_tasks, create_plan_graph,
}
use radioactive_ralph.Paths.{canonical_reservation_path, clean}
use radioactive_ralph.Store.Cycle.{visit, would_create_cycle}
use radioactive_ralph.Store.Cycle.Search.{Walk}
use radioactive_ralph.Store.Cycle.Acyclic.{Acyclic, would_create_cycle_iff, add_dep-Acyclic}
use radioactive_ralph.Store.Plans.Graph.{write_graph_tasks-Acyclic, create_plan_graph-Acyclic}
use radioactive_ralph.Store.Plans.Edges.{has_edge, create_plan_graph-edges}
use radioactive_ralph.Store.Samples.{sample}

program : Unit {0}
unfolding create_task add_dep create_plan set_plan_status reserve_task_output reserve_task_input
    put_task_metadata write_node write_edges write_graph_tasks create_plan_graph visit
    would_create_cycle canonical_reservation_path clean
program = tt

abbrev empty_db : Db
empty_db = record {
  plans = [];
  tasks = [];
  deps = [];
  metadata = [];
  inputs = [];
  outputs = [];
  sessions = [];
  workers = [];
  events = [];
}

abbrev node : String → List String → GraphTaskSpec
node id after = record {
  task = record {
    plan_id = "";
    id = id;
    description = "do it";
    parallel_group = none;
    sequence_ordinal = some 0;
    acceptance_json = "";
    parent_task_id = "";
    requires_approval = false;
  };
  depends_on = after;
  group_path = "0";
  team_path = "";
  metadata_json = "";
  inputs = [];
  outputs = record { path = "out/./x"; detail = "" } ∷ [];
}

abbrev graph : List GraphTaskSpec
graph = node "a" [] ∷ node "b" ("a" ∷ []) ∷ []

abbrev options : CreatePlanOpts
options = record { project_id = "home"; slug = "one"; title = "One"; source_markdown = "" }

-- The database in a result, and a given one for an error.
abbrev db_of : Result Db → Db → Db
db_of (ok db) d = db
db_of (err e) d = d

abbrev planned : Db
planned = db_of (create_plan_graph 5 "n" options graph true empty_db) empty_db

written : create_plan_graph 5 "n" options graph true empty_db ≡ ok planned
unfolding program
written = refl

no_edges : (plan : String) → Acyclic [] plan
no_edges plan a b m w = elim m [ ]

create_plan_graph-Acyclic_example : Acyclic planned.deps "n"
create_plan_graph-Acyclic_example =
    create_plan_graph-Acyclic 5 "n" "n" options graph true empty_db planned (no_edges "n") written

create_plan_graph-edges_example : has_edge "n" "b" "a" planned ≡ true
create_plan_graph-edges_example =
    create_plan_graph-edges 5 "n" "a" options (node "b" ("a" ∷ [])) graph true empty_db planned
      (Memᴰ.tail (Memᴰ.head refl)) (Memᴰ.head refl) written

-- The same graph, written to a plan that exists.
abbrev grown : Db
grown = db_of (write_graph_tasks 5 "p" graph sample) sample

grows : write_graph_tasks 5 "p" graph sample ≡ ok grown
unfolding program
grows = refl

write_graph_tasks-Acyclic_example : Acyclic grown.deps "p"
write_graph_tasks-Acyclic_example =
    write_graph_tasks-Acyclic 5 "p" "p" graph sample grown (no_edges "p") grows

abbrev linked : Db
linked = db_of (add_dep "p" "pack" "build" sample) sample

links : add_dep "p" "pack" "build" sample ≡ ok linked
unfolding program
links = refl

closes : add_dep "p" "build" "pack" linked ≡ err would_cycle
unfolding program
closes = refl

add_dep-Acyclic_example : Acyclic linked.deps "p"
add_dep-Acyclic_example = add_dep-Acyclic "p" "pack" "build" "p" sample linked (no_edges "p") links

would_create_cycle_iff_example :
    (would_create_cycle
        (record { plan_id = "p"; task_id = "pack"; depends_on = "build" } ∷ [])
        "p"
        "build"
        "pack"
      ≡ true)
    ↔ Walk
        (record { plan_id = "p"; task_id = "pack"; depends_on = "build" } ∷ [])
        "p"
        "pack"
        "build"
would_create_cycle_iff_example =
    would_create_cycle_iff (record { plan_id = "p"; task_id = "pack"; depends_on = "build" } ∷ [])
      "p" "build" "pack"
