-- ===== src/Store/Samples/Waves.antt =====
-- The partitions of the ready tasks of a plan with two leaf groups.
use radioactive_ralph.Prelude.{◌≡◌, refl, String, Bool, none, [], ◌∷◌, map, count, filterb, text_eq}
use radioactive_ralph.Store.Schema.{Task, TaskMetadataRow, Db}
use radioactive_ralph.Store.Partitions.{
  ReadyPartition, text_le, is_dispatchable, ready_rows, ready_partitions,
}
use radioactive_ralph.Store.Partitions.Complete.{tasks_of, ready_partitions-count}
use radioactive_ralph.Store.Samples.{sample, waiting}

program : Unit {0}
unfolding text_le ready_rows ready_partitions
program = tt

abbrev in_group : String → String → TaskMetadataRow
in_group id path = record {
  plan_id = "p";
  task_id = id;
  group_path = path;
  team_path = "";
  metadata_json = "{}";
  blocked_reason = none;
}

-- `pack` stands in the first group, `build` and `lint` in the second.
abbrev grouped : Db
grouped = record sample {
  tasks = waiting "p" "build" ∷ waiting "p" "pack" ∷ waiting "p" "lint" ∷ [];
  metadata = in_group "build" "1" ∷ in_group "pack" "0" ∷ in_group "lint" "1" ∷ [];
}

-- No binding is declared.
abbrev unbound : String → String
unbound json = ""

waves :
    map
      (λ (p : ReadyPartition). map (λ (t : Task). t.id) p.tasks)
      (ready_partitions unbound "p" grouped)
    ≡ ("pack" ∷ []) ∷ ("build" ∷ "lint" ∷ []) ∷ []
unfolding program
waves = refl

abbrev is_lint : Task → Bool
is_lint t = text_eq t.id "lint"

ready_partitions-count_example :
    count is_lint (tasks_of (ready_partitions unbound "p" grouped))
    ≡ count is_lint (filterb (is_dispatchable grouped "p") grouped.tasks)
ready_partitions-count_example = ready_partitions-count unbound grouped "p" is_lint
