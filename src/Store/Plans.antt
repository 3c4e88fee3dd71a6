-- ===== src/Store/Plans.antt =====
-- internal/store/plans.go, plan_delete.go, output_reservation.go and plan_graph.go: plans, declared
-- paths, and the atomic write of a plan with its whole task graph.
pub mod Graph
pub mod Edges
use radioactive_ralph.Prelude.{
  ℕ, String, Bool, not, ◌&&◌, ◌||◌, none, List, [], ◌∷◌, ◌++◌, any, filterb, if◌then◌else◌, text_eq,
  column_eq, is_none,
}
use radioactive_ralph.Paths.{canonical_reservation_path}
use radioactive_ralph.Store.Schema.{
  PlanStatus, draft, active, PlanRow, Db, required, constraint, plan_not_found, duplicate_slug,
  duplicate_metadata, Result, ok, err, ◌>>=◌, is_task, update_where,
}
use radioactive_ralph.Store.Tasks.{CreateTaskOpts, is_empty, create_task, add_dep}
use radioactive_ralph.Store.Blocks.{is_row}

pub record CreatePlanOpts : Type 0 where
  pub project_id : String
  pub slug : String
  pub title : String
  pub source_markdown : String

abbrev pub is_plan : String → PlanRow → Bool
is_plan id p = text_eq p.id id

-- `createPlanOn`, with the fresh id. The project row is a foreign key that this model leaves out.
unfoldable pub create_plan : String → CreatePlanOpts → Db → Result Db
create_plan id o db =
    if is_empty o.project_id || is_empty o.slug || is_empty o.title
    then err required
    else (if any (λ p. is_plan id p || (text_eq p.project_id o.project_id && text_eq p.slug o.slug))
          db.plans
        then err duplicate_slug
        else ok (record db {
          plans =
              db.plans
              ++ record {
                id = id;
                project_id = o.project_id;
                slug = o.slug;
                title = o.title;
                status = draft;
                source_markdown = o.source_markdown;
              }
                ∷ [];
        }))

-- `setPlanStatusOn`
unfoldable pub set_plan_status : String → PlanStatus → Db → Result Db
set_plan_status id status db =
    if any (is_plan id) db.plans
    then ok (record db {
      plans = update_where (is_plan id) (λ p. record p { status = status }) db.plans;
    })
    else err plan_not_found

-- `DeletePlan`: the events, then the plan with everything that its foreign keys cascade to. A
-- worker whose current task goes loses both columns of that key.
unfoldable pub delete_plan : String → Db → Result Db
delete_plan id db =
    if any (is_plan id) db.plans
    then ok (record db {
      plans = filterb (λ p. not (is_plan id p)) db.plans;
      tasks = filterb (λ t. not (text_eq t.plan_id id)) db.tasks;
      deps = filterb (λ d. not (text_eq d.plan_id id)) db.deps;
      metadata = filterb (λ m. not (text_eq m.plan_id id)) db.metadata;
      inputs = filterb (λ r. not (text_eq r.plan_id id)) db.inputs;
      outputs = filterb (λ r. not (text_eq r.plan_id id)) db.outputs;
      workers =
          update_where (λ w. column_eq w.current_plan_id id && not (is_none w.current_task_id))
            (λ w. record w { current_plan_id = none; current_task_id = none }) db.workers;
      events = filterb (λ e. not (text_eq e.plan_id id)) db.events;
    })
    else err plan_not_found

-- `reserveTaskOutputOn` and `reserveTaskInputOn`: the row's key and its task are constraints.
unfoldable pub reserve_task_output : String → String → String → String → Db → Result Db
reserve_task_output plan id path mode db =
    let canonical = canonical_reservation_path path in
    if is_empty canonical
    then err required
    else (if not (is_empty mode || text_eq mode "exclusive")
          || not (any (is_task plan id) db.tasks)
          || any (λ r. text_eq r.plan_id plan && text_eq r.task_id id && text_eq r.path canonical)
              db.outputs
        then err constraint
        else ok (record db {
          outputs = db.outputs ++ record { plan_id = plan; task_id = id; path = canonical } ∷ [];
        }))

unfoldable pub reserve_task_input : String → String → String → String → Db → Result Db
reserve_task_input plan id path sha256 db =
    let canonical = canonical_reservation_path path in
    if is_empty canonical
    then err required
    else (if not (any (is_task plan id) db.tasks)
          || any (λ r. text_eq r.plan_id plan && text_eq r.task_id id && text_eq r.path canonical)
              db.inputs
        then err constraint
        else ok (record db {
          inputs =
              db.inputs
              ++ record { plan_id = plan; task_id = id; path = canonical; sha256 = sha256 } ∷ [];
        }))

-- `putTaskMetadataOn`
unfoldable pub put_task_metadata : String → String → String → String → String → Db → Result Db
put_task_metadata plan id group_path team_path metadata_json db =
    if is_empty group_path
    then err required
    else (if any (is_row plan id) db.metadata
        then err duplicate_metadata
        else (if any (is_task plan id) db.tasks
            then ok (record db {
              metadata =
                  db.metadata
                  ++ record {
                    plan_id = plan;
                    task_id = id;
                    group_path = group_path;
                    team_path = team_path;
                    metadata_json = metadata_json;
                    blocked_reason = none;
                  }
                    ∷ [];
            })
            else err constraint))

pub record PathSpec : Type 0 where
  pub path : String
  pub detail : String

-- `GraphTaskSpec`; `detail` of an input is its sha256, of an output its mode.
pub record GraphTaskSpec : Type 0 where
  pub task : CreateTaskOpts
  pub depends_on : List String
  pub group_path : String
  pub team_path : String
  pub metadata_json : String
  pub inputs : List PathSpec
  pub outputs : List PathSpec

-- A loop of statements in one transaction: the first error ends it.
abbrev pub each {ℓ} : {A : Type ℓ} → (A → Db → Result Db) → List A → Db → Result Db
each f [] db = ok db
each f (x ∷ xs) db = do after ← f x db; each f xs after

abbrev pub write_metadata : String → GraphTaskSpec → Db → Result Db
write_metadata plan s db =
    if is_empty s.group_path
    then ok db
    else put_task_metadata plan s.task.id s.group_path s.team_path
        (if is_empty s.metadata_json then "{}" else s.metadata_json) db

-- One node: the task, its metadata and its reservations.
unfoldable pub write_node : ℕ → String → GraphTaskSpec → Db → Result Db
write_node now plan s db = do
  created ← create_task now (record (s.task) { plan_id = plan }) db
  described ← write_metadata plan s created
  reading ← each (λ p. reserve_task_input plan s.task.id p.path p.detail) s.inputs described
  each (λ p. reserve_task_output plan s.task.id p.path p.detail) s.outputs reading

unfoldable pub write_edges : String → GraphTaskSpec → Db → Result Db
write_edges plan s db = each (add_dep plan s.task.id) s.depends_on db

-- `writeGraphTasksOn`: every node, then every edge.
unfoldable pub write_graph_tasks : ℕ → String → List GraphTaskSpec → Db → Result Db
unfolding write_node write_edges
write_graph_tasks now plan specs db = do
  nodes ← each (write_node now plan) specs db
  each (write_edges plan) specs nodes

-- `CreatePlanGraph`
unfoldable pub create_plan_graph :
    ℕ → String → CreatePlanOpts → List GraphTaskSpec → Bool → Db → Result Db
create_plan_graph now id o specs activate db = do
  planned ← create_plan id o db
  written ← write_graph_tasks now id specs planned
  if activate then set_plan_status id active written else ok written

-- `MaterializePlanGraph`
unfoldable pub materialize_plan_graph : ℕ → String → List GraphTaskSpec → Db → Result Db
materialize_plan_graph now plan specs db = write_graph_tasks now plan specs db
