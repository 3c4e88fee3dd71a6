-- ===== src/Store/Exclusive/Histories.antt =====
-- Exclusive outputs along every history of internal/store: the running supervisor's statements, and the
-- plans and tasks that come and go meanwhile.
use radioactive_ralph.Prelude.{
  ℕ, ◌≡◌, sym, ap, ◌∙◌, subst, String, Bool, true, List, [], ◌∷◌, any, all, arith, ◌⊎◌, inl, inr,
}
use radioactive_ralph.Store.Schema.{PlanRow, PlanStatus, Db, Reservation, ok}
use radioactive_ralph.Store.Tasks.{CreateTaskOpts, create_task, add_dep}
use radioactive_ralph.Store.Plans.{
  CreatePlanOpts, GraphTaskSpec, is_plan, each, write_node, write_graph_tasks, create_plan_graph,
  materialize_plan_graph, set_plan_status, delete_plan,
}
use radioactive_ralph.Store.Plans.Graph.{bind-ok, write_graph_tasks-ok}
use radioactive_ralph.Store.Steps.{Step}
use radioactive_ralph.Store.Exclusive.Runs.{Claim, claim, Step-effect, effect-Exclusive}
use radioactive_ralph.Store.Exclusive.Still.{Still}
use radioactive_ralph.Store.Exclusive.Plans.{has_plan, is_planned, Sound, create_task-Sound}
use radioactive_ralph.Store.Exclusive.Graphs.{write_graph_tasks-Sound, add_dep-Sound}
use radioactive_ralph.Store.Exclusive.Status.{create_plan_graph-Sound, set_plan_status-Sound}
use radioactive_ralph.Store.Exclusive.Deletion.{delete_plan-Sound}

-- One transaction of the store that succeeds.
pub data Change : Db → Db → Type 0 where
  by_step : {db after : Db} → Step db after → Change db after
  by_plan :
      (now : ℕ) (id : String) (o : CreatePlanOpts) (specs : List GraphTaskSpec) (activate : Bool)
      {db after : Db}
      → create_plan_graph now id o specs activate db ≡ ok after
      → Change db after
  by_graph :
      (now : ℕ) (plan : String) (specs : List GraphTaskSpec) {db after : Db}
      → materialize_plan_graph now plan specs db ≡ ok after
      → Change db after
  by_task :
      (now : ℕ) (o : CreateTaskOpts) {db after : Db}
      → create_task now o db ≡ ok after
      → Change db after
  by_dep :
      (plan task dep : String) {db after : Db}
      → add_dep plan task dep db ≡ ok after
      → Change db after
  by_status :
      (id : String) (status : PlanStatus) {db after : Db}
      → set_plan_status id status db ≡ ok after
      → Change db after
  by_deletion : (id : String) {db after : Db} → delete_plan id db ≡ ok after → Change db after

pub data History : Db → Db → Type 0 where
  start : {db : Db} → History db db
  next : {db mid after : Db} → Change db mid → History mid after → History db after

create_task-plan :
    (now : ℕ) (o : CreateTaskOpts) (db after : Db)
    → create_task now o db ≡ ok after
    → has_plan o.plan_id db ≡ true
unfolding create_task
create_task-plan now o db after e = ground (arith, e)

write_node-plan :
    (now : ℕ) (plan : String) (s : GraphTaskSpec) (db after : Db)
    → write_node now plan s db ≡ ok after
    → has_plan plan db ≡ true
unfolding write_node
write_node-plan now plan s db after e =
    let (created, e_1, _) = bind-ok _ _ after e in
    create_task-plan now (record (s.task) { plan_id = plan }) db created e_1

materialize-Sound :
    (now : ℕ) (plan : String) (specs : List GraphTaskSpec) (db after : Db)
    → write_graph_tasks now plan specs db ≡ ok after
    → Sound db
    → Sound after
unfolding write_graph_tasks
materialize-Sound now plan [] db after e sound =
    let same : db ≡ after = ground (arith, e) in subst Sound {y = after} same sound
materialize-Sound now plan (s ∷ ss) db after e sound =
    let (nodes, e_1, _) = write_graph_tasks-ok now plan (s ∷ ss) db after e in
    let (mid, e_2, _) =
      bind-ok (write_node now plan s db) (each (write_node now plan) ss) nodes e_1 in
    write_graph_tasks-Sound now plan (s ∷ ss) db after e sound
      (write_node-plan now plan s db mid e_2)

same_rows-planned :
    (db after : Db)
    → db.plans ≡ after.plans
    → db.outputs ≡ after.outputs
    → is_planned db ≡ true
    → is_planned after ≡ true
same_rows-planned db after p o planned =
    sym (
      ap (λ (x : List PlanRow). all (λ (r : Reservation). any (is_plan r.plan_id) x) after.outputs)
        p)
    ∙ (sym (ap (all (λ (r : Reservation). has_plan r.plan_id db)) o) ∙ planned)

effect-planned :
    (db after : Db)
    → Still db after ⊎ Claim db after
    → is_planned db ≡ true
    → is_planned after ≡ true
effect-planned db after (inl (plans, outputs, quiet)) planned =
    same_rows-planned db after plans outputs planned
effect-planned db after (inr (claim plan id session worker free same)) planned =
    same_rows-planned db after (ap (λ (d : Db). d.plans) (sym same))
      (ap (λ (d : Db). d.outputs) (sym same)) planned

Change-Sound : (db after : Db) → Change db after → Sound db → Sound after
unfolding materialize_plan_graph
Change-Sound db after (Change.by_step s) (safe, planned) = (
  effect-Exclusive db after (Step-effect s) safe,
  effect-planned db after (Step-effect s) planned,
)
Change-Sound db after (Change.by_plan now id o specs activate e) sound =
    create_plan_graph-Sound now id o specs activate db after e sound
Change-Sound db after (Change.by_graph now plan specs e) sound =
    materialize-Sound now plan specs db after e sound
Change-Sound db after (Change.by_task now o e) sound = (create_task-Sound now o db after e sound).0
Change-Sound db after (Change.by_dep plan task dep e) sound =
    add_dep-Sound plan task dep db after e sound
Change-Sound db after (Change.by_status id status e) sound =
    set_plan_status-Sound id status db after e sound
Change-Sound db after (Change.by_deletion id e) sound = delete_plan-Sound id db after e sound

-- Whatever sequence of claims, reports, approvals, blocks, kills, reaps, session and worker calls, new
-- plans and graphs, new tasks and edges, status changes and deletions of plans runs, two running tasks
-- of one project never hold one output path, and every reservation is of a plan with a row, if both
-- held at the start.
pub History-Sound : (db after : Db) → History db after → Sound db → Sound after
History-Sound db after History.start sound = sound
History-Sound db after (History.next {mid} c h) sound =
    History-Sound mid after h (Change-Sound db mid c sound)
