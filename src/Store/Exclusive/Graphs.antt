-- ===== src/Store/Exclusive/Graphs.antt =====
-- Exclusive outputs and the write of a plan's graph, internal/store/plan_graph.go.
use radioactive_ralph.Prelude.{
  ℕ, ◌≡◌, sym, ap, ◌∙◌, subst, String, true, false, List, all, any, arith,
}
use radioactive_ralph.Store.Schema.{PlanRow, Reservation, Db, ok}
use radioactive_ralph.Store.Tasks.{add_dep}
use radioactive_ralph.Store.Plans.{
  is_plan, reserve_task_output, reserve_task_input, put_task_metadata, GraphTaskSpec,
  write_metadata, write_node, write_edges, write_graph_tasks,
}
use radioactive_ralph.Store.Plans.Graph.{bind-ok, each-keeps, write_graph_tasks-ok}
use radioactive_ralph.Store.Exclusive.{Quiet-Exclusive, runs}
use radioactive_ralph.Store.Exclusive.Plans.{
  has_plan, Sound, create_task-Sound, Reserving, reserve_task_output-Reserving,
}

-- A statement that leaves plans, tasks and output reservations alone.
abbrev pub Apart : Db → Db → Type 0
Apart db after = (db.plans ≡ after.plans) × (db.tasks ≡ after.tasks) × (db.outputs ≡ after.outputs)

pub Apart-Sound : (db after : Db) → Apart db after → Sound db → Sound after
Apart-Sound db after (p, t, o) (safe, planned) = (
  Quiet-Exclusive db after p o (λ n i h. rw t h) safe,
  sym (
        ap
          (λ (x : List PlanRow). all (λ (r : Reservation). any (is_plan r.plan_id) x) after.outputs)
          p)
      ∙ (sym (ap (all (λ (r : Reservation). has_plan r.plan_id db)) o) ∙ planned),
)

keep_plan :
    (plan : String) (db after : Db)
    → db.plans ≡ after.plans
    → has_plan plan db ≡ true
    → has_plan plan after ≡ true
keep_plan plan db after p there =
    subst (λ ps. any (is_plan plan) ps ≡ true) {y = after.plans} p there

Apart-Reserving :
    (plan id : String) (db after : Db)
    → Apart db after
    → Reserving plan id db
    → Reserving plan id after
Apart-Reserving plan id db after (p, t, o) (sound, idle, there) = (
  Apart-Sound db after (p, t, o) sound,
  subst (λ ts. runs plan id ts ≡ false) {y = after.tasks} t idle,
  keep_plan plan db after p there,
)

reserve_task_input-Apart :
    (plan id path sha256 : String) (db after : Db)
    → reserve_task_input plan id path sha256 db ≡ ok after
    → Apart db after
unfolding reserve_task_input
reserve_task_input-Apart plan id path sha256 db after e =
    (ground (arith, e), ground (arith, e), ground (arith, e))

write_metadata-Apart :
    (plan : String) (s : GraphTaskSpec) (db after : Db)
    → write_metadata plan s db ≡ ok after
    → Apart db after
unfolding put_task_metadata
write_metadata-Apart plan s db after e = (ground (arith, e), ground (arith, e), ground (arith, e))

add_dep-Apart :
    (plan task dep : String) (db after : Db) → add_dep plan task dep db ≡ ok after → Apart db after
unfolding add_dep
add_dep-Apart plan task dep db after e = (ground (arith, e), ground (arith, e), ground (arith, e))

abbrev Growing : String → Db → Type 0
Growing plan db = Sound db × (has_plan plan db ≡ true)

write_node-Growing :
    (now : ℕ) (plan : String) (s : GraphTaskSpec) (db after : Db)
    → write_node now plan s db ≡ ok after
    → Growing plan db
    → Growing plan after
unfolding write_node
write_node-Growing now plan s db after e (sound, there) =
    let (created, e_1, rest_1) = bind-ok _ _ after e in
    let (described, e_2, rest_2) = bind-ok _ _ after rest_1 in
    let (reading, e_3, e_4) = bind-ok _ _ after rest_2 in
    let (sound_1, idle, plans) =
      create_task-Sound now (record (s.task) { plan_id = plan }) db created e_1 sound in
    let start : Reserving plan s.task.id created =
      (sound_1, idle, keep_plan plan db created plans there) in
    let next =
      Apart-Reserving plan s.task.id created described
        (write_metadata-Apart plan s created described e_2) start in
    let inputs =
      each-keeps (Reserving plan s.task.id) (λ p. reserve_task_input plan s.task.id p.path p.detail)
        s.inputs described reading
        (λ p a b f.
          Apart-Reserving plan s.task.id a b
            (reserve_task_input-Apart plan s.task.id p.path p.detail a b f))
        e_3 next in
    let (sound_2, _, there_2) =
      each-keeps (Reserving plan s.task.id)
        (λ p. reserve_task_output plan s.task.id p.path p.detail) s.outputs reading after
        (λ p a b f. reserve_task_output-Reserving plan s.task.id p.path p.detail a b f) e_4
        inputs in
    (sound_2, there_2)

pub add_dep-Sound :
    (plan task dep : String) (db after : Db)
    → add_dep plan task dep db ≡ ok after
    → Sound db
    → Sound after
add_dep-Sound plan task dep db after e =
    Apart-Sound db after (add_dep-Apart plan task dep db after e)

write_edges-Sound :
    (plan : String) (s : GraphTaskSpec) (db after : Db)
    → write_edges plan s db ≡ ok after
    → Sound db
    → Sound after
unfolding write_edges
write_edges-Sound plan s db after =
    each-keeps Sound (add_dep plan s.task.id) s.depends_on db after
      (λ dep a b. add_dep-Sound plan s.task.id dep a b)

pub write_graph_tasks-Sound :
    (now : ℕ) (plan : String) (specs : List GraphTaskSpec) (db after : Db)
    → write_graph_tasks now plan specs db ≡ ok after
    → Sound db
    → has_plan plan db ≡ true
    → Sound after
write_graph_tasks-Sound now plan specs db after e sound there =
    let (nodes, e_1, e_2) = write_graph_tasks-ok now plan specs db after e in
    let (sound_1, _) =
      each-keeps (Growing plan) (write_node now plan) specs db nodes
        (λ s a b. write_node-Growing now plan s a b) e_1 (sound, there) in
    each-keeps Sound (write_edges plan) specs nodes after (λ s a b. write_edges-Sound plan s a b)
      e_2 sound_1
