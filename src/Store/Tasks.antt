-- ===== src/Store/Tasks.antt =====
-- internal/store/tasks.go and claim.go: the life of a task. Each function is one transaction: it
-- returns the database after the commit, and an error leaves the database as it was.
pub mod Reports
pub mod Owner
pub mod Claims
pub mod Next
pub mod Handover
use radioactive_ralph.Prelude.{
  ℕ, ◌+◌, String, Bool, true, false, not, ◌&&◌, ◌||◌, Option, none, some, List, [], ◌∷◌, ◌++◌, any,
  find?, is_nil, if◌then◌else◌, leb, text_eq, null_if_empty,
}
use radioactive_ralph.Store.Schema.{
  TaskStatus, pending, ready, ready_pending_approval, blocked, running, done, failed, is_claimable,
  status_eq, Task, Dep, EventPayload, empty_payload, Content, payload, raw, Event, Db, required,
  duplicate_task, self_dep, would_cycle, constraint, no_ready_task, output_reserved,
  not_owned_running, Result, ok, err, ◌>>=◌, is_task, update_where, log,
}
use radioactive_ralph.Store.Cycle.{would_create_cycle}
use radioactive_ralph.Store.Queries.{
  has_open_dep, ready_tasks, output_reservation_conflict, next_ready, is_owned, get_task,
}

pub record CreateTaskOpts : Type 0 where
  pub plan_id : String
  pub id : String
  pub description : String
  pub parallel_group : Option ℕ
  pub sequence_ordinal : Option ℕ
  pub acceptance_json : String
  pub parent_task_id : String
  pub requires_approval : Bool

abbrev pub is_empty : String → Bool
is_empty s = text_eq s ""

abbrev pub new_task : ℕ → CreateTaskOpts → Task
new_task now o = record {
  id = o.id;
  plan_id = o.plan_id;
  description = o.description;
  status = if o.requires_approval then ready_pending_approval else pending;
  parallel_group = o.parallel_group;
  sequence_ordinal = o.sequence_ordinal;
  acceptance_json = null_if_empty o.acceptance_json;
  claimed_by_session = none;
  claimed_by_worker_id = none;
  retry_count = 0;
  reclaim_count = 0;
  parent_task_id = null_if_empty o.parent_task_id;
  failure_category = none;
  created_at = now;
}

-- The foreign keys of a new task: its plan, and its parent if it names one.
abbrev pub has_parents : CreateTaskOpts → Db → Bool
has_parents o db =
    any (λ p. text_eq p.id o.plan_id) db.plans
    && (is_empty o.parent_task_id
        || text_eq o.parent_task_id o.id
        || any (is_task o.plan_id o.parent_task_id) db.tasks)

-- `createTaskOn`; `now` is CURRENT_TIMESTAMP.
unfoldable pub create_task : ℕ → CreateTaskOpts → Db → Result Db
create_task now o db =
    if is_empty o.plan_id || is_empty o.id || is_empty o.description
    then err required
    else (if any (is_task o.plan_id o.id) db.tasks
        then err duplicate_task
        else (if has_parents o db
            then ok (record db { tasks = db.tasks ++ new_task now o ∷ [] })
            else err constraint))

abbrev pub is_dep : String → String → String → Dep → Bool
is_dep plan task dep d =
    text_eq d.plan_id plan && text_eq d.task_id task && text_eq d.depends_on dep

-- `addDepOn`
unfoldable pub add_dep : String → String → String → Db → Result Db
add_dep plan task dep db =
    if text_eq task dep
    then err self_dep
    else (if would_create_cycle db.deps plan task dep
        then err would_cycle
        else (if any (is_task plan task) db.tasks
              && any (is_task plan dep) db.tasks
              && not (any (is_dep plan task dep) db.deps)
            then ok (record db {
              deps = db.deps ++ record { plan_id = plan; task_id = task; depends_on = dep } ∷ [];
            })
            else err constraint))

abbrev pub worker_event : String → String → String → String → Content → Event
worker_event plan id kind session content = record {
  plan_id = plan;
  task_id = id;
  kind = kind;
  actor = some session;
  stream = "worker";
  content = content;
}

abbrev pub is_claimable_task : String → String → Task → Bool
is_claimable_task plan id t = is_task plan id t && is_claimable t.status

abbrev pub claimed_by : String → String → Task → Task
claimed_by session worker t = record t {
  status = running;
  claimed_by_session = some session;
  claimed_by_worker_id = some worker;
}

abbrev pub claim_db : String → String → String → String → Db → Db
claim_db plan id session worker db =
    log (worker_event plan id "task.claimed" session (payload empty_payload)) (record db {
      tasks = update_where (is_claimable_task plan id) (claimed_by session worker) db.tasks;
    })

-- The UPDATE, the event and the commit of both claims, and the read after it. The claim's
-- session and worker are foreign keys.
unfoldable pub claim_row : String → String → String → String → Db → Result (Task × Db)
unfolding get_task
claim_row plan id session worker db =
    if any (is_claimable_task plan id) db.tasks
    then (if any (λ s. text_eq s.id session) db.sessions
          && any (λ w. text_eq w.id worker) db.workers
        then (do
          t ← get_task plan id (claim_db plan id session worker db)
          ok (t, claim_db plan id session worker db))
        else err constraint)
    else err no_ready_task

-- `ClaimNextReady`
unfoldable pub claim_next_ready : String → String → String → Db → Result (Task × Db)
claim_next_ready plan session worker db = elim (next_ready plan db) [
  | none ↦ err no_ready_task
  | some t ↦ claim_row plan t.id session worker db
]

-- The SELECT of `claimTaskOnce`.
abbrev pub is_named_ready : Db → String → String → Task → Bool
is_named_ready db plan id t = is_claimable_task plan id t && not (has_open_dep db t)

-- `claimTaskOnce`
unfoldable pub claim_task : String → String → String → String → Db → Result (Task × Db)
claim_task plan id session worker db =
    if any (is_named_ready db plan id) db.tasks
    then elim (output_reservation_conflict db plan id) [
      | some path ↦ err (output_reserved path)
      | none ↦ claim_row plan id session worker db
    ]
    else err no_ready_task

abbrev pub unclaimed : TaskStatus → Task → Task
unclaimed status t = record t {
  status = status;
  claimed_by_session = none;
  claimed_by_worker_id = none;
}

-- What a report of the owner does: `change` on the owned row, and one event.
abbrev pub report_db : String → String → String → (Task → Task) → Event → Db → Db
report_db plan id session change event db =
    log event (record db { tasks = update_where (is_owned plan id session) change db.tasks })

-- `MarkDone`, with the ready tasks after the commit.
unfoldable pub mark_done : String → String → String → String → Db → Result (List Task × Db)
unfolding ready_tasks
mark_done plan id session evidence db =
    let after =
      report_db plan id session (unclaimed done)
        (worker_event plan id "worker.completed" session (raw evidence)) db in
    if any (is_owned plan id session) db.tasks
    then ok (ready_tasks plan after, after)
    else err not_owned_running

abbrev pub requeued : Task → Task
requeued t = record t {
  status = pending;
  retry_count = t.retry_count + 1;
  claimed_by_session = none;
  claimed_by_worker_id = none;
  failure_category = none;
}

abbrev pub failed_terminally : String → Task → Task
failed_terminally category t = record t {
  status = failed;
  claimed_by_session = none;
  claimed_by_worker_id = none;
  failure_category = null_if_empty category;
}

-- `MarkFailedWithPayload`: the result tells whether the task was queued again.
unfoldable pub mark_failed : String → String → String → EventPayload → ℕ → Db → Result (Bool × Db)
mark_failed plan id session p max_retries db = elim (find? (is_owned plan id session) db.tasks) [
  | none ↦ err not_owned_running
  | some t ↦
      if leb (t.retry_count + 1) max_retries
      then ok (
        true,
        report_db plan id session requeued (worker_event plan id "task.failed" session (payload p))
            db,
      )
      else ok (
        false,
        report_db plan id session (failed_terminally p.failure_category)
            (worker_event plan id "task.failed_terminal" session (payload p)) db,
      )
]

abbrev pub release_event : String → String → String → String → Event
release_event plan id session reason = record {
  plan_id = plan;
  task_id = id;
  kind = "task.released";
  actor = some session;
  stream = "orch";
  content = payload (record empty_payload { reason = reason });
}

-- `ReleaseClaim`. Its update and the insert of its event are two statements, taken here as one.
unfoldable pub release_claim : String → String → String → String → Db → Result Db
release_claim plan id session reason db =
    if any (is_owned plan id session) db.tasks
    then ok
        (report_db plan id session (unclaimed pending) (release_event plan id session reason) db)
    else err not_owned_running

abbrev pub block_event_kind : EventPayload → String
block_event_kind p = if is_nil p.needs_context then "task.blocked" else "task.context_requested"

-- `MarkBlocked`
unfoldable pub mark_blocked : String → String → String → EventPayload → Db → Result Db
mark_blocked plan id session p db =
    if any (is_owned plan id session) db.tasks
    then ok (
        report_db plan id session (unclaimed blocked)
          (worker_event plan id (block_event_kind p) session (payload p)) db)
    else err not_owned_running

abbrev pub awaits_approval : String → String → Task → Bool
awaits_approval plan id t = is_task plan id t && status_eq t.status ready_pending_approval

abbrev pub approved : Task → Task
approved t = record t { status = ready }

-- `ApproveTask`: whether the task exists, and whether this call changed it.
unfoldable pub approve_task : String → String → Db → Bool × Bool × Db
approve_task plan id db = elim (find? (is_task plan id) db.tasks) [
  | none ↦ (false, false, db)
  | some t ↦
      if status_eq t.status ready_pending_approval
      then (
        true,
        true,
        record db { tasks = update_where (awaits_approval plan id) approved db.tasks },
      )
      else (true, false, db)
]
