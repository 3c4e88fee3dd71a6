-- ===== src/Store/Reaper.antt =====
-- internal/store/reaper.go: `ReclaimStale`.
pub mod Liveness
pub mod Orphans
use radioactive_ralph.Prelude.{
  ℕ, ◌+◌, ◌-◌, ◌*◌, String, Bool, not, ◌&&◌, ◌||◌, none, ◌++◌, map, any, is_none, filterb, count,
  if◌then◌else◌, ltb, leb, text_eq, column_eq,
}
use radioactive_ralph.Store.Schema.{
  pending, is_running, Task, Session, reclaim, Event, Db, update_where,
}
use radioactive_ralph.Store.Workers.{delete_workers, delete_sessions}

abbrev pub stale_session_multiplier : ℕ
stale_session_multiplier = 3

-- A heartbeat before time 0 does not exist, so the subtraction may stop there.
abbrev pub stale_cutoff : ℕ → ℕ → ℕ
stale_cutoff now stale_after = now - stale_after

abbrev pub delete_cutoff : ℕ → ℕ → ℕ
delete_cutoff now stale_after = now - stale_after * stale_session_multiplier

-- The WHERE clause of step 1: claimed by a stale worker, or by none.
abbrev pub is_reclaimable : ℕ → Db → Task → Bool
is_reclaimable cutoff db t =
    is_running t.status
    && (is_none t.claimed_by_worker_id
        || any (λ w. ltb w.last_heartbeat cutoff && column_eq t.claimed_by_worker_id w.id)
            db.workers)

abbrev pub reason_of : Task → String
reason_of t = if is_none t.claimed_by_worker_id then "orphaned_claim" else "stale_heartbeat"

abbrev pub reclaimed : Task → Task
reclaimed t = record t {
  status = pending;
  reclaim_count = t.reclaim_count + 1;
  claimed_by_session = none;
  claimed_by_worker_id = none;
}

abbrev pub reclaim_event : ℕ → Task → Event
reclaim_event concurrent t = record {
  plan_id = t.plan_id;
  task_id = t.id;
  kind = "task.reclaimed";
  actor = none;
  stream = "service";
  content = reclaim (reason_of t) (t.reclaim_count + 1) concurrent;
}

-- Step 1: the tasks are queued again, with an event for each.
unfoldable pub reclaim_tasks : ℕ → Db → Db
reclaim_tasks cutoff db =
    let running = count (λ (t : Task). is_running t.status) db.tasks in
    record db {
      tasks = update_where (is_reclaimable cutoff db) reclaimed db.tasks;
      events =
          map (reclaim_event running) (filterb (is_reclaimable cutoff db) db.tasks) ++ db.events;
    }

abbrev pub is_dead_session : ℕ → ℕ → Db → Session → Bool
is_dead_session delete_before cutoff db s =
    ltb s.last_heartbeat delete_before
    && not (any (λ w. leb cutoff w.last_heartbeat && text_eq w.session_id s.id) db.workers)

-- Step 2: dead workers go, then the dead sessions that own no live worker.
unfoldable pub delete_dead : ℕ → ℕ → Db → Db
delete_dead delete_before cutoff db =
    let thinned = delete_workers (λ w. ltb w.last_heartbeat delete_before) db in
    delete_sessions (is_dead_session delete_before cutoff thinned) thinned

-- The result with the number of tasks that were reclaimed.
unfoldable pub reclaim_stale : ℕ → ℕ → Db → ℕ × Db
unfolding reclaim_tasks delete_dead
reclaim_stale now stale_after db =
    let cutoff = stale_cutoff now stale_after in
    (
      count (is_reclaimable cutoff db) db.tasks,
      delete_dead (delete_cutoff now stale_after) cutoff (reclaim_tasks cutoff db),
    )
