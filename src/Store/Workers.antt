-- ===== src/Store/Workers.antt =====
-- internal/store/workers.go: the rows of sessions and workers, and the operator's kill of a worker.
-- `now` is the clock of the store, and a fresh id is an argument in place of `s.uuid()`.
pub mod Kill
use radioactive_ralph.Prelude.{
  ℕ, String, Bool, true, false, not, ◌&&◌, ◌||◌, none, List, [], ◌∷◌, ◌++◌, any, filterb,
  if◌then◌else◌, ◌==◌, text_eq, column_eq, null_if_empty,
}
use radioactive_ralph.Store.Schema.{
  pending, is_running, Task, Session, Worker, WorkerStatus, worker_running, terminated, Db,
  required, constraint, Result, ok, err, is_task, update_where,
}
use radioactive_ralph.Store.Tasks.{is_empty, unclaimed}

abbrev pub is_session : String → Session → Bool
is_session id s = text_eq s.id id

abbrev pub is_worker : String → Worker → Bool
is_worker id w = text_eq w.id id

-- ON DELETE SET NULL of `tasks.claimed_by_worker_id`, for the worker rows that go.
abbrev pub unname_workers : List Worker → Task → Task
unname_workers gone t =
    if any (λ w. column_eq t.claimed_by_worker_id w.id) gone
    then record t { claimed_by_worker_id = none }
    else t

abbrev pub unname_sessions : List Session → Task → Task
unname_sessions gone t =
    if any (λ s. column_eq t.claimed_by_session s.id) gone
    then record t { claimed_by_session = none }
    else t

-- DELETE FROM workers WHERE dead, with its cascade.
abbrev pub delete_workers : (Worker → Bool) → Db → Db
delete_workers dead db = record db {
  workers = filterb (λ w. not (dead w)) db.workers;
  tasks = update_where (λ t. true) (unname_workers (filterb dead db.workers)) db.tasks;
}

-- The worker belongs to a session that goes.
abbrev pub is_cascaded : (Session → Bool) → Db → Worker → Bool
is_cascaded gone db w = any (is_session w.session_id) (filterb gone db.sessions)

-- DELETE FROM sessions WHERE gone: its workers go with it, and claims lose its name.
abbrev pub delete_sessions : (Session → Bool) → Db → Db
delete_sessions gone db =
    let cleared = delete_workers (is_cascaded gone db) db in
    record cleared {
      sessions = filterb (λ s. not (gone s)) db.sessions;
      tasks = update_where (λ t. true) (unname_sessions (filterb gone db.sessions)) cleared.tasks;
    }

-- `CreateSession`, with the id that was passed or generated.
unfoldable pub create_session : ℕ → String → String → Db → Result Db
create_session now id role db =
    if is_empty role
    then err required
    else (if any (is_session id) db.sessions
        then err constraint
        else ok (record db {
          sessions = db.sessions ++ record { id = id; role = role; last_heartbeat = now } ∷ [];
        }))

unfoldable pub heartbeat_session : ℕ → String → Db → Db
heartbeat_session now id db = record db {
  sessions = update_where (is_session id) (λ s. record s { last_heartbeat = now }) db.sessions;
}

unfoldable pub close_session : String → Db → Db
close_session id db = delete_sessions (is_session id) db

pub record WorkerOpts : Type 0 where
  pub session_id : String
  pub provider : String
  pub native_fanout : Bool
  pub subprocess_pid : ℕ
  pub subprocess_start_time : String

-- `CreateWorker`
unfoldable pub create_worker : ℕ → String → WorkerOpts → Db → Result Db
create_worker now id o db =
    if is_empty o.session_id
      || is_empty o.provider
      || o.subprocess_pid == 0
      || is_empty o.subprocess_start_time
    then err required
    else (if any (is_worker id) db.workers || not (any (is_session o.session_id) db.sessions)
        then err constraint
        else ok (record db {
          workers =
              db.workers
              ++ record {
                id = id;
                session_id = o.session_id;
                provider = o.provider;
                native_fanout = o.native_fanout;
                subprocess_pid = o.subprocess_pid;
                subprocess_start_time = o.subprocess_start_time;
                current_plan_id = none;
                current_task_id = none;
                last_heartbeat = now;
                status = worker_running;
              }
                ∷ [];
        }))

-- `SetWorkerTask`: a plan and a task that are both given must name a task row.
unfoldable pub set_worker_task : ℕ → String → String → String → Db → Result Db
set_worker_task now id plan task db =
    let after = record db {
      workers =
          update_where (is_worker id)
            (λ w. record w {
              current_plan_id = null_if_empty plan;
              current_task_id = null_if_empty task;
              status = worker_running;
              last_heartbeat = now;
            })
            db.workers;
    } in
    if is_empty plan
      || is_empty task
      || any (is_task plan task) db.tasks
      || not (any (is_worker id) db.workers)
    then ok after
    else err constraint

abbrev pub beat_worker : ℕ → String → Db → Db
beat_worker now id db = record db {
  workers = update_where (is_worker id) (λ w. record w { last_heartbeat = now }) db.workers;
}

unfoldable pub heartbeat_worker : ℕ → String → Db → Db
heartbeat_worker now id db = beat_worker now id db

-- `HeartbeatWorkerAndSession`
unfoldable pub heartbeat_worker_and_session : ℕ → String → Db → Db
heartbeat_worker_and_session now id db =
    let beaten = beat_worker now id db in
    record beaten {
      sessions =
          update_where (λ s. any (λ w. is_worker id w && text_eq w.session_id s.id) beaten.workers)
            (λ s. record s { last_heartbeat = now }) beaten.sessions;
    }

-- `ClearWorkerTask`, with the status after its default.
unfoldable pub clear_worker_task : ℕ → String → WorkerStatus → Db → Db
clear_worker_task now id status db = record db {
  workers =
      update_where (is_worker id)
        (λ w. record w {
          current_plan_id = none;
          current_task_id = none;
          status = status;
          last_heartbeat = now;
        })
        db.workers;
}

abbrev pub is_held_by : String → Task → Bool
is_held_by worker t = column_eq t.claimed_by_worker_id worker && is_running t.status

-- `ReclaimWorker`: whether the worker exists, and the database after the kill.
unfoldable pub reclaim_worker : ℕ → String → Db → Bool × Db
unfolding clear_worker_task
reclaim_worker now id db =
    if any (is_worker id) db.workers
    then (
      true,
      clear_worker_task now id terminated
          (record db { tasks = update_where (is_held_by id) (unclaimed pending) db.tasks }),
    )
    else (false, db)
