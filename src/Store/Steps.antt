-- ===== src/Store/Steps.antt =====
-- The statements of internal/store that the supervisor runs while plans are under way, as steps on
-- the database, and their sequences.
use radioactive_ralph.Prelude.{ℕ, ◌≡◌, String, Bool, List}
use radioactive_ralph.Store.Schema.{Task, TaskStatus, EventPayload, Db, WorkerStatus, ok}
use radioactive_ralph.Store.Tasks.{
  claim_task, claim_next_ready, mark_done, mark_failed, release_claim, mark_blocked, approve_task,
}
use radioactive_ralph.Store.Workers.{
  WorkerOpts, create_session, heartbeat_session, close_session, create_worker, set_worker_task,
  heartbeat_worker, heartbeat_worker_and_session, clear_worker_task, reclaim_worker,
}
use radioactive_ralph.Store.Reaper.{reclaim_stale}
use radioactive_ralph.Store.Blocks.{mark_blocked_capability, mark_blocked_input, clear_task_block}

-- One statement on the database. Each constructor is one operation, for the calls that succeed.
pub data Step : Db → Db → Type 0 where
  claim_next :
      (plan session worker : String) {t : Task} {db after : Db}
      → claim_next_ready plan session worker db ≡ ok (t, after)
      → Step db after
  claim_named :
      (plan id session worker : String) {t : Task} {db after : Db}
      → claim_task plan id session worker db ≡ ok (t, after)
      → Step db after
  complete :
      (plan id session evidence : String) {next : List Task} {db after : Db}
      → mark_done plan id session evidence db ≡ ok (next, after)
      → Step db after
  fail :
      (plan id session : String) (p : EventPayload) (max_retries : ℕ) {again : Bool} {db after : Db}
      → mark_failed plan id session p max_retries db ≡ ok (again, after)
      → Step db after
  release :
      (plan id session reason : String) {db after : Db}
      → release_claim plan id session reason db ≡ ok after
      → Step db after
  block :
      (plan id session : String) (p : EventPayload) {db after : Db}
      → mark_blocked plan id session p db ≡ ok after
      → Step db after
  approve : (plan id : String) {db : Db} → Step db (approve_task plan id db).2
  lack_capability :
      (plan id reason : String) {changed : Bool} {db after : Db}
      → mark_blocked_capability plan id reason db ≡ ok (changed, after)
      → Step db after
  lack_input :
      (plan id reason : String) {changed : Bool} {db after : Db}
      → mark_blocked_input plan id reason db ≡ ok (changed, after)
      → Step db after
  unblock :
      (plan id : String) (status : TaskStatus) {changed : Bool} {db after : Db}
      → clear_task_block plan id status db ≡ ok (changed, after)
      → Step db after
  open_session :
      (now : ℕ) (id role : String) {db after : Db}
      → create_session now id role db ≡ ok after
      → Step db after
  beat_session : (now : ℕ) (id : String) {db : Db} → Step db (heartbeat_session now id db)
  end_session : (id : String) {db : Db} → Step db (close_session id db)
  start_worker :
      (now : ℕ) (id : String) (o : WorkerOpts) {db after : Db}
      → create_worker now id o db ≡ ok after
      → Step db after
  assign :
      (now : ℕ) (id plan task : String) {db after : Db}
      → set_worker_task now id plan task db ≡ ok after
      → Step db after
  beat : (now : ℕ) (id : String) {db : Db} → Step db (heartbeat_worker now id db)
  beat_both : (now : ℕ) (id : String) {db : Db} → Step db (heartbeat_worker_and_session now id db)
  free_worker :
      (now : ℕ) (id : String) (status : WorkerStatus) {db : Db}
      → Step db (clear_worker_task now id status db)
  kill : (now : ℕ) (id : String) {db : Db} → Step db (reclaim_worker now id db).1
  reap : (now stale_after : ℕ) {db : Db} → Step db (reclaim_stale now stale_after db).1

pub data Run : Db → Db → Type 0 where
  stop : {db : Db} → Run db db
  then : {db mid after : Db} → Step db mid → Run mid after → Run db after
