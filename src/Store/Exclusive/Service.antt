-- ===== src/Store/Exclusive/Service.antt =====
-- What the service's own statements do to the running tasks: internal/store/workers.go, reaper.go and
-- the blocks of task_metadata.go.
use radioactive_ralph.Prelude.{
  ℕ, ◌≡◌, refl, String, Bool, true, false, not, ◌&&◌, Bool-cases, List, any, inl, inr, arith,
  filterb, ltb,
}
use radioactive_ralph.Store.Schema.{
  Task, TaskStatus, pending, Db, Session, Worker, ok, is_running, update_where, blocked_capability,
  blocked_input, status_eq,
}
use radioactive_ralph.Store.Tasks.{unclaimed}
use radioactive_ralph.Store.Workers.{
  WorkerOpts, create_session, close_session, create_worker, set_worker_task, reclaim_worker,
  delete_workers, delete_sessions, is_cascaded, unname_workers, unname_sessions, is_held_by,
  is_worker, is_session,
}
use radioactive_ralph.Store.Reaper.{
  reclaim_stale, reclaim_tasks, delete_dead, is_reclaimable, reclaimed, is_dead_session,
  stale_cutoff, delete_cutoff,
}
use radioactive_ralph.Store.Blocks.{
  mark_metadata_blocked, clear_task_block, blocked_db, is_blockable, with_status, is_blocked_as,
}
use radioactive_ralph.Store.Blocks.Marks.{mark_metadata_blocked-ok}
use radioactive_ralph.Store.Exclusive.{Quiet, update-Quiet}
use radioactive_ralph.Store.Exclusive.Still.{Still, Still-refl, Still-trans, stopping-Still}

pub reclaim_worker-Still : (now : ℕ) (id : String) (db : Db) → Still db (reclaim_worker now id db).1
unfolding reclaim_worker
reclaim_worker-Still now id db = elim (Bool-cases (any (is_worker id) db.workers)) [
  | inl there ↦
      stopping-Still (is_held_by id) (unclaimed pending) db (reclaim_worker now id db).1 (λ t. refl)
        (ground (arith, there)) (ground (arith, there)) (ground (arith, there))
  | inr missing ↦ rw (reclaim_worker, missing) (Still-refl db)
]

unname-Still :
    (change : Task → Task) (tasks : List Task)
    → ((t : Task)
        → ((change t).plan_id ≡ t.plan_id)
          × ((change t).id ≡ t.id)
          × ((change t).status ≡ t.status))
    → Quiet tasks (update_where (λ t. true) change tasks)
unname-Still change tasks keeps =
    update-Quiet (λ t. true) change tasks
      (λ p i x hit h. let (a, b, c) = keeps x in ground (arith, a, b, c))

delete_workers-Still : (dead : Worker → Bool) (db : Db) → Still db (delete_workers dead db)
delete_workers-Still dead db = (
  refl,
  refl,
  unname-Still (unname_workers (filterb dead db.workers)) db.tasks (λ t. ground arith),
)

delete_sessions-Still : (gone : Session → Bool) (db : Db) → Still db (delete_sessions gone db)
delete_sessions-Still gone db =
    Still-trans db (delete_workers (is_cascaded gone db) db) (delete_sessions gone db)
      (delete_workers-Still (is_cascaded gone db) db)
      (
        refl,
        refl,
        unname-Still (unname_sessions (filterb gone db.sessions))
            (delete_workers (is_cascaded gone db) db).tasks (λ t. ground arith),
      )

pub close_session-Still : (id : String) (db : Db) → Still db (close_session id db)
unfolding close_session
close_session-Still id db = delete_sessions-Still (is_session id) db

reclaim_tasks-Still : (cutoff : ℕ) (db : Db) → Still db (reclaim_tasks cutoff db)
unfolding reclaim_tasks
reclaim_tasks-Still cutoff db =
    stopping-Still (is_reclaimable cutoff db) reclaimed db (reclaim_tasks cutoff db) (λ t. refl)
      refl refl refl

delete_dead-Still : (before cutoff : ℕ) (db : Db) → Still db (delete_dead before cutoff db)
unfolding delete_dead
delete_dead-Still before cutoff db =
    let thinned = delete_workers (λ w. ltb w.last_heartbeat before) db in
    Still-trans db thinned (delete_dead before cutoff db)
      (delete_workers-Still (λ w. ltb w.last_heartbeat before) db)
      (delete_sessions-Still (is_dead_session before cutoff thinned) thinned)

pub reclaim_stale-Still :
    (now stale_after : ℕ) (db : Db) → Still db (reclaim_stale now stale_after db).1
unfolding reclaim_stale
reclaim_stale-Still now stale_after db =
    let cutoff = stale_cutoff now stale_after in
    Still-trans db (reclaim_tasks cutoff db)
      (delete_dead (delete_cutoff now stale_after) cutoff (reclaim_tasks cutoff db))
      (reclaim_tasks-Still cutoff db)
      (delete_dead-Still (delete_cutoff now stale_after) cutoff (reclaim_tasks cutoff db))

-- A statement that leaves the tasks alone too.
untouched-Still :
    (db after : Db)
    → db.plans ≡ after.plans
    → db.outputs ≡ after.outputs
    → db.tasks ≡ after.tasks
    → Still db after
untouched-Still db after p o t = (p, o, λ n i h. rw t h)

blocked_db-Still :
    (plan id : String) (status : TaskStatus) (reason : String) (db after : Db)
    → is_running status ≡ false
    → (blocked_db plan id status reason db).plans ≡ after.plans
    → (blocked_db plan id status reason db).outputs ≡ after.outputs
    → (blocked_db plan id status reason db).tasks ≡ after.tasks
    → Still db after
blocked_db-Still plan id status reason db after stops =
    stopping-Still (is_blockable plan id) (with_status status) db after (λ t. stops)

pub mark_metadata_blocked-Still :
    (plan id : String) (status : TaskStatus) (reason : String) (changed : Bool) (db after : Db)
    → is_running status ≡ false
    → mark_metadata_blocked plan id status reason db ≡ ok (changed, after)
    → Still db after
mark_metadata_blocked-Still plan id status reason changed db after stops e =
    let (_, tasks, plans, outputs) =
      mark_metadata_blocked-ok plan id status reason changed db after e in
    blocked_db-Still plan id status reason db after stops plans outputs tasks

pub clear_task_block-Still :
    (plan id : String) (status : TaskStatus) (changed : Bool) (db after : Db)
    → clear_task_block plan id status db ≡ ok (changed, after)
    → Still db after
unfolding clear_task_block
clear_task_block-Still plan id status changed db after e =
    elim (Bool-cases
      (not (status_eq status blocked_capability) && not (status_eq status blocked_input))) [
        | inl other ↦ absurd (ground (arith, other))
        | inr clearable ↦ elim (Bool-cases (any (is_blocked_as plan id status) db.tasks)) [
          | inl hit ↦
              stopping-Still (is_blocked_as plan id status) (with_status pending) db after
                (λ t. refl) (ground (arith, clearable, hit)) (ground (arith, clearable, hit))
                (ground (arith, clearable, hit))
          | inr miss ↦
              untouched-Still db after (ground (arith, clearable, miss))
                (ground (arith, clearable, miss)) (ground (arith, clearable, miss))
        ]
      ]

pub create_session-Still :
    (now : ℕ) (id role : String) (db after : Db)
    → create_session now id role db ≡ ok after
    → Still db after
unfolding create_session
create_session-Still now id role db after e =
    untouched-Still db after (ground (arith, e)) (ground (arith, e)) (ground (arith, e))

pub create_worker-Still :
    (now : ℕ) (id : String) (o : WorkerOpts) (db after : Db)
    → create_worker now id o db ≡ ok after
    → Still db after
unfolding create_worker
create_worker-Still now id o db after e =
    untouched-Still db after (ground (arith, e)) (ground (arith, e)) (ground (arith, e))

pub set_worker_task-Still :
    (now : ℕ) (id plan task : String) (db after : Db)
    → set_worker_task now id plan task db ≡ ok after
    → Still db after
unfolding set_worker_task
set_worker_task-Still now id plan task db after e =
    untouched-Still db after (ground (arith, e)) (ground (arith, e)) (ground (arith, e))
