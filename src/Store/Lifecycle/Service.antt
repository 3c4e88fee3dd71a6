-- ===== src/Store/Lifecycle/Service.antt =====
-- What the service's own statements do to the rows of the task table: blocks, kills, reaps and the
-- end of a session.
use radioactive_ralph.Prelude.{
  ℕ, ◌≡◌, refl, ◌∙◌, subst, String, Bool, true, not, ◌&&◌, &&_true, Bool-cases, any, inl, inr,
  arith, filterb, ltb,
}
use radioactive_ralph.Store.Schema.{
  Task, TaskStatus, pending, Db, Session, Worker, ok, is_running, blocked_capability, blocked_input,
  status_eq,
}
use radioactive_ralph.Store.Tasks.{unclaimed}
use radioactive_ralph.Store.Workers.{
  close_session, reclaim_worker, create_session, WorkerOpts, create_worker, set_worker_task,
  delete_workers, delete_sessions, is_cascaded, unname_workers, unname_sessions, is_held_by,
  is_worker, is_session,
}
use radioactive_ralph.Store.Reaper.{
  reclaim_stale, reclaim_tasks, delete_dead, is_reclaimable, reclaimed, is_dead_session,
  stale_cutoff, delete_cutoff,
}
use radioactive_ralph.Store.Blocks.{
  mark_blocked_capability, mark_blocked_input, clear_task_block, blocked_db, is_blockable,
  with_status, is_blocked_as,
}
use radioactive_ralph.Store.Blocks.Marks.{mark_metadata_blocked-ok}
use radioactive_ralph.Store.Lifecycle.Effects.{
  Follows, Follows-refl, update-Follows, same_tasks-Follows,
}
use radioactive_ralph.Store.Lifecycle.{
  Move, lacks_capability, lacks_input, unblocks, kills, reaps, rests, Row, SameStatus, Pointwise,
  Pointwise-trans, update-Pointwise, may_move,
}

Row-SameStatus : (m : Move) (t u v : Task) → Row m t u → SameStatus u v → Row m t v
Row-SameStatus m t u v (a, b, c, d) (a', b', c', d') =
    (a ∙ a', b ∙ b', c ∙ c', subst (λ s. may_move m t s ≡ true) {y = v.status} d' d)

SameStatus-trans : (t u v : Task) → SameStatus t u → SameStatus u v → SameStatus t v
SameStatus-trans t u v (a, b, c, d) (a', b', c', d') = (a ∙ a', b ∙ b', c ∙ c', d ∙ d')

abbrev Keeps : Db → Db → Type 0
Keeps db after = Pointwise SameStatus db.tasks after.tasks

delete_workers-Keeps : (dead : Worker → Bool) (db : Db) → Keeps db (delete_workers dead db)
delete_workers-Keeps dead db =
    update-Pointwise (λ t. true) (unname_workers (filterb dead db.workers))
      (λ t. (refl, refl, refl, refl)) (λ t hit. ground arith) db.tasks

delete_sessions-Keeps : (gone : Session → Bool) (db : Db) → Keeps db (delete_sessions gone db)
delete_sessions-Keeps gone db =
    Pointwise-trans SameStatus-trans (delete_workers-Keeps (is_cascaded gone db) db) (
      update-Pointwise (λ t. true) (unname_sessions (filterb gone db.sessions))
        (λ t. (refl, refl, refl, refl)) (λ t hit. ground arith)
        (delete_workers (is_cascaded gone db) db).tasks)

pub close_session-Follows : (id : String) (db : Db) → Follows rests db (close_session id db)
unfolding close_session
close_session-Follows id db =
    Pointwise-trans (Row-SameStatus rests) (Follows-refl rests db)
      (delete_sessions-Keeps (is_session id) db)

delete_dead-Keeps : (before cutoff : ℕ) (db : Db) → Keeps db (delete_dead before cutoff db)
unfolding delete_dead
delete_dead-Keeps before cutoff db =
    let thinned = delete_workers (λ w. ltb w.last_heartbeat before) db in
    Pointwise-trans SameStatus-trans (delete_workers-Keeps (λ w. ltb w.last_heartbeat before) db)
      (delete_sessions-Keeps (is_dead_session before cutoff thinned) thinned)

reclaim_tasks-Follows : (cutoff : ℕ) (db : Db) → Follows reaps db (reclaim_tasks cutoff db)
unfolding reclaim_tasks
reclaim_tasks-Follows cutoff db =
    update-Follows reaps (is_reclaimable cutoff db) reclaimed db (reclaim_tasks cutoff db)
      (λ t hit.
        let runs = (&&_true (is_running t.status) _ hit).0 in
        (refl, refl, refl, ground (arith, runs)))
      refl

pub reclaim_stale-Follows :
    (now stale_after : ℕ) (db : Db) → Follows reaps db (reclaim_stale now stale_after db).1
unfolding reclaim_stale
reclaim_stale-Follows now stale_after db =
    let cutoff = stale_cutoff now stale_after in
    Pointwise-trans (Row-SameStatus reaps) (reclaim_tasks-Follows cutoff db)
      (delete_dead-Keeps (delete_cutoff now stale_after) cutoff (reclaim_tasks cutoff db))

pub reclaim_worker-Follows :
    (now : ℕ) (id : String) (db : Db) → Follows (kills id) db (reclaim_worker now id db).1
unfolding reclaim_worker
reclaim_worker-Follows now id db = elim (Bool-cases (any (is_worker id) db.workers)) [
  | inl there ↦
      update-Follows (kills id) (is_held_by id) (unclaimed pending) db (reclaim_worker now id db).1
        (λ t hit. (refl, refl, refl, ground (arith, hit))) (ground (arith, there))
  | inr missing ↦ rw (reclaim_worker, missing) (Follows-refl (kills id) db)
]

blocked_db-Follows :
    (m : Move) (plan id : String) (status : TaskStatus) (reason : String) (db after : Db)
    → ((t : Task) → is_blockable plan id t ≡ true → may_move m t status ≡ true)
    → (blocked_db plan id status reason db).tasks ≡ after.tasks
    → Follows m db after
blocked_db-Follows m plan id status reason db after blocks =
    update-Follows m (is_blockable plan id) (with_status status) db after
      (λ t hit. (refl, refl, refl, blocks t hit))

pub mark_blocked_capability-Follows :
    (plan id reason : String) (changed : Bool) (db after : Db)
    → mark_blocked_capability plan id reason db ≡ ok (changed, after)
    → Follows (lacks_capability plan id) db after
unfolding mark_blocked_capability
mark_blocked_capability-Follows plan id reason changed db after e =
    let (_, tasks, _, _) =
      mark_metadata_blocked-ok plan id blocked_capability reason changed db after e in
    blocked_db-Follows (lacks_capability plan id) plan id blocked_capability reason db after
      (λ t hit. ground (arith, hit)) tasks

pub mark_blocked_input-Follows :
    (plan id reason : String) (changed : Bool) (db after : Db)
    → mark_blocked_input plan id reason db ≡ ok (changed, after)
    → Follows (lacks_input plan id) db after
unfolding mark_blocked_input
mark_blocked_input-Follows plan id reason changed db after e =
    let (_, tasks, _, _) =
      mark_metadata_blocked-ok plan id blocked_input reason changed db after e in
    blocked_db-Follows (lacks_input plan id) plan id blocked_input reason db after
      (λ t hit. ground (arith, hit)) tasks

pub clear_task_block-Follows :
    (plan id : String) (status : TaskStatus) (changed : Bool) (db after : Db)
    → clear_task_block plan id status db ≡ ok (changed, after)
    → Follows (unblocks plan id) db after
unfolding clear_task_block
clear_task_block-Follows plan id status changed db after e =
    elim (Bool-cases
      (not (status_eq status blocked_capability) && not (status_eq status blocked_input))) [
        | inl other ↦ absurd (ground (arith, other))
        | inr clearable ↦ elim (Bool-cases (any (is_blocked_as plan id status) db.tasks)) [
          | inl hit ↦
              update-Follows (unblocks plan id) (is_blocked_as plan id status) (with_status pending)
                db after (λ t mine. (refl, refl, refl, ground (arith, mine, clearable)))
                (ground (arith, clearable, hit))
          | inr miss ↦
              same_tasks-Follows (unblocks plan id) db after (ground (arith, clearable, miss))
        ]
      ]

pub create_session-Follows :
    (now : ℕ) (id role : String) (db after : Db)
    → create_session now id role db ≡ ok after
    → Follows rests db after
unfolding create_session
create_session-Follows now id role db after e =
    same_tasks-Follows rests db after (ground (arith, e))

pub create_worker-Follows :
    (now : ℕ) (id : String) (o : WorkerOpts) (db after : Db)
    → create_worker now id o db ≡ ok after
    → Follows rests db after
unfolding create_worker
create_worker-Follows now id o db after e = same_tasks-Follows rests db after (ground (arith, e))

pub set_worker_task-Follows :
    (now : ℕ) (id plan task : String) (db after : Db)
    → set_worker_task now id plan task db ≡ ok after
    → Follows rests db after
unfolding set_worker_task
set_worker_task-Follows now id plan task db after e =
    same_tasks-Follows rests db after (ground (arith, e))
