-- ===== src/Store/Lifecycle/Runs.antt =====
-- Runs of the statements of internal/store, and the life of each task along them.
use radioactive_ralph.Prelude.{◌≡◌, refl, sym, ◌∙◌, subst, true, List, [], ◌∷◌, Memᴰ}
use radioactive_ralph.Store.Schema.{Task, Db}
use radioactive_ralph.Store.Workers.{
  heartbeat_session, heartbeat_worker, heartbeat_worker_and_session, clear_worker_task,
}
use radioactive_ralph.Store.Steps.{Step, Run}
use radioactive_ralph.Store.Lifecycle.{
  Move, claims, completes, fails, releases, stops, approves, lacks_capability, lacks_input,
  unblocks, kills, reaps, rests, is_final, final-may_move, Row, Pointwise, Pointwise-trans,
  Pointwise-refl, Pointwise-mem,
}
use radioactive_ralph.Store.Lifecycle.Effects.{
  Follows, Follows-refl, claim_task-Follows, claim_next_ready-Follows, mark_done-Follows,
  mark_failed-Follows, release_claim-Follows, mark_blocked-Follows, approve_task-Follows,
}
use radioactive_ralph.Store.Lifecycle.Service.{
  mark_blocked_capability-Follows, mark_blocked_input-Follows, clear_task_block-Follows,
  create_session-Follows, create_worker-Follows, set_worker_task-Follows, close_session-Follows,
  reclaim_worker-Follows, reclaim_stale-Follows,
}

-- The move of a statement: the call, with what it names.
abbrev pub move_of : {db after : Db} → Step db after → Move
move_of (Step.claim_next plan session worker {t} e) = claims plan t.id
move_of (Step.claim_named plan id session worker e) = claims plan id
move_of (Step.complete plan id session evidence e) = completes plan id session
move_of (Step.fail plan id session p max_retries e) = fails plan id session
move_of (Step.release plan id session reason e) = releases plan id session
move_of (Step.block plan id session p e) = stops plan id session
move_of (Step.approve plan id) = approves plan id
move_of (Step.lack_capability plan id reason e) = lacks_capability plan id
move_of (Step.lack_input plan id reason e) = lacks_input plan id
move_of (Step.unblock plan id status e) = unblocks plan id
move_of (Step.open_session now id role e) = rests
move_of (Step.beat_session now id) = rests
move_of (Step.end_session id) = rests
move_of (Step.start_worker now id o e) = rests
move_of (Step.assign now id plan task e) = rests
move_of (Step.beat now id) = rests
move_of (Step.beat_both now id) = rests
move_of (Step.free_worker now id status) = rests
move_of (Step.kill now id) = kills id
move_of (Step.reap now stale_after) = reaps

Step-Follows : {db after : Db} (s : Step db after) → Follows (move_of s) db after
unfolding heartbeat_session heartbeat_worker heartbeat_worker_and_session clear_worker_task
Step-Follows (Step.claim_next plan session worker {t} {db} {after} e) =
    claim_next_ready-Follows plan session worker t db after e
Step-Follows (Step.claim_named plan id session worker {t} {db} {after} e) =
    claim_task-Follows plan id session worker t db after e
Step-Follows (Step.complete plan id session evidence {next} {db} {after} e) =
    mark_done-Follows plan id session evidence next db after e
Step-Follows (Step.fail plan id session p max_retries {again} {db} {after} e) =
    mark_failed-Follows plan id session p max_retries again db after e
Step-Follows (Step.release plan id session reason {db} {after} e) =
    release_claim-Follows plan id session reason db after e
Step-Follows (Step.block plan id session p {db} {after} e) =
    mark_blocked-Follows plan id session p db after e
Step-Follows (Step.approve plan id {db}) = approve_task-Follows plan id db
Step-Follows (Step.lack_capability plan id reason {changed} {db} {after} e) =
    mark_blocked_capability-Follows plan id reason changed db after e
Step-Follows (Step.lack_input plan id reason {changed} {db} {after} e) =
    mark_blocked_input-Follows plan id reason changed db after e
Step-Follows (Step.unblock plan id status {changed} {db} {after} e) =
    clear_task_block-Follows plan id status changed db after e
Step-Follows (Step.open_session now id role {db} {after} e) =
    create_session-Follows now id role db after e
Step-Follows (Step.beat_session now id {db}) = Follows-refl rests db
Step-Follows (Step.end_session id {db}) = close_session-Follows id db
Step-Follows (Step.start_worker now id o {db} {after} e) = create_worker-Follows now id o db after e
Step-Follows (Step.assign now id plan task {db} {after} e) =
    set_worker_task-Follows now id plan task db after e
Step-Follows (Step.beat now id {db}) = Follows-refl rests db
Step-Follows (Step.beat_both now id {db}) = Follows-refl rests db
Step-Follows (Step.free_worker now id status {db}) = Follows-refl rests db
Step-Follows (Step.kill now id {db}) = reclaim_worker-Follows now id db
Step-Follows (Step.reap now stale_after {db}) = reclaim_stale-Follows now stale_after db

abbrev pub moves_of : {db after : Db} → Run db after → List Move
moves_of Run.stop = []
moves_of (Run.then s r) = move_of s ∷ moves_of r

-- One task along a list of moves, one after another.
pub data Lived : List Move → Task → Task → Type 0 where
  halt : {t : Task} → Lived [] t t
  go : {m : Move} {ms : List Move} {t u v : Task} → Row m t u → Lived ms u v → Lived (m ∷ ms) t v

-- A run keeps the tasks in their rows, with their keys and descriptions. Each call of it, in order,
-- leaves the status of a task, or takes the arrow that is the call's own: a claim takes the named
-- task from pending or ready to running; a report of its session takes it from running to done, to
-- failed or pending, to pending, or to blocked; an approval from its wait to ready; a block of the
-- service from pending, ready or such a block to the block of its kind, and the lifting from a
-- block to pending; a kill takes the tasks of its worker, and a reap some, from running to pending.
-- No other call moves a task.
pub Run-Lived :
    (db after : Db) (r : Run db after) → Pointwise (Lived (moves_of r)) db.tasks after.tasks
Run-Lived db after Run.stop = Pointwise-refl (λ t. Lived.halt) db.tasks
Run-Lived db after (Run.then {mid} s r) =
    Pointwise-trans (λ x y z a b. Lived.go a b) (Step-Follows s) (Run-Lived mid after r)

Lived-final :
    {ms : List Move} {t u : Task}
    → is_final t.status ≡ true
    → Lived ms t u
    → (t.plan_id ≡ u.plan_id) × (t.id ≡ u.id) × (t.status ≡ u.status)
Lived-final ended Lived.halt = (refl, refl, refl)
Lived-final ended (Lived.go {m} {t} {u} (a, b, c, d) l) =
    let same = final-may_move m t u.status ended d in
    let (p, i, q) = Lived-final (subst (λ x. is_final x ≡ true) {y = u.status} same ended) l in
    (a ∙ p, b ∙ i, same ∙ q)

-- A task that is done, failed, skipped or decomposed is still so after any run: no late report, reap,
-- kill or block brings it back.
pub Run-final :
    (db after : Db) (t : Task)
    → Run db after
    → Memᴰ t db.tasks
    → is_final t.status ≡ true
    → (u : Task) × Memᴰ u after.tasks
      × (u.plan_id ≡ t.plan_id)
      × (u.id ≡ t.id)
      × (u.status ≡ t.status)
Run-final db after t r m ended =
    let (u, n, l) = Pointwise-mem (Run-Lived db after r) m in
    let (a, b, c) = Lived-final ended l in (u, n, sym a, sym b, sym c)
