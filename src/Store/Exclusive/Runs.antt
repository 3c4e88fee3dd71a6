-- ===== src/Store/Exclusive/Runs.antt =====
-- What each statement of the running supervisor, internal/store, does to the running tasks.
use radioactive_ralph.Prelude.{◌⊎◌, inl, inr, ◌≡◌, refl, String}
use radioactive_ralph.Store.Schema.{Db, blocked_capability, blocked_input}
use radioactive_ralph.Store.Tasks.{claim_db}
use radioactive_ralph.Store.Blocks.{mark_blocked_capability, mark_blocked_input}
use radioactive_ralph.Store.Workers.{
  heartbeat_session, heartbeat_worker, heartbeat_worker_and_session, clear_worker_task,
}
use radioactive_ralph.Store.Steps.{Step}
use radioactive_ralph.Store.Exclusive.{Exclusive, Quiet-Exclusive}
use radioactive_ralph.Store.Exclusive.Claims.{
  Unopposed, claim_row-ok, claim_db-Exclusive, claim_task-ok, claim_next_ready-ok,
}
use radioactive_ralph.Store.Exclusive.Still.{
  Still, Still-refl, mark_done-Still, mark_failed-Still, release_claim-Still, mark_blocked-Still,
  approve_task-Still,
}
use radioactive_ralph.Store.Exclusive.Service.{
  mark_metadata_blocked-Still, clear_task_block-Still, create_session-Still, create_worker-Still,
  set_worker_task-Still, close_session-Still, reclaim_worker-Still, reclaim_stale-Still,
}

-- A claim that nothing opposed.
pub data Claim : Db → Db → Type 0 where
  claim :
      (plan id session worker : String) {db after : Db}
      → Unopposed db plan id
      → after ≡ claim_db plan id session worker db
      → Claim db after

-- A step starts no task and leaves plans and reservations alone, or it is a claim.
pub Step-effect : {db after : Db} → Step db after → Still db after ⊎ Claim db after
unfolding mark_blocked_capability mark_blocked_input heartbeat_session heartbeat_worker
    heartbeat_worker_and_session clear_worker_task
Step-effect (Step.claim_next plan session worker {t} {db} {after} e) =
    let (u, _, _, free, _, row) = claim_next_ready-ok plan session worker t db after e in
    inr (claim plan u.id session worker free (claim_row-ok plan u.id session worker db after t row))
Step-effect (Step.claim_named plan id session worker {t} {db} {after} e) =
    let (_, free, row) = claim_task-ok plan id session worker t db after e in
    inr (claim plan id session worker free (claim_row-ok plan id session worker db after t row))
Step-effect (Step.complete plan id session evidence {next} {db} {after} e) =
    inl (mark_done-Still plan id session evidence next db after e)
Step-effect (Step.fail plan id session p max_retries {again} {db} {after} e) =
    inl (mark_failed-Still plan id session p max_retries again db after e)
Step-effect (Step.release plan id session reason {db} {after} e) =
    inl (release_claim-Still plan id session reason db after e)
Step-effect (Step.block plan id session p {db} {after} e) =
    inl (mark_blocked-Still plan id session p db after e)
Step-effect (Step.approve plan id {db}) = inl (approve_task-Still plan id db)
Step-effect (Step.lack_capability plan id reason {changed} {db} {after} e) =
    inl (mark_metadata_blocked-Still plan id blocked_capability reason changed db after refl e)
Step-effect (Step.lack_input plan id reason {changed} {db} {after} e) =
    inl (mark_metadata_blocked-Still plan id blocked_input reason changed db after refl e)
Step-effect (Step.unblock plan id status {changed} {db} {after} e) =
    inl (clear_task_block-Still plan id status changed db after e)
Step-effect (Step.open_session now id role {db} {after} e) =
    inl (create_session-Still now id role db after e)
Step-effect (Step.beat_session now id {db}) = inl (Still-refl db)
Step-effect (Step.end_session id {db}) = inl (close_session-Still id db)
Step-effect (Step.start_worker now id o {db} {after} e) =
    inl (create_worker-Still now id o db after e)
Step-effect (Step.assign now id plan task {db} {after} e) =
    inl (set_worker_task-Still now id plan task db after e)
Step-effect (Step.beat now id {db}) = inl (Still-refl db)
Step-effect (Step.beat_both now id {db}) = inl (Still-refl db)
Step-effect (Step.free_worker now id status {db}) = inl (Still-refl db)
Step-effect (Step.kill now id {db}) = inl (reclaim_worker-Still now id db)
Step-effect (Step.reap now stale_after {db}) = inl (reclaim_stale-Still now stale_after db)

-- A step keeps the outputs of running tasks exclusive.
pub effect-Exclusive :
    (db after : Db) → Still db after ⊎ Claim db after → Exclusive db → Exclusive after
effect-Exclusive db after (inl (plans, outputs, quiet)) safe =
    Quiet-Exclusive db after plans outputs quiet safe
effect-Exclusive db after (inr (claim plan id session worker free same)) safe =
    rw same (claim_db-Exclusive plan id session worker db free safe)
