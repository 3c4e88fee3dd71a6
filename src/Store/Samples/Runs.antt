-- ===== src/Store/Samples/Runs.antt =====
-- A run of the statements of internal/store from the sample, a reap, and the theorems at them.
use radioactive_ralph.Prelude.{◌≡◌, refl, true, some, [], Memᴰ}
use radioactive_ralph.Store.Schema.{Task, Worker, Db, done, ok, raw}
use radioactive_ralph.Store.Queries.{output_reservation_conflict, ready_tasks, get_task}
use radioactive_ralph.Store.Tasks.{
  claim_task, claim_row, claim_db, mark_done, report_db, worker_event, unclaimed,
}
use radioactive_ralph.Store.Reaper.{reclaim_stale, reclaim_tasks, delete_dead, stale_cutoff}
use radioactive_ralph.Store.Reaper.Liveness.{is_live, reclaim_stale-live}
use radioactive_ralph.Store.Reaper.Orphans.{reclaim_stale-no_orphans}
use radioactive_ralph.Store.Steps.{Step, Run}
use radioactive_ralph.Store.Exclusive.Plans.{is_planned, Sound}
use radioactive_ralph.Store.Exclusive.Histories.{Change, History, History-Sound}
use radioactive_ralph.Store.Lifecycle.{Pointwise}
use radioactive_ralph.Store.Lifecycle.Runs.{Lived, moves_of, Run-Lived, Run-final}
use radioactive_ralph.Store.Samples.{
  sample, waiting, deploying, worker_1, sample-WorkersKeyed, sample-Exclusive,
}

program : Unit {0}
unfolding claim_task claim_row get_task output_reservation_conflict mark_done ready_tasks
    reclaim_stale reclaim_tasks delete_dead
program = tt

abbrev finished : Db
finished =
    report_db "q" "deploy" "night" (unclaimed done)
      (worker_event "q" "deploy" "worker.completed" "night" (raw "log")) sample

abbrev packing : Db
packing = claim_db "p" "pack" "night" "w1" finished

finish : mark_done "q" "deploy" "night" "log" sample ≡ ok ([], finished)
unfolding program
finish = refl

-- The path is free once its holder is done.
pack :
    claim_task "p" "pack" "night" "w1" finished
    ≡ ok (radioactive_ralph.Store.Tasks.claimed_by "night" "w1" (waiting "p" "pack"), packing)
unfolding program
pack = refl

abbrev sample_run : Run sample packing
sample_run =
    Run.then (Step.complete "q" "deploy" "night" "log" finish)
      (Run.then (Step.claim_named "p" "pack" "night" "w1" pack) Run.stop)

abbrev sample_history : History sample packing
sample_history =
    History.next (Change.by_step (Step.complete "q" "deploy" "night" "log" finish))
      (History.next (Change.by_step (Step.claim_named "p" "pack" "night" "w1" pack)) History.start)

sample_planned : is_planned sample ≡ true
sample_planned = refl

History-Sound_example : Sound packing
History-Sound_example =
    History-Sound sample packing sample_history (sample-Exclusive, sample_planned)

Run-Lived_example : Pointwise (Lived (moves_of sample_run)) sample.tasks packing.tasks
Run-Lived_example = Run-Lived sample packing sample_run

abbrev rest : Run finished packing
rest = Run.then (Step.claim_named "p" "pack" "night" "w1" pack) Run.stop

Run-final_example :
    (u : Task) × Memᴰ u packing.tasks × (u.plan_id ≡ "q") × (u.id ≡ "deploy") × (u.status ≡ done)
Run-final_example =
    Run-final finished packing (unclaimed done deploying) rest
      (Memᴰ.tail (Memᴰ.tail (Memᴰ.head refl))) refl

-- At time 120 with 30 seconds of grace the worker is live, and at time 200 it is not.
reclaim_stale-live_example :
    Memᴰ deploying (reclaim_stale 120 30 sample).1.tasks
    × Memᴰ worker_1 (reclaim_stale 120 30 sample).1.workers
reclaim_stale-live_example =
    reclaim_stale-live 120 30 deploying worker_1 sample sample-WorkersKeyed
      (Memᴰ.tail (Memᴰ.tail (Memᴰ.head refl))) (Memᴰ.head refl) refl refl refl

still_deploying : Memᴰ deploying (reclaim_stale 120 30 sample).1.tasks
unfolding program
still_deploying = Memᴰ.tail (Memᴰ.tail (Memᴰ.head refl))

reaped_late : (reclaim_stale 200 30 sample).0 ≡ 1
unfolding program
reaped_late = refl

reclaim_stale-no_orphans_example :
    (w : Worker) × Memᴰ w (reclaim_stale 120 30 sample).1.workers
    × (is_live (stale_cutoff 120 30) w ≡ true)
    × (some "w1" ≡ some w.id)
reclaim_stale-no_orphans_example =
    reclaim_stale-no_orphans 120 30 deploying sample sample-WorkersKeyed refl still_deploying refl
