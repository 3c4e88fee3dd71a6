-- ===== src/Store/Samples/Claims.antt =====
-- The claims of internal/store at the sample: a claim that succeeds, and one that a running peer opposes.
use radioactive_ralph.Prelude.{◌≡◌, refl, true, some, [], Memᴰ, any, ◌⊎◌}
use radioactive_ralph.Store.Schema.{
  Task, Db, EventPayload, empty_payload, ok, err, output_reserved, not_owned_running, done,
}
use radioactive_ralph.Store.Queries.{
  next_ready, claims_first, output_reservation_conflict, ready_tasks, get_task, is_owned,
}
use radioactive_ralph.Store.Tasks.{
  claim_task, claim_next_ready, claim_row, claim_db, claimed_by, is_named_ready, mark_done,
  mark_failed, release_claim, mark_blocked, report_db, worker_event, unclaimed,
}
use radioactive_ralph.Store.Exclusive.Claims.{Unopposed}
use radioactive_ralph.Store.Tasks.Claims.{claim_task_sound, claim_task_complete}
use radioactive_ralph.Store.Tasks.Next.{
  is_candidate, Claimable, is_candidate-Claimable, claim_next_ready-first, next_ready-found,
}
use radioactive_ralph.Store.Tasks.Owner.{Report, report_once, Report-owner}
use radioactive_ralph.Store.Tasks.Handover.{Claimed, late_report-refused}
use radioactive_ralph.Store.Tasks.Reports.{owned}
use radioactive_ralph.Store.Samples.{sample, waiting, sample-Keyed}

program : Unit {0}
unfolding claim_task claim_next_ready claim_row get_task next_ready output_reservation_conflict
    mark_done ready_tasks mark_failed release_claim mark_blocked
program = tt

abbrev claimed : Db
claimed = claim_db "p" "build" "night" "w1" sample

abbrev building : Task
building = claimed_by "night" "w1" (waiting "p" "build")

claim_named : claim_task "p" "build" "night" "w1" sample ≡ ok (building, claimed)
unfolding program
claim_named = refl

claim_first : claim_next_ready "p" "night" "w1" sample ≡ ok (building, claimed)
unfolding program
claim_first = refl

-- `pack` shares its output with the running `deploy` of another plan of the project.
claim_opposed : claim_task "p" "pack" "night" "w1" sample ≡ err (output_reserved "app")
unfolding program
claim_opposed = refl

claim_task_sound_example :
    (u : Task) × Memᴰ u sample.tasks
    × (is_named_ready sample "p" "build" u ≡ true)
    × Unopposed sample "p" "build"
    × (building ≡ claimed_by "night" "w1" u)
    × Memᴰ building claimed.tasks
claim_task_sound_example =
    claim_task_sound "p" "build" "night" "w1" building sample claimed sample-Keyed claim_named

claim_task_complete_example :
    (t : Task) × (claim_task "p" "build" "night" "w1" sample ≡ ok (t, claimed))
claim_task_complete_example =
    claim_task_complete "p" "build" "night" "w1" (waiting "p" "build") sample (Memᴰ.head refl) refl
      refl refl refl

claim_next_ready-first_example :
    (u : Task) × Memᴰ u sample.tasks
    × (is_candidate sample "p" u ≡ true)
    × (claims_first u (waiting "p" "build") ≡ true)
    × (building ≡ claimed_by "night" "w1" u)
    × Memᴰ building claimed.tasks
claim_next_ready-first_example =
    claim_next_ready-first "p" "night" "w1" building (waiting "p" "build") sample claimed
      sample-Keyed claim_first (Memᴰ.head refl) refl

next_ready-found_example :
    (u : Task) × (next_ready "p" sample ≡ some u)
    × Memᴰ u sample.tasks
    × Claimable sample "p" u
    × (claims_first u (waiting "p" "build") ≡ true)
next_ready-found_example =
    next_ready-found "p" (waiting "p" "build") sample (Memᴰ.head refl)
      (is_candidate-Claimable sample "p" (waiting "p" "build") refl)

-- The report of the holder of `deploy`, and the database after it.
abbrev deployed : Db
deployed =
    report_db "q" "deploy" "night" (unclaimed done)
      (worker_event "q" "deploy" "worker.completed" "night"
        (radioactive_ralph.Store.Schema.raw "log"))
      sample

finish : mark_done "q" "deploy" "night" "log" sample ≡ ok ([], deployed)
unfolding program
finish = refl

abbrev report : Report "q" "deploy" "night" sample deployed
report = Report.completed "log" finish

-- The session "night" claims `build`, and the session "day" reports on it.
late_report-refused_example :
    (owned "p" "build" "night" claimed ≡ true)
    × (mark_done "p" "build" "day" "log" claimed ≡ err not_owned_running)
    × (mark_failed "p" "build" "day" empty_payload 3 claimed ≡ err not_owned_running)
    × (release_claim "p" "build" "day" "late" claimed ≡ err not_owned_running)
    × (mark_blocked "p" "build" "day" empty_payload claimed ≡ err not_owned_running)
late_report-refused_example =
    late_report-refused "p" "build" "night" "day" "log" "late" empty_payload 3 sample claimed
      sample-Keyed (Claimed.as_next "w1" claim_first refl) refl

report_once_example :
    (mark_done "q" "deploy" "night" "log" deployed ≡ err not_owned_running)
    × (mark_failed "q" "deploy" "night" empty_payload 3 deployed ≡ err not_owned_running)
    × (release_claim "q" "deploy" "night" "late" deployed ≡ err not_owned_running)
    × (mark_blocked "q" "deploy" "night" empty_payload deployed ≡ err not_owned_running)
report_once_example =
    report_once "q" "deploy" "night" "log" "late" empty_payload 3 sample deployed report

Report-owner_example :
    (any (is_owned "q" "deploy" "night") sample.tasks ≡ true)
    × (deployed.deps ≡ sample.deps)
    × (deployed.outputs ≡ sample.outputs)
    × (deployed.sessions ≡ sample.sessions)
    × (deployed.workers ≡ sample.workers)
    × ((is_owned "q" "deploy" "night" (waiting "p" "build") ≡ true)
        ⊎ Memᴰ (waiting "p" "build") deployed.tasks)
Report-owner_example =
    Report-owner "q" "deploy" "night" sample deployed (waiting "p" "build") report (Memᴰ.head refl)
