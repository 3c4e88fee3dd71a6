-- ===== src/Store/Samples/Failing.antt =====
-- The failure of the running task of the sample, by an invalid credential and by an outage.
use radioactive_ralph.Prelude.{
  ◌≡◌, ◌≤◌, refl, Bool, true, false, ◌&&◌, none, some, find?, all, Memᴰ, ltb, leb, arith,
}
use radioactive_ralph.Store.Schema.{Task, Db, ok, payload}
use radioactive_ralph.Store.Queries.{is_owned}
use radioactive_ralph.Store.Tasks.{
  mark_failed, report_db, worker_event, requeued, failed_terminally,
}
use radioactive_ralph.Provider.Failure.{
  Failure, Sentinel, claude_authentication, claude_service_unavailable, classify_failure, retryable,
  retry_budget,
}
use radioactive_ralph.Provider.Retries.{
  failure_payload, Settled, mark_failed-retry_budget, mark_failed-retries,
}
use radioactive_ralph.Store.Samples.{sample, sample-Keyed}

program : Unit {0}
unfolding mark_failed classify_failure retry_budget
program = tt

abbrev is_credential : Sentinel → Bool
is_credential claude_authentication = true
is_credential _ = false

abbrev is_outage : Sentinel → Bool
is_outage claude_service_unavailable = true
is_outage _ = false

abbrev credential : Failure
credential = classify_failure (some (record { holds = is_credential; blocked = none }))

abbrev outage : Failure
outage = classify_failure (some (record { holds = is_outage; blocked = none }))

abbrev ended : Db
ended =
    report_db "q" "deploy" "night" (failed_terminally "provider_auth")
      (worker_event "q" "deploy" "task.failed_terminal" "night"
        (payload (failure_payload credential)))
      sample

abbrev queued : Db
queued =
    report_db "q" "deploy" "night" requeued
      (worker_event "q" "deploy" "task.failed" "night" (payload (failure_payload outage))) sample

ends :
    mark_failed "q" "deploy" "night" (failure_payload credential) (retry_budget credential 3) sample
    ≡ ok (false, ended)
unfolding program
ends = refl

queues :
    mark_failed "q" "deploy" "night" (failure_payload outage) (retry_budget outage 3) sample
    ≡ ok (true, queued)
unfolding program
queues = refl

mark_failed-retry_budget_example :
    (t : Task) × (find? (is_owned "q" "deploy" "night") sample.tasks ≡ some t)
    × (false ≡ (retryable credential.category && ltb t.retry_count 3))
    × ((u : Task) × Memᴰ u ended.tasks × Settled false credential t u)
mark_failed-retry_budget_example =
    mark_failed-retry_budget "q" "deploy" "night" credential 3 false sample ended ends

budget : retry_budget outage 3 ≤ 3
unfolding program
budget = omega arith

mark_failed-retries_example : all (λ t. leb t.retry_count 3) queued.tasks ≡ true
mark_failed-retries_example =
    mark_failed-retries "q" "deploy" "night" (failure_payload outage) (retry_budget outage 3) 3 true
      sample queued sample-Keyed budget refl queues
