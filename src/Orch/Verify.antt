-- ===== src/Orch/Verify.antt =====
-- internal/orch/verify.go: the verdict on a task that a worker reports as complete. Between the
-- reading of the task and the record of the verdict the acceptance command runs, so the database is
-- given at both times.
pub mod Earned
pub mod Stop
mod Samples
use Prim.Native.String.{◌++◌ as ◌<>◌}
use radioactive_ralph.Prelude.{
  String, Bool, true, false, not, ◌&&◌, ◌||◌, Option, none, some, List, [], ◌∷◌, map, if◌then◌else◌,
  find?, text_eq,
}
use radioactive_ralph.Paths.{is_rooted_slash, clean, is_rooted, contained_in}
use radioactive_ralph.Plan.{Plan, Step, TaskOutput, walk_groups}
use radioactive_ralph.Plan.Json.{Json}
use radioactive_ralph.Plan.Texts.{trim_space}
use radioactive_ralph.Plan.Parse.{Block, Parsed, parse}
use radioactive_ralph.Orch.Import.{Located, step_task_id}
use radioactive_ralph.Store.Schema.{
  Task, PlanRow, Event, EventPayload, empty_payload, payload, Db, Error, not_owned_running, Result,
  ok, err, is_task, log,
}
use radioactive_ralph.Store.Tasks.{mark_done, mark_failed}
use radioactive_ralph.Orch.Acceptance.{
  Evidence, System, CheckResult, mechanical_acceptance_check, verify_task_output_containment,
  project_dir_for, passed, unreadable, rejected, inside,
}

pub data Fault : Type 0 where
  task_missing plan_missing budget_exceeded check_failed mark_failed_fault mark_done_fault : Fault

-- What the call returns, with the database after it.
pub data Verdict : Type 0 where
  verdict : (done : Bool) → Db → Verdict
  fault : Fault → Db → Verdict

abbrev pub column_text : Option String → String
column_text none = ""
column_text (some s) = s

-- The session that the report is recorded under: the reporter, or who owns the task, or the
-- orchestrator.
abbrev pub session_for : System → (reporting : String) → Task → String
session_for w reporting t =
    if text_eq reporting ""
    then (if text_eq (column_text t.claimed_by_session) ""
        then w.orch_session
        else column_text t.claimed_by_session)
    else reporting

abbrev pub verdict_event : String → String → String → EventPayload → Event
verdict_event plan id kind p = record {
  plan_id = plan;
  task_id = id;
  kind = kind;
  actor = some "orchestrator";
  stream = "orch";
  content = payload p;
}

abbrev pub because : String → EventPayload
because reason = record empty_payload { reason = reason }

-- A report of a session that lost the task changes nothing.
abbrev pub after_rejection : String → String → String → Db → Result (Bool × Db) → Verdict
after_rejection plan id reason later (ok (again, after)) =
    verdict false (log (verdict_event plan id "worker.verification_failed" (because reason)) after)
after_rejection plan id reason later (err not_owned_running) = verdict false later
after_rejection plan id reason later (err e) = fault mark_failed_fault later

abbrev pub after_completion : String → String → Db → Result (List Task × Db) → Verdict
after_completion plan id later (ok (next, after)) =
    verdict true (log (verdict_event plan id "worker.verified_done" empty_payload) after)
after_completion plan id later (err not_owned_running) = verdict false later
after_completion plan id later (err e) = fault mark_done_fault later

abbrev pub reject : String → String → String → String → Db → Verdict
reject plan id session reason later = after_rejection plan id reason later (
    mark_failed plan id session (record empty_payload { reason = reason; retryable = true }) 3
      later)

-- The part of `VerifyAndCompleteAs` after the acceptance check.
unfoldable pub record_verdict :
    System → String → String → String → Task → String → Evidence → CheckResult → Db → Verdict
record_verdict w plan id session t dir ev unreadable later = fault check_failed later
record_verdict w plan id session t dir ev (rejected reason) later =
    reject plan id session reason later
record_verdict w plan id session t dir ev passed later =
    elim (verify_task_output_containment w t dir later) [
      | some escaped ↦
          reject plan id session "declared output does not resolve inside the project" later
      | none ↦ after_completion plan id later (mark_done plan id session ev.json later)
    ]

-- `VerifyAndCompleteAs`: `exhausted` tells whether the budget of the verification ran out.
unfoldable pub verify_and_complete_as :
    System
    → (plan id reporting : String) → Evidence
    → (exhausted : Bool) → (db later : Db) → Verdict
verify_and_complete_as w plan id reporting ev exhausted db later =
    elim (find? (is_task plan id) db.tasks) [
      | none ↦ fault task_missing later
      | some t ↦ elim (project_dir_for w t.plan_id db) [
        | none ↦ fault plan_missing later
        | some dir ↦
            if exhausted
            then fault budget_exceeded later
            else record_verdict w plan id (session_for w reporting t) t dir ev
                (mechanical_acceptance_check w dir (column_text t.acceptance_json) ev) later
      ]
    ]

abbrev pub no_evidence : Evidence
no_evidence = record { output = ""; json = "" }

abbrev pub stop_answer : CheckResult → (escaped : Option String) → Option Bool
stop_answer unreadable escaped = none
stop_answer (rejected reason) escaped = some false
stop_answer passed none = some true
stop_answer passed (some out) = some false

-- `CanStopAs`: whether a provider may stop, and nothing for an error. The plan of the declared outputs
-- is read at `later`, after the acceptance command.
unfoldable pub can_stop_as :
    System → (plan id reporting : String) → (exhausted : Bool) → (db later : Db) → Option Bool
can_stop_as w plan id reporting exhausted db later = elim (find? (is_task plan id) db.tasks) [
  | none ↦ none
  | some t ↦
      if text_eq reporting "" || not (text_eq (column_text t.claimed_by_session) reporting)
      then some false
      else elim (project_dir_for w t.plan_id db) [
        | none ↦ none
        | some dir ↦
            if exhausted
            then none
            else stop_answer
                (mechanical_acceptance_check w dir (column_text t.acceptance_json) no_evidence)
                (verify_task_output_containment w t dir later)
      ]
]
