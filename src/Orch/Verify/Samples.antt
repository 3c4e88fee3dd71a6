-- ===== src/Orch/Verify/Samples.antt =====
-- The verification of a task whose acceptance is a command and a file.
use radioactive_ralph.Prelude.{
  ◌≡◌, ◌↔◌, refl, Bool, true, false, ◌&&◌, find?, none, some, [], ◌∷◌, text_eq,
}
use radioactive_ralph.Paths.{clean, is_rooted, contained_in}
use radioactive_ralph.Plan.Texts.{trim_space}
use radioactive_ralph.Store.Schema.{Task, running, active, Db, is_task}
use radioactive_ralph.Store.Queries.{ready_tasks}
use radioactive_ralph.Store.Tasks.{mark_done, mark_failed}
use radioactive_ralph.Orch.Acceptance.{
  Evidence, System, check_file_exists, mechanical_acceptance_check, secure_project_path,
  first_escape, step_for_task, verify_task_output_containment, project_dir_for, is_blank,
}
use radioactive_ralph.Orch.Verify.{
  Verdict, verdict, record_verdict, verify_and_complete_as, column_text, can_stop_as,
}
use radioactive_ralph.Orch.Verify.Stop.{can_stop_as-Accepts}
use radioactive_ralph.Orch.Verify.Earned.{Accepts, Earned, verify_and_complete_as-Earned}

abbrev build : Task
build = record {
  id = "build";
  plan_id = "p";
  description = "build it";
  status = running;
  parallel_group = none;
  sequence_ordinal = some 0;
  acceptance_json = some "make";
  claimed_by_session = some "night";
  claimed_by_worker_id = some "w1";
  retry_count = 0;
  reclaim_count = 0;
  parent_task_id = none;
  failure_category = none;
  created_at = 7;
}

abbrev db : Db
db = record {
  plans =
      record {
        id = "p";
        project_id = "home";
        slug = "p";
        title = "p";
        status = active;
        source_markdown = "";
      }
      ∷ [];
  tasks = build ∷ [];
  deps = [];
  metadata = [];
  inputs = [];
  outputs = [];
  sessions = [];
  workers = [];
  events = [];
}

-- The command succeeds where the file is.
abbrev system : System
system = record {
  unmarshal_acceptance = λ s. some (record { command = s; file_exists = "out.txt"; dir = "" });
  read_metadata = λ s. some [];
  read_markdown = λ s. [];
  stat = λ p. text_eq p "/work/out.txt";
  exits_zero = λ dir command. text_eq dir "/work" && text_eq command "make";
  eval_symlinks = λ p. some p;
  resolve_existing = λ p. some p;
  project_paths = ("home", "/work") ∷ [];
  orch_session = "orch";
}

abbrev claims_success : Evidence
claims_success = record { output = "all green"; json = "{}" }

is_done : Verdict → Bool
is_done (verdict d after) = d
is_done _ = false

completed :
    is_done (verify_and_complete_as system "p" "build" "night" claims_success false db db) ≡ true
unfolding is_done verify_and_complete_as record_verdict mechanical_acceptance_check
    check_file_exists verify_task_output_containment step_for_task first_escape project_dir_for
    mark_done ready_tasks trim_space clean is_rooted
completed = refl

-- A failing command refuses the claim of the worker.
not_believed :
    is_done (
      verify_and_complete_as
        (record system { exits_zero = λ dir command. false })
        "p"
        "build"
        "night"
        claims_success
        false
        db
        db)
    ≡ false
unfolding is_done verify_and_complete_as record_verdict mechanical_acceptance_check
    check_file_exists verify_task_output_containment step_for_task first_escape project_dir_for
    mark_failed trim_space clean is_rooted
not_believed = refl

-- A session that lost the task changes nothing.
stale :
    verify_and_complete_as system "p" "build" "evening" claims_success false db db
    ≡ verdict false db
unfolding verify_and_complete_as record_verdict mechanical_acceptance_check check_file_exists
    verify_task_output_containment step_for_task first_escape project_dir_for mark_done trim_space
    clean is_rooted
stale = refl

escapes_found : first_escape system "/work" ("out.txt" ∷ "a/../../etc" ∷ []) ≡ some "a/../../etc"
unfolding first_escape secure_project_path clean is_rooted contained_in
escapes_found = refl

verify_and_complete_as-Earned_example :
    Accepts (verify_and_complete_as system "p" "build" "night" claims_success false db db)
    ↔ Earned system "p" "build" "night" claims_success false db db
verify_and_complete_as-Earned_example =
    verify_and_complete_as-Earned system "p" "build" "night" claims_success false db db

may_stop : can_stop_as system "p" "build" "night" false db db ≡ some true
unfolding can_stop_as mechanical_acceptance_check check_file_exists verify_task_output_containment
    step_for_task first_escape project_dir_for trim_space clean is_rooted
may_stop = refl

can_stop_as-Accepts_example :
    ((t : Task) × (find? (is_task "p" "build") db.tasks ≡ some t)
      × (is_blank (column_text t.acceptance_json) ≡ false))
    × ((ev : Evidence) → Accepts (verify_and_complete_as system "p" "build" "night" ev false db db))
can_stop_as-Accepts_example =
    can_stop_as-Accepts system "p" "build" "night" false db db may_stop refl
