-- ===== src/Orch/Verify/Earned.antt =====
-- What `VerifyAndCompleteAs` of internal/orch/verify.go asks before it marks a task done.
use radioactive_ralph.Prelude.{
  ◌≡◌, ◌↔◌, ◌≢◌, refl, sym, ap, ◌∙◌, String, Bool, true, false, ◌&&◌, ◌||◌, none, some,
  Option-cases, List, ◌⊎◌, inl, inr, Bool-cases, find?, text_eq, arith,
}
use radioactive_ralph.Store.Schema.{
  Task, done, Db, Result, ok, err, not_owned_running, is_task, raw,
}
use radioactive_ralph.Store.Queries.{ready_tasks}
use radioactive_ralph.Store.Tasks.{mark_done, report_db, unclaimed, worker_event}
use radioactive_ralph.Store.Tasks.Reports.{owned}
use radioactive_ralph.Orch.Acceptance.{
  Acceptance, Evidence, System, CheckResult, passed, unreadable, rejected, is_blank,
  check_file_exists, check_dir, check_acceptance, mechanical_acceptance_check,
  verify_task_output_containment, project_dir_for,
}
use radioactive_ralph.Orch.Verify.{
  Verdict, verdict, column_text, session_for, after_rejection, after_completion, record_verdict,
  verify_and_complete_as,
}

-- The mechanical predicates of an acceptance, of which there is one at least: a file that exists, a
-- command that exits zero.
abbrev pub Holds : System → String → Acceptance → Type 0
Holds w dir a =
    ((is_blank a.command && is_blank a.file_exists) ≡ false)
    × ((text_eq a.file_exists "" || check_file_exists w (check_dir a dir) a.file_exists) ≡ true)
    × ((text_eq a.command "" || w.exits_zero (check_dir a dir) a.command) ≡ true)

-- Without an acceptance, some output of the worker; with one, its predicates, whatever the worker
-- says.
abbrev pub Met : System → String → String → Evidence → Type 0
Met w dir acceptance ev =
    ((is_blank acceptance ≡ true) × (is_blank ev.output ≡ false))
    ⊎ ((is_blank acceptance ≡ false)
        × ((a : Acceptance) × (w.unmarshal_acceptance acceptance ≡ some a) × Holds w dir a))

check_acceptance_iff :
    (w : System) (dir : String) (a : Acceptance)
    → (check_acceptance w dir a ≡ passed) ↔ Holds w dir a
check_acceptance_iff w dir a = elim (Bool-cases (is_blank a.command && is_blank a.file_exists)) [
  | inl none_given ↦ (
    λ e. absurd (ground (arith, none_given, e)),
    λ h. let (some_given, file, command) = h in absurd (ground (arith, none_given, some_given)),
  )
  | inr given ↦ (
    λ e. (given, ground (arith, given, e), ground (arith, given, e)),
    λ h. let (some_given, file, command) = h in ground (arith, given, file, command),
  )
]

read_acceptance :
    (w : System) (dir acceptance : String) (ev : Evidence) (a : Acceptance)
    → is_blank acceptance ≡ false
    → w.unmarshal_acceptance acceptance ≡ some a
    → mechanical_acceptance_check w dir acceptance ev ≡ check_acceptance w dir a
unfolding mechanical_acceptance_check
read_acceptance w dir acceptance ev a given at_a = rw (given, at_a) refl

pub mechanical_acceptance_check_iff :
    (w : System) (dir acceptance : String) (ev : Evidence)
    → (mechanical_acceptance_check w dir acceptance ev ≡ passed) ↔ Met w dir acceptance ev
unfolding mechanical_acceptance_check
mechanical_acceptance_check_iff w dir acceptance ev = elim (Bool-cases (is_blank acceptance)) [
  | inl bare ↦ (
    λ e. inl (bare, ground (arith, bare, e)),
    λ m. elim m [
      | inl (b, output) ↦ ground (arith, b, output)
      | inr (b, rest) ↦ absurd (ground (arith, bare, b))
    ],
  )
  | inr given ↦ elim (Option-cases (w.unmarshal_acceptance acceptance)) [
    | inl broken ↦ (
      λ e. absurd (ground (arith, given, broken, e)),
      λ m. elim m [
        | inl (b, output) ↦ absurd (ground (arith, given, b))
        | inr (b, (a, at_a, rest)) ↦ absurd (ground (arith, broken, at_a))
      ],
    )
    | inr (a, at_a) ↦ (
      λ e. inr (
        given,
        (
          a,
          at_a,
          (check_acceptance_iff w dir a).0
              (sym (read_acceptance w dir acceptance ev a given at_a) ∙ e),
        ),
      ),
      λ m. elim m [
        | inl (b, output) ↦ absurd (ground (arith, given, b))
        | inr (b, (a', at_a', holds)) ↦
            read_acceptance w dir acceptance ev a' given at_a'
            ∙ (check_acceptance_iff w dir a').1 holds
      ],
    )
  ]
]

-- A verdict that the task is done.
abbrev pub Accepts : Verdict → Type 0
Accepts v = (after : Db) × (v ≡ verdict true after)

marked :
    (plan id session evidence : String) (later : Db)
    → owned plan id session later ≡ true
    → (r : List Task × Db) × (mark_done plan id session evidence later ≡ ok r)
unfolding mark_done
marked plan id session evidence later fresh =
    let after =
      report_db plan id session (unclaimed done)
        (worker_event plan id "worker.completed" session (raw evidence)) later in
    ((ready_tasks plan after, after), rw fresh refl)

lost :
    (plan id session evidence : String) (later : Db)
    → owned plan id session later ≡ false
    → mark_done plan id session evidence later ≡ err not_owned_running
unfolding mark_done
lost plan id session evidence later stale = rw stale refl

completion_iff :
    (plan id session evidence : String) (later : Db)
    → Accepts (after_completion plan id later (mark_done plan id session evidence later))
      ↔ (owned plan id session later ≡ true)
completion_iff plan id session evidence later = elim (Bool-cases (owned plan id session later)) [
  | inl fresh ↦ (
    λ a. fresh,
    λ h.
        let (r, e) = marked plan id session evidence later fresh in
        (_, ap (after_completion plan id later) e),
  )
  | inr stale ↦ (
    λ a.
        let (after, e) = a in absurd (ground (arith, lost plan id session evidence later stale, e)),
    λ h. absurd (ground (arith, stale, h)),
  )
]

after_rejection-refuses :
    (plan id reason : String) (later : Db) (r : Result (Bool × Db)) (after : Db)
    → after_rejection plan id reason later r ≢ verdict true after
after_rejection-refuses plan id reason later (ok (again, d)) after e = ground (arith, e)
after_rejection-refuses plan id reason later (err x) after e = ground (arith, e)

pub record_verdict_iff :
    (w : System) (plan id session : String) (t : Task) (dir : String) (ev : Evidence)
    (c : CheckResult) (later : Db)
    → Accepts (record_verdict w plan id session t dir ev c later) ↔ (
        (c ≡ passed)
        × (verify_task_output_containment w t dir later ≡ none)
        × (owned plan id session later ≡ true))
unfolding record_verdict
record_verdict_iff w plan id session t dir ev unreadable later =
    (λ a. let (after, e) = a in absurd (ground (arith, e)), λ h. absurd (ground (arith, h.0)))
record_verdict_iff w plan id session t dir ev (rejected reason) later = (
  λ a. let (after, e) = a in absurd (after_rejection-refuses plan id reason later _ after e),
  λ h. absurd (ground (arith, h.0)),
)
record_verdict_iff w plan id session t dir ev passed later =
    elim (Option-cases (verify_task_output_containment w t dir later)) [
      | inl inside ↦
          rw (inside, record_verdict)
            (
              λ a. (refl, refl, (completion_iff plan id session ev.json later).0 a),
              λ h. let (p, q, fresh) = h in (completion_iff plan id session ev.json later).1 fresh,
            )
      | inr (out, escaped) ↦
          rw (escaped, record_verdict)
            (
              λ a. let (after, e) = a in absurd (after_rejection-refuses plan id _ later _ after e),
              λ h. let (p, q, fresh) = h in absurd (ground (arith, q)),
            )
    ]

-- The task exists and its plan too, the budget lasted, the acceptance is met, no declared output
-- escapes, and the session of the report owns the task when the verdict is recorded.
abbrev pub Earned :
    System → (plan id reporting : String) → Evidence → Bool → (db later : Db) → Type 0
Earned w plan id reporting ev exhausted db later =
    (t : Task) × (find? (is_task plan id) db.tasks ≡ some t)
    × ((dir : String) × (project_dir_for w t.plan_id db ≡ some dir)
        × (exhausted ≡ false)
        × Met w dir (column_text t.acceptance_json) ev
        × (verify_task_output_containment w t dir later ≡ none)
        × (owned plan id (session_for w reporting t) later ≡ true))

pub recorded :
    (w : System) (plan id reporting : String) (ev : Evidence) (exhausted : Bool) (db later : Db)
    (t : Task) (dir : String)
    → find? (is_task plan id) db.tasks ≡ some t
    → project_dir_for w t.plan_id db ≡ some dir
    → exhausted ≡ false
    → verify_and_complete_as w plan id reporting ev exhausted db later
      ≡ record_verdict w plan id
          (session_for w reporting t)
          t
          dir
          ev
          (mechanical_acceptance_check w dir (column_text t.acceptance_json) ev)
          later
unfolding verify_and_complete_as
recorded w plan id reporting ev exhausted db later t dir at_t at_dir lasted =
    rw (at_t, at_dir, lasted, verify_and_complete_as) refl

-- The verification answers that a task is done exactly if that is earned: its acceptance is met by
-- predicates that the worker has no say in (where there is no acceptance, it has some output),
-- no output that it declares escapes the project, and the reporting session still owns it.
pub verify_and_complete_as-Earned :
    (w : System) (plan id reporting : String) (ev : Evidence) (exhausted : Bool) (db later : Db)
    → Accepts (verify_and_complete_as w plan id reporting ev exhausted db later)
      ↔ Earned w plan id reporting ev exhausted db later
unfolding verify_and_complete_as
verify_and_complete_as-Earned w plan id reporting ev exhausted db later = (
  λ a. elim (Option-cases (find? (is_task plan id) db.tasks)) [
    | inl no_task ↦ let (after, e) = a in absurd (ground (arith, no_task, e))
    | inr (t, at_t) ↦ elim (Option-cases (project_dir_for w t.plan_id db)) [
      | inl no_plan ↦ let (after, e) = a in absurd (ground (arith, at_t, no_plan, e))
      | inr (dir, at_dir) ↦ elim (Bool-cases exhausted) [
        | inl over ↦ let (after, e) = a in absurd (ground (arith, at_t, at_dir, over, e))
        | inr lasted ↦
            let (after, e) = a in
            let same =
              recorded w plan id reporting ev exhausted db later t dir at_t at_dir lasted in
            let (met, contained, fresh) =
              (record_verdict_iff w plan id (session_for w reporting t) t dir ev _ later).0
                (after, sym same ∙ e) in
            (
              t,
              at_t,
              (
                dir,
                at_dir,
                lasted,
                (mechanical_acceptance_check_iff w dir _ ev).0 met,
                contained,
                fresh,
              ),
            )
      ]
    ]
  ],
  λ h.
      let (t, at_t, (dir, at_dir, lasted, met, contained, fresh)) = h in
      let (after, e) =
        (record_verdict_iff w plan id (session_for w reporting t) t dir ev _ later).1
          ((mechanical_acceptance_check_iff w dir _ ev).1 met, contained, fresh) in
      (after, recorded w plan id reporting ev exhausted db later t dir at_t at_dir lasted ∙ e),
)
