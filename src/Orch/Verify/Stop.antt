-- ===== src/Orch/Verify/Stop.antt =====
-- The stop gate of internal/orch/verify.go, `CanStopAs`, and the verdict after it.
use radioactive_ralph.Prelude.{
  ◌≡◌, refl, ap, ◌∙◌, String, Bool, true, false, not, ◌||◌, Option, none, some, Option-cases,
  Bool-cases, inl, inr, find?, text_eq, arith,
}
use radioactive_ralph.Plan.Texts.{trim_space}
use radioactive_ralph.Store.Schema.{Task, Db, is_task}
use radioactive_ralph.Store.Tasks.Reports.{owned}
use radioactive_ralph.Orch.Acceptance.{
  Evidence, System, CheckResult, passed, unreadable, rejected, is_blank,
  mechanical_acceptance_check, verify_task_output_containment, project_dir_for,
}
use radioactive_ralph.Orch.Verify.{
  column_text, session_for, no_evidence, stop_answer, verify_and_complete_as, can_stop_as,
}
use radioactive_ralph.Orch.Verify.Earned.{
  Accepts, Met, mechanical_acceptance_check_iff, verify_and_complete_as-Earned,
}

-- What a permission to stop rests on.
abbrev pub Permitted : System → (plan id reporting : String) → (db later : Db) → Type 0
Permitted w plan id reporting db later =
    (t : Task) × (find? (is_task plan id) db.tasks ≡ some t)
    × (text_eq reporting "" ≡ false)
    × ((dir : String) × (project_dir_for w t.plan_id db ≡ some dir)
        × (mechanical_acceptance_check w dir (column_text t.acceptance_json) no_evidence ≡ passed)
        × (verify_task_output_containment w t dir later ≡ none))

stop_answer-yes :
    (c : CheckResult) (escaped : Option String)
    → stop_answer c escaped ≡ some true
    → (c ≡ passed) × (escaped ≡ none)
stop_answer-yes unreadable escaped e = absurd (ground (arith, e))
stop_answer-yes (rejected reason) escaped e = absurd (ground (arith, e))
stop_answer-yes passed none e = (refl, refl)
stop_answer-yes passed (some out) e = absurd (ground (arith, e))

can_stop_as-Permitted :
    (w : System) (plan id reporting : String) (exhausted : Bool) (db later : Db)
    → can_stop_as w plan id reporting exhausted db later ≡ some true
    → Permitted w plan id reporting db later
unfolding can_stop_as
can_stop_as-Permitted w plan id reporting exhausted db later e =
    elim (Option-cases (find? (is_task plan id) db.tasks)) [
      | inl no_task ↦ absurd (ground (arith, no_task, e))
      | inr (t, at_t) ↦
          elim (Bool-cases
            (text_eq reporting "" || not (text_eq (column_text t.claimed_by_session) reporting))) [
              | inl other ↦ absurd (ground (arith, at_t, other, e))
              | inr owner ↦ elim (Option-cases (project_dir_for w t.plan_id db)) [
                | inl no_plan ↦ absurd (ground (arith, at_t, owner, no_plan, e))
                | inr (dir, at_dir) ↦ elim (Bool-cases exhausted) [
                  | inl over ↦ absurd (ground (arith, at_t, owner, at_dir, over, e))
                  | inr lasted ↦
                      let (met, contained) =
                        stop_answer-yes
                          (mechanical_acceptance_check w dir (column_text t.acceptance_json)
                            no_evidence)
                          (verify_task_output_containment w t dir later)
                          (ground (arith, at_t, owner, at_dir, lasted, e)) in
                      (t, at_t, ground (arith, owner), (dir, at_dir, met, contained))
                ]
              ]
            ]
    ]

empty-is_blank : is_blank "" ≡ true
unfolding trim_space
empty-is_blank = refl

-- Without evidence, only mechanical predicates meet an acceptance, and they do so for any evidence.
Met-any :
    (w : System) (dir acceptance : String)
    → Met w dir acceptance no_evidence
    → (is_blank acceptance ≡ false) × ((ev : Evidence) → Met w dir acceptance ev)
Met-any w dir acceptance m = elim m [
  | inl (bare, output) ↦ absurd (ground (arith, output, empty-is_blank))
  | inr (given, rest) ↦ (given, λ ev. inr (given, rest))
]

-- Where the gate lets the owner of a running task stop, the task has an acceptance, and if nothing
-- changes before the provider exits, the verification of any evidence answers that it is done.
pub can_stop_as-Accepts :
    (w : System) (plan id reporting : String) (exhausted : Bool) (db later : Db)
    → can_stop_as w plan id reporting exhausted db later ≡ some true
    → owned plan id reporting later ≡ true
    → ((t : Task) × (find? (is_task plan id) db.tasks ≡ some t)
        × (is_blank (column_text t.acceptance_json) ≡ false))
      × ((ev : Evidence) → Accepts (verify_and_complete_as w plan id reporting ev false db later))
can_stop_as-Accepts w plan id reporting exhausted db later e fresh =
    let (t, at_t, named, (dir, at_dir, met, contained)) =
      can_stop_as-Permitted w plan id reporting exhausted db later e in
    let (given, any_evidence) =
      Met-any w dir (column_text t.acceptance_json) (
        (mechanical_acceptance_check_iff w dir (column_text t.acceptance_json) no_evidence).0
          met) in
    let same : session_for w reporting t ≡ reporting = ground (arith, named) in
    (
      (t, at_t, given),
      λ ev. (verify_and_complete_as-Earned w plan id reporting ev false db later).1 (
        t,
        at_t,
        (
          dir,
          at_dir,
          refl,
          any_evidence ev,
          contained,
          ap (λ s. owned plan id s later) same ∙ fresh,
        ),
      ),
    )
