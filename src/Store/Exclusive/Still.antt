-- ===== src/Store/Exclusive/Still.antt =====
-- Statements of internal/store/tasks.go that leave plans and reservations alone and start no task.
use radioactive_ralph.Prelude.{ℕ, ◌≡◌, refl, ◌∙◌, subst, String, Bool, false, List, inl, inr, arith}
use radioactive_ralph.Store.Schema.{
  Task, done, pending, blocked, EventPayload, Db, ok, is_running, update_where,
}
use radioactive_ralph.Store.Queries.{is_owned}
use radioactive_ralph.Store.Tasks.{
  mark_done, mark_failed, release_claim, mark_blocked, approve_task, unclaimed, requeued,
  failed_terminally, awaits_approval, approved,
}
use radioactive_ralph.Store.Tasks.Reports.{
  Reported, mark_done-ok, mark_failed-ok, release_claim-ok, mark_blocked-ok, approve_task-cases,
}
use radioactive_ralph.Store.Exclusive.{Quiet, update-Quiet}

abbrev pub Still : Db → Db → Type 0
Still db after =
    (db.plans ≡ after.plans) × (db.outputs ≡ after.outputs) × Quiet db.tasks after.tasks

pub Still-refl : (db : Db) → Still db db
Still-refl db = (refl, refl, λ p i h. h)

pub Still-trans : (a b c : Db) → Still a b → Still b c → Still a c
Still-trans a b c (p, o, q) (p', o', q') = (p ∙ p', o ∙ o', λ n i h. q n i (q' n i h))

Reported-Still :
    (plan id session : String) (change : Task → Task) (db after : Db)
    → ((t : Task) → is_running (change t).status ≡ false)
    → Reported plan id session change db after
    → Still db after
Reported-Still plan id session change db after stops (e, same) =
    subst (λ d. Still db d) {y = after} same
      (
        refl,
        refl,
        update-Quiet (is_owned plan id session) change db.tasks
            (λ p i x hit h. absurd (ground (arith, stops x))),
      )

pub mark_done-Still :
    (plan id session evidence : String) (next : List Task) (db after : Db)
    → mark_done plan id session evidence db ≡ ok (next, after)
    → Still db after
mark_done-Still plan id session evidence next db after e =
    Reported-Still plan id session (unclaimed done) db after (λ t. refl)
      (mark_done-ok plan id session evidence next db after e).1

pub mark_failed-Still :
    (plan id session : String) (p : EventPayload) (max_retries : ℕ) (again : Bool) (db after : Db)
    → mark_failed plan id session p max_retries db ≡ ok (again, after)
    → Still db after
mark_failed-Still plan id session p max_retries again db after e =
    let (t, fresh, way) = mark_failed-ok plan id session p max_retries again db after e in
    elim way [
      | inl (_, _, r) ↦ Reported-Still plan id session requeued db after (λ u. refl) r
      | inr (_, _, r) ↦
          Reported-Still plan id session (failed_terminally p.failure_category) db after (λ u. refl)
            r
    ]

pub release_claim-Still :
    (plan id session reason : String) (db after : Db)
    → release_claim plan id session reason db ≡ ok after
    → Still db after
release_claim-Still plan id session reason db after e =
    Reported-Still plan id session (unclaimed pending) db after (λ t. refl)
      (release_claim-ok plan id session reason db after e).1

pub mark_blocked-Still :
    (plan id session : String) (p : EventPayload) (db after : Db)
    → mark_blocked plan id session p db ≡ ok after
    → Still db after
mark_blocked-Still plan id session p db after e =
    Reported-Still plan id session (unclaimed blocked) db after (λ t. refl)
      (mark_blocked-ok plan id session p db after e).1

-- An update whose new status does not run.
pub stopping-Still :
    (test : Task → Bool) (change : Task → Task) (db after : Db)
    → ((t : Task) → is_running (change t).status ≡ false)
    → db.plans ≡ after.plans
    → db.outputs ≡ after.outputs
    → update_where test change db.tasks ≡ after.tasks
    → Still db after
stopping-Still test change db after stops p o same = (
  p,
  o,
  subst (Quiet db.tasks) {y = after.tasks} same
      (update-Quiet test change db.tasks (λ n i x hit h. absurd (ground (arith, stops x)))),
)

pub approve_task-Still : (plan id : String) (db : Db) → Still db (approve_task plan id db).2
approve_task-Still plan id db = elim (approve_task-cases plan id db) [
  | inl same ↦ rw same (Still-refl db)
  | inr moved ↦ rw moved (
      stopping-Still (awaits_approval plan id) approved db
        (record db { tasks = update_where (awaits_approval plan id) approved db.tasks }) (λ t. refl)
        refl refl refl)
]
