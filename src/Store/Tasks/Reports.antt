-- ===== src/Store/Tasks/Reports.antt =====
-- What a report of a worker commits: internal/store/tasks.go, `MarkDone` to `MarkBlocked`, and the
-- approval of a task. Each lemma opens one operation, so that the others need not.
use radioactive_ralph.Prelude.{
  ℕ, ◌+◌, ◌≡◌, String, Bool, true, false, Bool-cases, List, any, find?, some, ◌<◌, ◌≤◌,
  Option-cases, ◌⊎◌, inl, inr, leb, arith,
}
use radioactive_ralph.Store.Schema.{
  Task, done, pending, blocked, status_eq, ready_pending_approval, EventPayload, payload, raw,
  Event, Db, ok, is_task, update_where,
}
use radioactive_ralph.Store.Queries.{is_owned}
use radioactive_ralph.Store.Tasks.{
  worker_event, release_event, block_event_kind, mark_done, mark_failed, release_claim,
  mark_blocked, approve_task, unclaimed, report_db, requeued, failed_terminally, awaits_approval,
  approved,
}

abbrev pub owned : String → String → String → Db → Bool
owned plan id session db = any (is_owned plan id session) db.tasks

-- The database after a report: the owned row changed, and one event.
abbrev pub Reported : String → String → String → (Task → Task) → Db → Db → Type 0
Reported plan id session change db after =
    (e : Event) × (report_db plan id session change e db ≡ after)

pub mark_done-ok :
    (plan id session evidence : String) (next : List Task) (db after : Db)
    → mark_done plan id session evidence db ≡ ok (next, after)
    → (owned plan id session db ≡ true) × Reported plan id session (unclaimed done) db after
unfolding mark_done
mark_done-ok plan id session evidence next db after e =
    elim (Bool-cases (owned plan id session db)) [
      | inl fresh ↦ (
        fresh,
        (worker_event plan id "worker.completed" session (raw evidence), ground (arith, fresh, e)),
      )
      | inr stale ↦ absurd (ground (arith, stale))
    ]

pub mark_failed-ok :
    (plan id session : String) (p : EventPayload) (max_retries : ℕ) (again : Bool) (db after : Db)
    → mark_failed plan id session p max_retries db ≡ ok (again, after)
    → (t : Task) × (find? (is_owned plan id session) db.tasks ≡ some t)
      × (((again ≡ true)
            × (t.retry_count < max_retries)
            × Reported plan id session requeued db after)
          ⊎ ((again ≡ false)
              × (max_retries ≤ t.retry_count)
              × Reported plan id session (failed_terminally p.failure_category) db after))
unfolding mark_failed
mark_failed-ok plan id session p max_retries again db after e =
    elim (Option-cases (find? (is_owned plan id session) db.tasks)) [
      | inl stale ↦ absurd (ground (arith, stale))
      | inr (t, fresh) ↦ elim (Bool-cases (leb (t.retry_count + 1) max_retries)) [
        | inl retry ↦ (
          t,
          fresh,
          inl (
            ground (arith, fresh, retry, e),
            ground (arith, retry),
            (
              worker_event plan id "task.failed" session (payload p),
              ground (arith, fresh, retry, e),
            ),
          ),
        )
        | inr spent ↦ (
          t,
          fresh,
          inr (
            ground (arith, fresh, spent, e),
            ground (arith, spent),
            (
              worker_event plan id "task.failed_terminal" session (payload p),
              ground (arith, fresh, spent, e),
            ),
          ),
        )
      ]
    ]

pub release_claim-ok :
    (plan id session reason : String) (db after : Db)
    → release_claim plan id session reason db ≡ ok after
    → (owned plan id session db ≡ true) × Reported plan id session (unclaimed pending) db after
unfolding release_claim
release_claim-ok plan id session reason db after e = elim (Bool-cases (owned plan id session db)) [
  | inl fresh ↦ (fresh, (release_event plan id session reason, ground (arith, fresh, e)))
  | inr stale ↦ absurd (ground (arith, stale))
]

pub mark_blocked-ok :
    (plan id session : String) (p : EventPayload) (db after : Db)
    → mark_blocked plan id session p db ≡ ok after
    → (owned plan id session db ≡ true) × Reported plan id session (unclaimed blocked) db after
unfolding mark_blocked
mark_blocked-ok plan id session p db after e = elim (Bool-cases (owned plan id session db)) [
  | inl fresh ↦ (
    fresh,
    (worker_event plan id (block_event_kind p) session (payload p), ground (arith, fresh, e)),
  )
  | inr stale ↦ absurd (ground (arith, stale))
]

-- An approval changes nothing, or moves the rows that wait for it.
pub approve_task-cases :
    (plan id : String) (db : Db)
    → ((approve_task plan id db).2 ≡ db)
      ⊎ ((approve_task plan id db).2
          ≡ record db { tasks = update_where (awaits_approval plan id) approved db.tasks })
unfolding approve_task
approve_task-cases plan id db = elim (Option-cases (find? (is_task plan id) db.tasks)) [
  | inl missing ↦ inl (ground (arith, missing))
  | inr (t, there) ↦ elim (Bool-cases (status_eq t.status ready_pending_approval)) [
    | inl waits ↦ inr (ground (arith, there, waits))
    | inr other ↦ inl (ground (arith, there, other))
  ]
]
