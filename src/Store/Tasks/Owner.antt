-- ===== src/Store/Tasks/Owner.antt =====
-- The guard of every report in internal/store/tasks.go: the session that holds the claim.
use radioactive_ralph.Prelude.{
  ℕ, ◌≡◌, refl, subst, String, Bool, true, false, Bool-cases, List, [], ◌∷◌, Memᴰ, mem-map, any,
  find?, find?-some, any-intro, any-false, Option-cases, inl, inr, ◌⊎◌, arith, if◌then◌else◌,
}
use radioactive_ralph.Store.Schema.{
  Task, done, pending, blocked, EventPayload, Db, not_owned_running, ok, err, is_running,
  update_where,
}
use radioactive_ralph.Store.Queries.{is_owned}
use radioactive_ralph.Store.Tasks.{
  mark_done, mark_failed, release_claim, mark_blocked, unclaimed, requeued, failed_terminally,
}
use radioactive_ralph.Store.Tasks.Reports.{
  owned, Reported, mark_done-ok, mark_failed-ok, release_claim-ok, mark_blocked-ok,
}

-- A report of the session on the task, that was accepted.
pub data Report (plan id session : String) : Db → Db → Type 0 where
  completed :
      (evidence : String) {next : List Task} {db after : Db}
      → mark_done plan id session evidence db ≡ ok (next, after)
      → Report plan id session db after
  failed_once :
      (p : EventPayload) (max_retries : ℕ) {again : Bool} {db after : Db}
      → mark_failed plan id session p max_retries db ≡ ok (again, after)
      → Report plan id session db after
  released :
      (reason : String) {db after : Db}
      → release_claim plan id session reason db ≡ ok after
      → Report plan id session db after
  stopped :
      (p : EventPayload) {db after : Db}
      → mark_blocked plan id session p db ≡ ok after
      → Report plan id session db after

-- A report by a session that does not hold the running task is refused, whichever report it is.
pub stale_report-refused :
    (plan id session evidence reason : String) (p : EventPayload) (max_retries : ℕ) (db : Db)
    → owned plan id session db ≡ false
    → (mark_done plan id session evidence db ≡ err not_owned_running)
      × (mark_failed plan id session p max_retries db ≡ err not_owned_running)
      × (release_claim plan id session reason db ≡ err not_owned_running)
      × (mark_blocked plan id session p db ≡ err not_owned_running)
unfolding mark_done mark_failed release_claim mark_blocked
stale_report-refused plan id session evidence reason p max_retries db stale =
    (ground (arith, stale), failure, ground (arith, stale), ground (arith, stale))
  where
    failure : mark_failed plan id session p max_retries db ≡ err not_owned_running
    failure = elim (Option-cases (find? (is_owned plan id session) db.tasks)) [
      | inl missing ↦ ground (arith, missing)
      | inr (t, fresh) ↦
          let (m, q) = find?-some (is_owned plan id session) db.tasks fresh in
          absurd (ground (arith, any-false (is_owned plan id session) stale m, q))
    ]

stopped_rows :
    (plan id session : String) (change : Task → Task) (ts : List Task)
    → ((t : Task) → is_running (change t).status ≡ false)
    → any (is_owned plan id session) (update_where (is_owned plan id session) change ts) ≡ false
stopped_rows plan id session change [] stops = refl
stopped_rows plan id session change (t ∷ ts) stops =
    elim (Bool-cases (is_owned plan id session t)) [
      | inl mine ↦ ground (arith, mine, stops t, stopped_rows plan id session change ts stops)
      | inr other ↦ ground (arith, other, stopped_rows plan id session change ts stops)
    ]

Report-Reported :
    (plan id session : String) (db after : Db)
    → Report plan id session db after
    → (change : Task → Task) × ((t : Task) → is_running (change t).status ≡ false)
      × (owned plan id session db ≡ true)
      × Reported plan id session change db after
Report-Reported plan id session db after (Report.completed evidence {next} e) =
    let (o, r) = mark_done-ok plan id session evidence next db after e in
    (unclaimed done, λ t. refl, o, r)
Report-Reported plan id session db after (Report.failed_once p max_retries {again} e) =
    let (t, fresh, way) = mark_failed-ok plan id session p max_retries again db after e in
    let (m, q) = find?-some (is_owned plan id session) db.tasks fresh in
    let o = any-intro (is_owned plan id session) m q in
    elim way [
      | inl (_, _, r) ↦ (requeued, λ u. refl, o, r)
      | inr (_, _, r) ↦ (failed_terminally p.failure_category, λ u. refl, o, r)
    ]
Report-Reported plan id session db after (Report.released reason e) =
    let (o, r) = release_claim-ok plan id session reason db after e in
    (unclaimed pending, λ t. refl, o, r)
Report-Reported plan id session db after (Report.stopped p e) =
    let (o, r) = mark_blocked-ok plan id session p db after e in
    (unclaimed blocked, λ t. refl, o, r)

-- A claim is reported once: after any accepted report, the session that made it is refused every
-- further report on that task.
pub report_once :
    (plan id session evidence reason : String) (p : EventPayload) (max_retries : ℕ) (db after : Db)
    → Report plan id session db after
    → (mark_done plan id session evidence after ≡ err not_owned_running)
      × (mark_failed plan id session p max_retries after ≡ err not_owned_running)
      × (release_claim plan id session reason after ≡ err not_owned_running)
      × (mark_blocked plan id session p after ≡ err not_owned_running)
report_once plan id session evidence reason p max_retries db after report =
    let (change, stops, _, (e, same)) = Report-Reported plan id session db after report in
    stale_report-refused plan id session evidence reason p max_retries after (
      subst (λ d. owned plan id session d ≡ false) {y = after} same
        (stopped_rows plan id session change db.tasks stops))

-- An accepted report was made by the holder of a running task, and leaves every row but the one that
-- the session holds under that key, the edges, the reservations, the sessions and the workers as they
-- were.
pub Report-owner :
    (plan id session : String) (db after : Db) (t : Task)
    → Report plan id session db after
    → Memᴰ t db.tasks
    → (owned plan id session db ≡ true)
      × (after.deps ≡ db.deps)
      × (after.outputs ≡ db.outputs)
      × (after.sessions ≡ db.sessions)
      × (after.workers ≡ db.workers)
      × ((is_owned plan id session t ≡ true) ⊎ Memᴰ t after.tasks)
Report-owner plan id session db after t report m =
    let (change, stops, mine, (e, same)) = Report-Reported plan id session db after report in
    (
      mine,
      ground (arith, same),
      ground (arith, same),
      ground (arith, same),
      ground (arith, same),
      elim (Bool-cases (is_owned plan id session t)) [
        | inl held ↦ inl held
        | inr other ↦ inr (
            subst (λ (d : Db). Memᴰ t d.tasks) {y = after} same
              (subst (λ u. Memᴰ u (update_where (is_owned plan id session) change db.tasks))
                (unchanged change t other) (mem-map _ m)))
      ],
    )
  where
    unchanged :
        (change : Task → Task) (t : Task)
        → is_owned plan id session t ≡ false
        → (if is_owned plan id session t then change t else t) ≡ t
    unchanged change t other = ground (arith, other)
