-- ===== src/Store/Lifecycle/Effects.antt =====
-- What the claims and reports of internal/store/tasks.go do to the rows of the task table, by the
-- diagram of `Lifecycle`.
use radioactive_ralph.Prelude.{
  ℕ, ◌≡◌, refl, sym, ap, subst, String, Bool, true, &&_true, List, find?-some, inl, inr,
  text_eq_sound, arith,
}
use radioactive_ralph.Store.Schema.{
  Task, done, pending, blocked, EventPayload, Db, ok, is_claimable, is_task, update_where,
}
use radioactive_ralph.Store.Queries.{is_owned}
use radioactive_ralph.Store.Tasks.{
  claim_task, claim_next_ready, claim_row, claim_db, claimed_by, is_claimable_task, mark_done,
  mark_failed, release_claim, mark_blocked, approve_task, unclaimed, requeued, failed_terminally,
  awaits_approval, approved,
}
use radioactive_ralph.Store.Tasks.Reports.{
  Reported, mark_done-ok, mark_failed-ok, release_claim-ok, mark_blocked-ok, approve_task-cases,
}
use radioactive_ralph.Store.Exclusive.Claims.{
  claim_row-ok, claim_row-read, claim_task-ok, claim_next_ready-ok,
}
use radioactive_ralph.Store.Lifecycle.{
  Move, claims, completes, fails, releases, stops, approves, Row, Pointwise, Pointwise-refl,
  update-Pointwise, may_move_refl, claim-may_move,
}

abbrev pub Follows : Move → Db → Db → Type 0
Follows m db after = Pointwise (Row m) db.tasks after.tasks

Row-refl : (m : Move) (t : Task) → Row m t t
Row-refl m t = (refl, refl, refl, may_move_refl m t)

pub Follows-refl : (m : Move) (db : Db) → Follows m db db
Follows-refl m db = Pointwise-refl (Row-refl m) db.tasks

-- An update of the task table whose change moves a row along an arrow.
pub update-Follows :
    (m : Move) (test : Task → Bool) (change : Task → Task) (db after : Db)
    → ((t : Task) → test t ≡ true → Row m t (change t))
    → update_where test change db.tasks ≡ after.tasks
    → Follows m db after
update-Follows m test change db after moves same =
    subst (λ ts. Pointwise (Row m) db.tasks ts) {y = after.tasks} same
      (update-Pointwise test change (Row-refl m) moves db.tasks)

pub same_tasks-Follows : (m : Move) (db after : Db) → db.tasks ≡ after.tasks → Follows m db after
same_tasks-Follows m db after same =
    subst (λ ts. Pointwise (Row m) db.tasks ts) {y = after.tasks} same (Follows-refl m db)

claim_row-Follows :
    (plan id session worker : String) (t : Task) (db after : Db)
    → claim_row plan id session worker db ≡ ok (t, after)
    → Follows (claims plan id) db after
claim_row-Follows plan id session worker t db after e =
    update-Follows (claims plan id) (is_claimable_task plan id) (claimed_by session worker) db after
      (λ u hit.
        let (key, free) = &&_true (is_task plan id u) (is_claimable u.status) hit in
        (refl, refl, refl, claim-may_move plan id u key free))
      (ap (λ (d : Db). d.tasks) (sym (claim_row-ok plan id session worker db after t e)))

pub claim_task-Follows :
    (plan id session worker : String) (t : Task) (db after : Db)
    → claim_task plan id session worker db ≡ ok (t, after)
    → Follows (claims plan id) db after
claim_task-Follows plan id session worker t db after e =
    let (_, _, row) = claim_task-ok plan id session worker t db after e in
    claim_row-Follows plan id session worker t db after row

-- The claim of the next task is a claim of the task that it returns.
pub claim_next_ready-Follows :
    (plan session worker : String) (t : Task) (db after : Db)
    → claim_next_ready plan session worker db ≡ ok (t, after)
    → Follows (claims plan t.id) db after
claim_next_ready-Follows plan session worker t db after e =
    let (u, _, _, _, _, row) = claim_next_ready-ok plan session worker t db after e in
    let (_, named) =
      find?-some (is_task plan u.id) (claim_db plan u.id session worker db).tasks
        (claim_row-read plan u.id session worker db after t row) in
    let same : t.id ≡ u.id = text_eq_sound (&&_true _ _ named).1 in
    rw same (claim_row-Follows plan u.id session worker t db after row)

-- A report changes only what a running row says of its state.
Reported-Follows :
    (m : Move) (plan id session : String) (change : Task → Task) (db after : Db)
    → ((t : Task) → is_owned plan id session t ≡ true → Row m t (change t))
    → Reported plan id session change db after
    → Follows m db after
Reported-Follows m plan id session change db after moves (e, same) =
    update-Follows m (is_owned plan id session) change db after moves
      (ap (λ (x : Db). x.tasks) same)

pub mark_done-Follows :
    (plan id session evidence : String) (next : List Task) (db after : Db)
    → mark_done plan id session evidence db ≡ ok (next, after)
    → Follows (completes plan id session) db after
mark_done-Follows plan id session evidence next db after e =
    Reported-Follows (completes plan id session) plan id session (unclaimed done) db after
      (λ t mine. (refl, refl, refl, ground (arith, mine)))
      (mark_done-ok plan id session evidence next db after e).1

pub mark_failed-Follows :
    (plan id session : String) (p : EventPayload) (max_retries : ℕ) (again : Bool) (db after : Db)
    → mark_failed plan id session p max_retries db ≡ ok (again, after)
    → Follows (fails plan id session) db after
mark_failed-Follows plan id session p max_retries again db after e =
    let (t, fresh, way) = mark_failed-ok plan id session p max_retries again db after e in
    elim way [
      | inl (_, _, r) ↦
          Reported-Follows (fails plan id session) plan id session requeued db after
            (λ u mine. (refl, refl, refl, ground (arith, mine))) r
      | inr (_, _, r) ↦
          Reported-Follows (fails plan id session) plan id session
            (failed_terminally p.failure_category) db after
            (λ u mine. (refl, refl, refl, ground (arith, mine))) r
    ]

pub release_claim-Follows :
    (plan id session reason : String) (db after : Db)
    → release_claim plan id session reason db ≡ ok after
    → Follows (releases plan id session) db after
release_claim-Follows plan id session reason db after e =
    Reported-Follows (releases plan id session) plan id session (unclaimed pending) db after
      (λ t mine. (refl, refl, refl, ground (arith, mine)))
      (release_claim-ok plan id session reason db after e).1

pub mark_blocked-Follows :
    (plan id session : String) (p : EventPayload) (db after : Db)
    → mark_blocked plan id session p db ≡ ok after
    → Follows (stops plan id session) db after
mark_blocked-Follows plan id session p db after e =
    Reported-Follows (stops plan id session) plan id session (unclaimed blocked) db after
      (λ t mine. (refl, refl, refl, ground (arith, mine)))
      (mark_blocked-ok plan id session p db after e).1

pub approve_task-Follows :
    (plan id : String) (db : Db) → Follows (approves plan id) db (approve_task plan id db).2
approve_task-Follows plan id db = elim (approve_task-cases plan id db) [
  | inl same ↦ rw same (Follows-refl (approves plan id) db)
  | inr moved ↦ rw moved (
      update-Follows (approves plan id) (awaits_approval plan id) approved db
        (record db { tasks = update_where (awaits_approval plan id) approved db.tasks })
        (λ t hit. (refl, refl, refl, ground (arith, hit))) refl)
]
