-- ===== src/Provider/Retries.antt =====
-- How the classification of internal/provider/failure.go and the retry count of
-- internal/store/tasks.go decide together whether a failed turn runs again.
use radioactive_ralph.Prelude.{
  ℕ, ◌<◌, ◌≤◌, ◌≡◌, refl, sym, ap, ◌∙◌, subst, String, Bool, true, false, ◌&&◌, &&_true, Bool-cases,
  List, [], ◌∷◌, Memᴰ, find?, find?-some, some, none, mem-map, null_if_empty, ◌+◌, all, inl, inr,
  if◌then◌else◌, ltb, leb, text_eq_sound, arith,
}
use radioactive_ralph.Provider.Failure.{Failure, category_name, retryable, retry_budget}
use radioactive_ralph.Store.Schema.{
  Task, pending, failed, EventPayload, empty_payload, Db, ok, is_task, update_where,
}
use radioactive_ralph.Store.Queries.{is_owned}
use radioactive_ralph.Store.Tasks.{mark_failed, requeued, failed_terminally}
use radioactive_ralph.Store.Tasks.Reports.{Reported, mark_failed-ok}
use radioactive_ralph.Store.Tasks.Claims.{Keyed}

-- The report that the orchestrator makes of a failed turn.
abbrev pub failure_payload : Failure → EventPayload
failure_payload f = record empty_payload {
  reason = f.summary;
  failure_category = category_name f.category;
}

retried :
    (worth again : Bool) (n configured : ℕ)
    → again ≡ true
    → n < (if worth then configured else 0)
    → again ≡ (worth && ltb n configured)
retried true again n configured a b = ground arith
retried false again n configured a b = absurd (omega arith)

ended :
    (worth again : Bool) (n configured : ℕ)
    → again ≡ false
    → (if worth then configured else 0) ≤ n
    → again ≡ (worth && ltb n configured)
ended true again n configured a b = ground arith
ended false again n configured a b = a

-- The row of a failed turn: queued again with one more retry counted, or failed with its category.
abbrev pub Settled : (again : Bool) → Failure → Task → Task → Type 0
Settled again f t u =
    (u.plan_id ≡ t.plan_id)
    × (u.id ≡ t.id)
    × (u.status ≡ (if again then pending else failed))
    × (u.retry_count ≡ (if again then t.retry_count + 1 else t.retry_count))
    × (u.claimed_by_session ≡ none)
    × (u.claimed_by_worker_id ≡ none)
    × (u.failure_category ≡ (if again then none else null_if_empty (category_name f.category)))

Reported-mem :
    (plan id session : String) (change : Task → Task) (db after : Db) (t : Task)
    → Memᴰ t db.tasks
    → is_owned plan id session t ≡ true
    → Reported plan id session change db after
    → Memᴰ (change t) after.tasks
Reported-mem plan id session change db after t m mine (e, same) =
    let changed : (if is_owned plan id session t then change t else t) ≡ change t = rw mine refl in
    subst (λ (d : Db). Memᴰ (change t) d.tasks) {y = after} same
      (subst (λ u. Memᴰ u (update_where (is_owned plan id session) change db.tasks)) changed
        (mem-map _ m))

-- After the report of a failed turn, the row that the session held is queued again, with one more
-- retry counted, if the failure is worth a retry and the task has retries left of the configured
-- number, and is failed with the category of the failure if not; either way no session or worker
-- holds it, and the report tells which of the two it was.
pub mark_failed-retry_budget :
    (plan id session : String) (f : Failure) (configured : ℕ) (again : Bool) (db after : Db)
    → mark_failed plan id session (failure_payload f) (retry_budget f configured) db
      ≡ ok (again, after)
    → (t : Task) × (find? (is_owned plan id session) db.tasks ≡ some t)
      × (again ≡ (retryable f.category && ltb t.retry_count configured))
      × ((u : Task) × Memᴰ u after.tasks × Settled again f t u)
unfolding retry_budget
mark_failed-retry_budget plan id session f configured again db after e =
    let (t, fresh, way) =
      mark_failed-ok plan id session (failure_payload f) (retry_budget f configured) again db after
        e in
    let (m, mine) = find?-some (is_owned plan id session) db.tasks fresh in
    elim way [
      | inl (a, b, r) ↦ (
        t,
        fresh,
        retried (retryable f.category) again t.retry_count configured a b,
        (
          requeued t,
          Reported-mem plan id session requeued db after t m mine r,
          rw a (refl, refl, refl, refl, refl, refl, refl),
        ),
      )
      | inr (a, b, r) ↦ (
        t,
        fresh,
        ended (retryable f.category) again t.retry_count configured a b,
        (
          failed_terminally (category_name f.category) t,
          Reported-mem plan id session (failed_terminally (category_name f.category)) db after t m
              mine r,
          rw a (refl, refl, refl, refl, refl, refl, refl),
        ),
      )
    ]

all_update :
    {A : Type 0} (p test : A → Bool) (change : A → A) (xs : List A)
    → ((x : A) → Memᴰ x xs → p x ≡ true → test x ≡ true → p (change x) ≡ true)
    → all p xs ≡ true
    → all p (update_where test change xs) ≡ true
all_update p test change [] h e = refl
all_update p test change (x ∷ xs) h e =
    let (a, b) = &&_true (p x) (all p xs) e in
    let rest = all_update p test change xs (λ y m. h y (Memᴰ.tail m)) b in
    elim (Bool-cases (test x)) [
      | inl hit ↦ ground (arith, hit, h x (Memᴰ.head refl) a hit, rest)
      | inr miss ↦ ground (arith, miss, a, rest)
    ]

owned-key :
    (plan id session : String) (t : Task)
    → is_owned plan id session t ≡ true
    → (t.plan_id ≡ plan) × (t.id ≡ id)
owned-key plan id session t h =
    let (a, _) = &&_true _ _ h in
    let (b, _) = &&_true (is_task plan id t) _ a in
    let (c, d) = &&_true _ _ b in (text_eq_sound c, text_eq_sound d)

-- Whatever budgets reports of failures bring, a task's retry count does not pass `most`, if it did not
-- before, the budgets do not, and task keys are unique.
pub mark_failed-retries :
    (plan id session : String) (p : EventPayload) (max_retries most : ℕ) (again : Bool)
    (db after : Db)
    → Keyed db
    → max_retries ≤ most
    → all (λ t. leb t.retry_count most) db.tasks ≡ true
    → mark_failed plan id session p max_retries db ≡ ok (again, after)
    → all (λ t. leb t.retry_count most) after.tasks ≡ true
mark_failed-retries plan id session p max_retries most again db after keyed fits low e =
    let (t, found, way) = mark_failed-ok plan id session p max_retries again db after e in
    let (t_in, mine) = find?-some (is_owned plan id session) db.tasks found in
    let same = λ (x : Task) (m : Memᴰ x db.tasks) (q : is_owned plan id session x ≡ true).
      keyed x t m t_in
        ((owned-key plan id session x q).0 ∙ sym (owned-key plan id session t mine).0)
        ((owned-key plan id session x q).1 ∙ sym (owned-key plan id session t mine).1) in
    elim way [
      | inl (_, left, (event, made)) ↦
          subst (λ (d : Db). all (λ u. leb u.retry_count most) d.tasks ≡ true) {y = after} made
            (all_update (λ u. leb u.retry_count most) (is_owned plan id session) requeued db.tasks
              (λ x m low_x q.
                let count = ap (λ (u : Task). u.retry_count) (same x m q) in
                ground (arith, count, left, fits))
              low)
      | inr (_, _, (event, made)) ↦
          subst (λ (d : Db). all (λ u. leb u.retry_count most) d.tasks ≡ true) {y = after} made
            (all_update (λ u. leb u.retry_count most) (is_owned plan id session)
              (failed_terminally p.failure_category) db.tasks (λ x m low_x q. low_x) low)
    ]
