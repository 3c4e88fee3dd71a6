-- ===== src/Store/Exclusive.antt =====
-- Exclusive outputs: what internal/store/output_reservation.go promises of the paths that running
-- tasks have reserved, as a predicate and as a test.
pub mod Claims
pub mod Still
pub mod Service
pub mod Runs
pub mod Plans
pub mod Graphs
pub mod Status
pub mod Deletion
pub mod Histories
use radioactive_ralph.Prelude.{
  ◌≡◌, sym, ap, ◌∙◌, String, Bool, true, false, not, ◌&&◌, &&_true, &&_intro, Bool-cases, List, [],
  ◌∷◌, Memᴰ, all, all-mem, any, any-intro, any-witness, ◌⊎◌, inl, inr, arith, text_eq,
  text_eq_sound, text_eq_complete,
}
use radioactive_ralph.Store.Schema.{
  PlanRow, Task, Reservation, Db, is_running, is_task, update_where,
}
use radioactive_ralph.Store.Queries.{same_project, is_held, conflicts}

-- Two reservations of one path, in plans of one project, that running tasks hold are of one task.
abbrev pub Exclusive : Db → Type 0
Exclusive db =
    (mine theirs : Reservation)
    → Memᴰ mine db.outputs
    → Memᴰ theirs db.outputs
    → mine.path ≡ theirs.path
    → same_project db mine.plan_id theirs.plan_id ≡ true
    → is_held db mine ≡ true
    → is_held db theirs ≡ true
    → (mine.plan_id ≡ theirs.plan_id) × (mine.task_id ≡ theirs.task_id)

abbrev pub runs : String → String → List Task → Bool
runs plan id tasks = any (λ t. is_task plan id t && is_running t.status) tasks

-- No task starts to run.
abbrev pub Quiet : List Task → List Task → Type 0
Quiet before after = (p i : String) → runs p i after ≡ true → runs p i before ≡ true

-- What satisfies a test after an update did so before it, or was changed.
pub any_update_cases :
    {A : Type 0} (p : A → Bool) (test : A → Bool) (change : A → A) (xs : List A)
    → any p (update_where test change xs) ≡ true
    → (any p xs ≡ true) ⊎ ((x : A) × (test x ≡ true) × (p (change x) ≡ true))
any_update_cases p test change [] e = inl e
any_update_cases p test change (x ∷ xs) e = elim (Bool-cases (test x)) [
  | inl hit ↦ elim (Bool-cases (p (change x))) [
    | inl holds ↦ inr (x, hit, holds)
    | inr fails ↦ elim (any_update_cases p test change xs (ground (arith, hit, fails))) [
      | inl before ↦ inl (ground (arith, before))
      | inr changed ↦ inr changed
    ]
  ]
  | inr miss ↦ elim (Bool-cases (p x)) [
    | inl holds ↦ inl (ground (arith, holds))
    | inr fails ↦ elim (any_update_cases p test change xs (ground (arith, miss, fails))) [
      | inl before ↦ inl (ground (arith, before))
      | inr changed ↦ inr changed
    ]
  ]
]

-- A change that makes no row run keeps the set of running tasks or shrinks it.
pub update-Quiet :
    (test : Task → Bool) (change : Task → Task) (xs : List Task)
    → ((p i : String) (x : Task)
        → test x ≡ true
        → (is_task p i (change x) && is_running (change x).status) ≡ true
        → (is_task p i x && is_running x.status) ≡ true)
    → Quiet xs (update_where test change xs)
update-Quiet test change [] h p i e = e
update-Quiet test change (x ∷ xs) h p i e = elim (Bool-cases (test x)) [
  | inl hit ↦ ground (arith, hit, h p i x hit, update-Quiet test change xs h p i)
  | inr miss ↦ ground (arith, miss, update-Quiet test change xs h p i)
]

pub same_project_sym :
    (db : Db) (p q : String) → same_project db p q ≡ true → same_project db q p ≡ true
same_project_sym db p q h =
    let (m, m_in, e) = any-witness _ db.plans h in
    let (m_p, f) = &&_true _ _ e in
    let (t, t_in, g) = any-witness _ db.plans f in
    let (t_q, same) = &&_true _ _ g in
    any-intro _ t_in
      (&&_intro t_q (any-intro _ m_in (&&_intro m_p (text_eq_complete (sym (text_eq_sound same))))))

-- A statement that starts no task and leaves plans and reservations alone keeps the promise.
pub Quiet-Exclusive :
    (db : Db) (after : Db)
    → db.plans ≡ after.plans
    → db.outputs ≡ after.outputs
    → Quiet db.tasks after.tasks
    → Exclusive db
    → Exclusive after
Quiet-Exclusive db after plans outputs quiet safe mine theirs m t path same held held' =
    safe mine theirs (rw outputs m) (rw outputs t) path (rw plans same)
      (quiet mine.plan_id mine.task_id held) (quiet theirs.plan_id theirs.task_id held')

-- The promise as a test of the table.
abbrev pub is_exclusive : Db → Bool
is_exclusive db =
    all (λ mine. not (is_held db mine && any (conflicts db mine) db.outputs)) db.outputs

-- A database that passes the test keeps the promise.
pub is_exclusive-Exclusive : (db : Db) → is_exclusive db ≡ true → Exclusive db
is_exclusive-Exclusive db h mine theirs m t path same held held' =
    elim (Bool-cases (text_eq theirs.plan_id mine.plan_id && text_eq theirs.task_id mine.task_id)) [
      | inl both ↦ let (a, b) = &&_true _ _ both in (sym (text_eq_sound a), sym (text_eq_sound b))
      | inr other ↦
          let against : conflicts db mine theirs ≡ true =
            ground (arith, text_eq_complete (sym path), other, same, held') in
          let free = all-mem (λ r. not (is_held db r && any (conflicts db r) db.outputs)) h m in
          absurd (ground (arith, free, held, any-intro (conflicts db mine) t against))
    ]
