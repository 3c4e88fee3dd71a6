-- ===== src/Store/Tasks/Claims.antt =====
-- The claim of a named task, internal/store/claim.go: when it succeeds, and the row that comes back.
use radioactive_ralph.Prelude.{
  ◌≡◌, sym, ap, ◌∙◌, subst, String, true, &&_true, Bool-cases, Memᴰ, mem-map, mem-map_inv, any,
  any-intro, any-witness, any-false, find?, find?-none, find?-some, Option-cases, inl, inr, arith,
  if◌then◌else◌, text_eq, text_eq_sound,
}
use radioactive_ralph.Store.Schema.{Task, Db, ok, is_task}
use radioactive_ralph.Store.Queries.{is_conflict, output_reservation_conflict, get_task}
use radioactive_ralph.Store.Tasks.{
  claim_task, claim_row, claim_db, claimed_by, is_claimable_task, is_named_ready,
}
use radioactive_ralph.Store.Exclusive.Claims.{
  Unopposed, claim_row-ok, claim_row-read, claim_task-ok,
}

-- The primary key of the task table.
abbrev pub Keyed : Db → Type 0
Keyed db =
    (t u : Task) → Memᴰ t db.tasks → Memᴰ u db.tasks → t.plan_id ≡ u.plan_id → t.id ≡ u.id → t ≡ u

abbrev pub written_row : String → String → String → String → Task → Task
written_row plan id session worker x =
    if is_claimable_task plan id x then claimed_by session worker x else x

pub written_row-key :
    (plan id session worker : String) (x : Task)
    → ((written_row plan id session worker x).plan_id ≡ x.plan_id)
      × ((written_row plan id session worker x).id ≡ x.id)
written_row-key plan id session worker x = elim (Bool-cases (is_claimable_task plan id x)) [
  | inl hit ↦ (ground (arith, hit), ground (arith, hit))
  | inr miss ↦ (ground (arith, miss), ground (arith, miss))
]

pub is_task-key :
    (plan id : String) (t u : Task)
    → is_task plan id t ≡ true
    → is_task plan id u ≡ true
    → (t.plan_id ≡ u.plan_id) × (t.id ≡ u.id)
is_task-key plan id t u h k =
    let (a, b) = &&_true _ _ h in
    let (c, d) = &&_true _ _ k in
    (text_eq_sound a ∙ sym (text_eq_sound c), text_eq_sound b ∙ sym (text_eq_sound d))

-- The row that a claim of a claimable task reads back.
pub claim_row-row :
    (plan id session worker : String) (db after : Db) (t u : Task)
    → Keyed db
    → Memᴰ u db.tasks
    → is_claimable_task plan id u ≡ true
    → claim_row plan id session worker db ≡ ok (t, after)
    → (t ≡ claimed_by session worker u) × Memᴰ t after.tasks
claim_row-row plan id session worker db after t u keyed m hit e =
    let (there, named) =
      find?-some (is_task plan id) (claim_db plan id session worker db).tasks
        (claim_row-read plan id session worker db after t e) in
    let (x, x_in, written) = mem-map_inv (written_row plan id session worker) db.tasks there in
    let (p, q) = written_row-key plan id session worker x in
    let (a, b) = is_task-key plan id t u named (&&_true (is_task plan id u) _ hit).0 in
    let same : x ≡ u =
      keyed x u x_in m (sym p ∙ (sym (ap (λ (y : Task). y.plan_id) written) ∙ a))
        (sym q ∙ (sym (ap (λ (y : Task). y.id) written) ∙ b)) in
    (
      written ∙ (ap (written_row plan id session worker) same ∙ ground (arith, hit)),
      subst (λ (d : Db). Memᴰ t d.tasks) {y = after}
          (sym (claim_row-ok plan id session worker db after t e)) there,
    )

-- A claim of a named task that succeeds found it pending or ready with every dependency satisfied and
-- no running peer on its outputs, and returns that row as it now stands, running for the claimant.
pub claim_task_sound :
    (plan id session worker : String) (t : Task) (db after : Db)
    → Keyed db
    → claim_task plan id session worker db ≡ ok (t, after)
    → (u : Task) × Memᴰ u db.tasks
      × (is_named_ready db plan id u ≡ true)
      × Unopposed db plan id
      × (t ≡ claimed_by session worker u)
      × Memᴰ t after.tasks
claim_task_sound plan id session worker t db after keyed e =
    let (named, free, row) = claim_task-ok plan id session worker t db after e in
    let (u, m, ready) = any-witness (is_named_ready db plan id) db.tasks named in
    let (same, there) =
      claim_row-row plan id session worker db after t u keyed m
        (&&_true (is_claimable_task plan id u) _ ready).0 row in
    (u, m, ready, free, same, there)

-- A claim of a named task that is ready and unopposed, by a session and a worker with rows of their
-- own, succeeds.
pub claim_task_complete :
    (plan id session worker : String) (u : Task) (db : Db)
    → Memᴰ u db.tasks
    → is_named_ready db plan id u ≡ true
    → Unopposed db plan id
    → any (λ s. text_eq s.id session) db.sessions ≡ true
    → any (λ w. text_eq w.id worker) db.workers ≡ true
    → (t : Task) × (claim_task plan id session worker db
        ≡ ok (t, claim_db plan id session worker db))
unfolding claim_task claim_row get_task output_reservation_conflict
claim_task_complete plan id session worker u db m ready free seated staffed =
    let hit = (&&_true (is_claimable_task plan id u) _ ready).0 in
    let claimable = any-intro (is_claimable_task plan id) m hit in
    let named = any-intro (is_named_ready db plan id) m ready in
    elim (Option-cases (find? (is_conflict db plan id) db.outputs)) [
      | inr (r, opposed) ↦
          let (r_in, q) = find?-some (is_conflict db plan id) db.outputs opposed in
          absurd (ground (arith, any-false (is_conflict db plan id) free r_in, q))
      | inl clear ↦
          elim (Option-cases (find? (is_task plan id) (claim_db plan id session worker db).tasks)) [
            | inr (t, there) ↦ (t, ground (arith, named, clear, claimable, seated, staffed, there))
            | inl gone ↦
                let none_left =
                  find?-none (is_task plan id) (claim_db plan id session worker db).tasks gone in
                let kept = any-false (is_task plan id) none_left (mem-map _ m) in
                absurd (ground (arith, kept, hit))
          ]
    ]
