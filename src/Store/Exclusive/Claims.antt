-- ===== src/Store/Exclusive/Claims.antt =====
-- Both claims of internal/store/tasks.go and claim.go, and the outputs of running tasks.
use radioactive_ralph.Prelude.{
  ◌≡◌, sym, ◌∙◌, String, true, false, ◌&&◌, &&_true, Bool-cases, List, Memᴰ, any, any-intro,
  any-false, some, Option-cases, find?, find?-none, mem-first_by, mem-filterb, not-true, ◌⊎◌, inl,
  inr, arith, text_eq, text_eq_sound, text_eq_complete,
}
use radioactive_ralph.Store.Schema.{Task, Reservation, Db, ok, is_task, update_where}
use radioactive_ralph.Store.Queries.{
  same_project, is_held, conflicts, is_conflict, output_reservation_conflict, next_ready, get_task,
  is_ready, claims_first,
}
use radioactive_ralph.Store.Tasks.{
  claim_db, claim_row, claim_task, claim_next_ready, is_claimable_task, claimed_by, is_named_ready,
}
use radioactive_ralph.Store.Exclusive.{Exclusive, runs, any_update_cases, same_project_sym}

-- No path of the task is reserved by a running peer.
abbrev pub Unopposed : Db → String → String → Type 0
Unopposed db plan id = any (is_conflict db plan id) db.outputs ≡ false

runs-claim :
    (plan id session worker p i : String) (tasks : List Task)
    → runs p i (update_where (is_claimable_task plan id) (claimed_by session worker) tasks) ≡ true
    → (runs p i tasks ≡ true) ⊎ ((p ≡ plan) × (i ≡ id))
runs-claim plan id session worker p i tasks h =
    elim (any_update_cases _ (is_claimable_task plan id) (claimed_by session worker) tasks h) [
      | inl before ↦ inl before
      | inr (t, hit, now) ↦
          let (mine, _) = &&_true (is_task plan id t) _ hit in
          let (asked, _) = &&_true (is_task p i t) _ now in
          let (a, b) = &&_true _ _ mine in
          let (c, d) = &&_true _ _ asked in
          inr (sym (text_eq_sound c) ∙ text_eq_sound a, sym (text_eq_sound d) ∙ text_eq_sound b)
    ]

-- The peer of an unopposed task does not hold its path, unless it is the task itself.
Unopposed-peer :
    (plan id : String) (db : Db)
    → Unopposed db plan id
    → (mine theirs : Reservation) → Memᴰ mine db.outputs
    → Memᴰ theirs db.outputs
    → (mine.plan_id ≡ plan) × (mine.task_id ≡ id)
    → mine.path ≡ theirs.path
    → same_project db mine.plan_id theirs.plan_id ≡ true
    → is_held db theirs ≡ true
    → (mine.plan_id ≡ theirs.plan_id) × (mine.task_id ≡ theirs.task_id)
Unopposed-peer plan id db free mine theirs m t (here_plan, here_task) path same held =
    elim (Bool-cases (text_eq theirs.plan_id mine.plan_id && text_eq theirs.task_id mine.task_id)) [
      | inl both ↦ let (a, b) = &&_true _ _ both in (sym (text_eq_sound a), sym (text_eq_sound b))
      | inr other ↦
          let against : conflicts db mine theirs ≡ true =
            ground (arith, text_eq_complete (sym path), other, same, held) in
          let hit : is_conflict db plan id mine ≡ true = ground (
            arith,
            text_eq_complete here_plan,
            text_eq_complete here_task,
            any-intro (conflicts db mine) t against,
          ) in
          absurd (ground (arith, any-false (is_conflict db plan id) free m))
    ]

-- The commit of a claim that nothing opposed.
pub claim_db-Exclusive :
    (plan id session worker : String) (db : Db)
    → Unopposed db plan id
    → Exclusive db
    → Exclusive (claim_db plan id session worker db)
claim_db-Exclusive plan id session worker db free safe mine theirs m t path same held held' =
    elim (runs-claim plan id session worker mine.plan_id mine.task_id db.tasks held) [
      | inr ours ↦
          elim (runs-claim plan id session worker theirs.plan_id theirs.task_id db.tasks held') [
            | inr also ↦ (ours.0 ∙ sym also.0, ours.1 ∙ sym also.1)
            | inl old ↦ Unopposed-peer plan id db free mine theirs m t ours path same old
          ]
      | inl before ↦
          elim (runs-claim plan id session worker theirs.plan_id theirs.task_id db.tasks held') [
            | inl old ↦ safe mine theirs m t path same before old
            | inr also ↦
                let (a, b) =
                  Unopposed-peer plan id db free theirs mine t m also (sym path)
                    (same_project_sym db mine.plan_id theirs.plan_id same) before in
                (sym a, sym b)
          ]
    ]

-- A claim that succeeds commits `claim_db`, and returns a row that it wrote.
pub claim_row-ok :
    (plan id session worker : String) (db after : Db) (t : Task)
    → claim_row plan id session worker db ≡ ok (t, after)
    → after ≡ claim_db plan id session worker db
unfolding claim_row
claim_row-ok plan id session worker db after t e = ground (arith, e)

-- A claim of a named task that succeeds was unopposed.
pub claim_task-ok :
    (plan id session worker : String) (t : Task) (db after : Db)
    → claim_task plan id session worker db ≡ ok (t, after)
    → (any (is_named_ready db plan id) db.tasks ≡ true)
      × Unopposed db plan id
      × (claim_row plan id session worker db ≡ ok (t, after))
unfolding claim_task output_reservation_conflict
claim_task-ok plan id session worker t db after e =
    elim (Bool-cases (any (is_named_ready db plan id) db.tasks)) [
      | inr late ↦ absurd (ground (arith, late))
      | inl named ↦ elim (Option-cases (find? (is_conflict db plan id) db.outputs)) [
        | inr (r, opposed) ↦ absurd (ground (arith, named, opposed))
        | inl free ↦ (
          named,
          find?-none (is_conflict db plan id) db.outputs free,
          ground (arith, named, free, e),
        )
      ]
    ]

pub claim_next_ready-ok :
    (plan session worker : String) (t : Task) (db after : Db)
    → claim_next_ready plan session worker db ≡ ok (t, after)
    → (u : Task) × Memᴰ u db.tasks
      × (is_ready db plan u ≡ true)
      × Unopposed db plan u.id
      × (next_ready plan db ≡ some u)
      × (claim_row plan u.id session worker db ≡ ok (t, after))
unfolding claim_next_ready next_ready
claim_next_ready-ok plan session worker t db after e = elim (Option-cases (next_ready plan db)) [
  | inl idle ↦ absurd (ground (arith, idle))
  | inr (u, next) ↦
      let (m, q) = mem-filterb _ db.tasks (mem-first_by claims_first _ next) in
      let (ready, free) = &&_true _ _ q in
      (u, m, ready, not-true _ free, next, ground (arith, next, e))
]

-- The row that a claim returns is read back after the commit.
pub claim_row-read :
    (plan id session worker : String) (db after : Db) (t : Task)
    → claim_row plan id session worker db ≡ ok (t, after)
    → find? (is_task plan id) (claim_db plan id session worker db).tasks ≡ some t
unfolding claim_row get_task
claim_row-read plan id session worker db after t e =
    elim (Option-cases (find? (is_task plan id) (claim_db plan id session worker db).tasks)) [
      | inl gone ↦ absurd (ground (arith, e, gone))
      | inr (u, there) ↦ ground (arith, e, there)
    ]
