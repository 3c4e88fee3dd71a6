-- ===== src/Store/Workers/Kill.antt =====
-- The operator's kill of a worker, `ReclaimWorker` of internal/store/workers.go, and its tasks.
use radioactive_ralph.Prelude.{
  ℕ, ◌≡◌, refl, subst, String, true, false, Bool-cases, List, [], ◌∷◌, Memᴰ, mem-map, any, inl, inr,
  ◌⊎◌, arith, if◌then◌else◌,
}
use radioactive_ralph.Store.Schema.{Task, Db, pending, update_where}
use radioactive_ralph.Store.Tasks.{unclaimed}
use radioactive_ralph.Store.Workers.{is_worker, is_held_by, reclaim_worker}

none_held :
    (id : String) (ts : List Task)
    → any (is_held_by id) (update_where (is_held_by id) (unclaimed pending) ts) ≡ false
none_held id [] = refl
none_held id (t ∷ ts) = elim (Bool-cases (is_held_by id t)) [
  | inl hit ↦ ground (arith, hit, none_held id ts)
  | inr miss ↦ ground (arith, miss, none_held id ts)
]

-- A kill of a worker that has a row leaves it no running task, and leaves every task that it did not
-- run as it was.
pub reclaim_worker-tasks :
    (now : ℕ) (id : String) (t : Task) (db : Db)
    → (reclaim_worker now id db).0 ≡ true
    → Memᴰ t db.tasks
    → (any (is_held_by id) (reclaim_worker now id db).1.tasks ≡ false)
      × ((is_held_by id t ≡ true) ⊎ Memᴰ t (reclaim_worker now id db).1.tasks)
unfolding reclaim_worker
reclaim_worker-tasks now id t db found m = elim (Bool-cases (any (is_worker id) db.workers)) [
  | inr missing ↦ absurd (ground (arith, missing, found))
  | inl there ↦
      let made : update_where (is_held_by id) (unclaimed pending) db.tasks
          ≡ (reclaim_worker now id db).1.tasks =
        ground (arith, there) in
      (
        subst (λ ts. any (is_held_by id) ts ≡ false) made (none_held id db.tasks),
        elim (Bool-cases (is_held_by id t)) [
          | inl held ↦ inl held
          | inr other ↦
              let same : (if is_held_by id t then unclaimed pending t else t) ≡ t =
                ground (arith, other) in
              inr (
                subst (Memᴰ t) made (
                  subst (λ u. Memᴰ u (update_where (is_held_by id) (unclaimed pending) db.tasks))
                    same (mem-map _ m)))
        ],
      )
]
