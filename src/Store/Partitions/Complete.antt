-- ===== src/Store/Partitions/Complete.antt =====
-- The partitions of internal/store/ready_partition.go: which tasks they hold, and under which keys.
use radioactive_ralph.Prelude.{
  ◌+◌, ◌≡◌, refl, sym, ap, ◌∙◌, String, Bool, true, &&_true, &&_intro, Bool-cases, Option-cases,
  List, [], ◌∷◌, ◌++◌, map, all, all-append, count, find?, filterb, insert_by, sort_by, text_eq,
  text_eq_sound, text_eq_complete, inl, inr, arith,
}
use radioactive_ralph.Store.Schema.{Task, Db}
use radioactive_ralph.Store.Blocks.{is_row}
use radioactive_ralph.Store.Partitions.{
  ReadyPartition, ReadyRow, ready_row, is_dispatchable, row_le, ready_rows, row_key, partition_key,
  place, place_all, ready_partitions,
}

module _ {A : Type 0} (p : A → Bool) where
  count-append : (xs ys : List A) → count p (xs ++ ys) ≡ count p xs + count p ys
  count-append [] ys = omega arith
  count-append (x ∷ xs) ys = ground (arith, count-append xs ys)

  count-insert_by :
      (le : A → A → Bool) (x : A) (xs : List A) → count p (insert_by le x xs) ≡ count p (x ∷ xs)
  count-insert_by le x [] = refl
  count-insert_by le x (y ∷ ys) = ground (arith, count-insert_by le x ys)

  count-sort_by : (le : A → A → Bool) (xs : List A) → count p (sort_by le xs) ≡ count p xs
  count-sort_by le [] = refl
  count-sort_by le (x ∷ xs) =
      ground (arith, count-insert_by le x (sort_by le xs), count-sort_by le xs)

  all-insert_by :
      (le : A → A → Bool) (x : A) (xs : List A)
      → all p (x ∷ xs) ≡ true
      → all p (insert_by le x xs) ≡ true
  all-insert_by le x [] h = h
  all-insert_by le x (y ∷ ys) h = ground (arith, h, all-insert_by le x ys)

  all-sort_by : (le : A → A → Bool) (xs : List A) → all p xs ≡ true → all p (sort_by le xs) ≡ true
  all-sort_by le [] h = h
  all-sort_by le (x ∷ xs) h =
      let (a, b) = &&_true (p x) (all p xs) h in
      all-insert_by le x (sort_by le xs) (&&_intro a (all-sort_by le xs b))

abbrev pub tasks_of : List ReadyPartition → List Task
tasks_of [] = []
tasks_of (p ∷ ps) = p.tasks ++ tasks_of ps

module _ (binding_of : String → String) (db : Db) where
  count-place :
      (test : Task → Bool) (r : ReadyRow) (ps : List ReadyPartition)
      → count test (tasks_of (place binding_of r ps)) ≡ count test (r.task ∷ tasks_of ps)
  count-place test r [] = refl
  count-place test r (p ∷ ps) = ground (
    arith,
    count-append test (p.tasks ++ r.task ∷ []) (tasks_of ps),
    count-append test p.tasks (r.task ∷ []),
    count-append test p.tasks (tasks_of ps),
    count-append test p.tasks (tasks_of (place binding_of r ps)),
    count-place test r ps,
  )

  count-place_all :
      (test : Task → Bool) (rs : List ReadyRow) (ps : List ReadyPartition)
      → count test (tasks_of (place_all binding_of rs ps))
        ≡ count (λ r. test r.task) rs + count test (tasks_of ps)
  count-place_all test [] ps = omega arith
  count-place_all test (r ∷ rs) ps =
      ground (arith, count-place_all test rs (place binding_of r ps), count-place test r ps)

  row-task : (t : Task) → (ready_row db t).task ≡ t
  row-task t = elim (Option-cases (find? (is_row t.plan_id t.id) db.metadata)) [
    | inl bare ↦ ground (arith, bare)
    | inr (m, there) ↦ ground (arith, there)
  ]

  count-rows :
      (test : Task → Bool) (ts : List Task)
      → count (λ r. test r.task) (map (ready_row db) ts) ≡ count test ts
  count-rows test [] = refl
  count-rows test (t ∷ ts) = ground (arith, ap test (row-task t), count-rows test ts)

  -- Every task of the plan that may be dispatched stands in the partitions, once, and nothing else
  -- does: of any kind of task, the partitions hold as many as there are among the dispatchable ones.
  pub ready_partitions-count :
      (plan : String) (test : Task → Bool)
      → count test (tasks_of (ready_partitions binding_of plan db))
        ≡ count test (filterb (is_dispatchable db plan) db.tasks)
  unfolding ready_partitions ready_rows
  ready_partitions-count plan test =
      let ready = filterb (is_dispatchable db plan) db.tasks in
      omega (
        arith,
        count-place_all test (ready_rows plan db) [],
        count-sort_by (λ (r : ReadyRow). test r.task) row_le (map (ready_row db) ready),
        count-rows test ready,
      )

  -- The task belongs under the key of the partition.
  abbrev pub is_at_home : ReadyPartition → Task → Bool
  is_at_home p t = text_eq (partition_key binding_of p) (row_key binding_of (ready_row db t))

  abbrev pub is_uniform : ReadyPartition → Bool
  is_uniform p = all (is_at_home p) p.tasks

  abbrev is_own_row : ReadyRow → Bool
  is_own_row r = text_eq (row_key binding_of r) (row_key binding_of (ready_row db r.task))

  place-uniform :
      (r : ReadyRow) (ps : List ReadyPartition)
      → is_own_row r ≡ true
      → all is_uniform ps ≡ true
      → all is_uniform (place binding_of r ps) ≡ true
  place-uniform r [] own h = ground (arith, own)
  place-uniform r (p ∷ ps) own h =
      elim (Bool-cases (text_eq (partition_key binding_of p) (row_key binding_of r))) [
        | inl found ↦
            let home : is_at_home p r.task ≡ true = text_eq_complete (
              text_eq_sound {s = partition_key binding_of p} {t = row_key binding_of r} found
              ∙ text_eq_sound {s = row_key binding_of r} own) in
            ground (arith, found, h, home, all-append (is_at_home p) p.tasks (r.task ∷ []))
        | inr other ↦ ground (arith, other, h, place-uniform r ps own)
      ]

  place_all-uniform :
      (rs : List ReadyRow) (ps : List ReadyPartition)
      → all is_own_row rs ≡ true
      → all is_uniform ps ≡ true
      → all is_uniform (place_all binding_of rs ps) ≡ true
  place_all-uniform [] ps own h = h
  place_all-uniform (r ∷ rs) ps own h =
      let (a, b) = &&_true (is_own_row r) (all is_own_row rs) own in
      place_all-uniform rs (place binding_of r ps) b (place-uniform r ps a h)

  own_rows : (ts : List Task) → all is_own_row (map (ready_row db) ts) ≡ true
  own_rows [] = refl
  own_rows (t ∷ ts) =
      &&_intro (text_eq_complete (ap (λ u. row_key binding_of (ready_row db u)) (sym (row-task t))))
        (own_rows ts)

  -- All tasks of one partition have its group path and declared binding, as one key.
  pub ready_partitions-uniform :
      (plan : String) → all is_uniform (ready_partitions binding_of plan db) ≡ true
  unfolding ready_partitions ready_rows
  ready_partitions-uniform plan =
      place_all-uniform (ready_rows plan db) []
        (all-sort_by is_own_row row_le
          (map (ready_row db) (filterb (is_dispatchable db plan) db.tasks))
          (own_rows (filterb (is_dispatchable db plan) db.tasks)))
        refl
