-- ===== src/Store/Exclusive/Plans.antt =====
-- Exclusive outputs while plans come and go: internal/store/plans.go, plan_delete.go, plan_graph.go and
-- output_reservation.go.
use mathlib.Core.List.Memᴰ
use radioactive_ralph.Prelude.{
  ℕ, ◌≡◌, refl, sym, ap, ◌∙◌, subst, String, Bool, true, false, ◌&&◌, ◌||◌, &&_true, &&_intro,
  Bool-cases, List, [], ◌∷◌, ◌++◌, Memᴰ, all, all-mem, all-append, any, any-intro, any-witness,
  any-append, any-false, inl, inr, arith, text_eq, text_eq_sound, text_eq_refl,
}
use radioactive_ralph.Store.Schema.{
  PlanRow, PlanStatus, Task, Dep, Reservation, Db, Result, ok, is_running, is_task, update_where,
  active,
}
use radioactive_ralph.Store.Queries.{same_project}
use radioactive_ralph.Store.Tasks.{CreateTaskOpts, create_task, new_task}
use radioactive_ralph.Store.Plans.{CreatePlanOpts, is_plan, create_plan, reserve_task_output}
use radioactive_ralph.Store.Exclusive.{Exclusive, Quiet-Exclusive, runs}

-- The plan has a row.
abbrev pub has_plan : String → Db → Bool
has_plan id db = any (is_plan id) db.plans

-- Every reservation is of a plan that has a row.
abbrev pub is_planned : Db → Bool
is_planned db = all (λ r. has_plan r.plan_id db) db.outputs

abbrev pub Sound : Db → Type 0
Sound db = Exclusive db × (is_planned db ≡ true)

-- A new plan row joins no two old plans to one project.
same_project-grown :
    (db : Db) (row : PlanRow) (p q : String)
    → any (is_plan row.id) db.plans ≡ false
    → has_plan p db ≡ true
    → has_plan q db ≡ true
    → same_project (record db { plans = db.plans ++ row ∷ [] }) p q ≡ true
    → same_project db p q ≡ true
same_project-grown db row p q fresh p_old q_old h =
    let (m, m_in, e) = any-witness _ (db.plans ++ row ∷ []) h in
    let (m_p, f) = &&_true (text_eq m.id p) _ e in
    let (t, t_in, g) = any-witness _ (db.plans ++ row ∷ []) f in
    let (t_q, same) = &&_true (text_eq t.id q) _ g in
    any-intro _ (old m p m_in m_p p_old)
      (&&_intro m_p (any-intro _ (old t q t_in t_q q_old) (&&_intro t_q same)))
  where
    only : (x : PlanRow) → Memᴰ x (row ∷ []) → x ≡ row
    only x (Memᴰ.head e) = e
    only x (Memᴰ.tail m) = elim m [ ]

    old :
        (x : PlanRow) (k : String)
        → Memᴰ x (db.plans ++ row ∷ [])
        → text_eq x.id k ≡ true
        → any (is_plan k) db.plans ≡ true
        → Memᴰ x db.plans
    old x k m e there = elim (Memᴰ.append_cases db.plans m) [
      | inl before ↦ before
      | inr new ↦
          let same : row.id ≡ k = sym (ap (λ (y : PlanRow). y.id) (only x new)) ∙ text_eq_sound e in
          absurd
            (ground (arith, fresh, subst (λ z. any (is_plan z) db.plans ≡ true) (sym same) there))
    ]

pub all_mono :
    {A : Type 0} (p q : A → Bool) (xs : List A)
    → ((x : A) → p x ≡ true → q x ≡ true)
    → all p xs ≡ true
    → all q xs ≡ true
all_mono p q [] h e = refl
all_mono p q (x ∷ xs) h e =
    let (a, b) = &&_true (p x) (all p xs) e in &&_intro (h x a) (all_mono p q xs h b)

any_mono :
    {A : Type 0} (p q : A → Bool) (xs : List A)
    → ((x : A) → p x ≡ true → q x ≡ true)
    → any q xs ≡ false
    → any p xs ≡ false
any_mono p q xs h e = elim (Bool-cases (any p xs)) [
  | inr f ↦ f
  | inl f ↦ let (x, m, a) = any-witness p xs f in absurd (ground (arith, any-false q e m, h x a))
]

-- The row that `create_plan` adds.
with_plan-Sound :
    (row : PlanRow) (db : Db)
    → any (is_plan row.id) db.plans ≡ false
    → Sound db
    → Sound (record db { plans = db.plans ++ row ∷ [] })
with_plan-Sound row db fresh (safe, planned) = (
  λ mine theirs m t path same held held'.
      safe mine theirs m t path
        (same_project-grown db row mine.plan_id theirs.plan_id fresh
          (all-mem (λ r. has_plan r.plan_id db) planned m)
          (all-mem (λ r. has_plan r.plan_id db) planned t) same)
        held held',
  all_mono (λ (r : Reservation). has_plan r.plan_id db) _ db.outputs
      (λ r h. ground (arith, any-append (is_plan r.plan_id) db.plans (row ∷ []), h)) planned,
)

pub create_plan-Sound :
    (id : String) (o : CreatePlanOpts) (db after : Db)
    → create_plan id o db ≡ ok after
    → Sound db
    → Sound after × (has_plan id after ≡ true)
unfolding create_plan
create_plan-Sound id o db after e sound =
    elim (Bool-cases (
      any (λ p. is_plan id p || (text_eq p.project_id o.project_id && text_eq p.slug o.slug))
        db.plans)) [
          | inl taken ↦ absurd (ground (arith, e, taken))
          | inr free ↦
              let fresh =
                any_mono (is_plan id)
                  (λ p.
                    is_plan id p || (text_eq p.project_id o.project_id && text_eq p.slug o.slug))
                  db.plans (λ p h. ground (arith, h)) free in
              let row : PlanRow = record {
                id = id;
                project_id = o.project_id;
                slug = o.slug;
                title = o.title;
                status = radioactive_ralph.Store.Schema.draft;
                source_markdown = o.source_markdown;
              } in
              let grown : record db { plans = db.plans ++ row ∷ [] } ≡ after =
                ground (arith, e, free) in
              subst (λ d. Sound d × (has_plan id d ≡ true)) {y = after} grown
                (
                  with_plan-Sound row db fresh sound,
                  ground (arith, any-append (is_plan id) db.plans (row ∷ []), text_eq_refl id),
                )
        ]

new_task-waits : (now : ℕ) (o : CreateTaskOpts) → is_running (new_task now o).status ≡ false
new_task-waits now o = ground arith

pub create_task-Sound :
    (now : ℕ) (o : CreateTaskOpts) (db after : Db)
    → create_task now o db ≡ ok after
    → Sound db
    → Sound after × (runs o.plan_id o.id after.tasks ≡ false) × (db.plans ≡ after.plans)
unfolding create_task
create_task-Sound now o db after e (safe, planned) =
    elim (Bool-cases (any (is_task o.plan_id o.id) db.tasks)) [
      | inl taken ↦ absurd (ground (arith, e, taken))
      | inr fresh ↦
          let row = new_task now o in
          let grown : record db { tasks = db.tasks ++ row ∷ [] } ≡ after =
            ground (arith, e, fresh) in
          let waits = new_task-waits now o in
          let same = λ (p i : String).
            any-append (λ t. is_task p i t && is_running t.status) db.tasks (row ∷ []) in
          let absent =
            any_mono (λ t. is_task o.plan_id o.id t && is_running t.status) (is_task o.plan_id o.id)
              db.tasks (λ t h. (&&_true (is_task o.plan_id o.id t) _ h).0) fresh in
          subst (λ d. Sound d × (runs o.plan_id o.id d.tasks ≡ false) × (db.plans ≡ d.plans))
            {y = after} grown
            (
              (
                Quiet-Exclusive db (record db { tasks = db.tasks ++ row ∷ [] }) refl refl
                    (λ p i h. ground (arith, same p i, waits, h)) safe,
                planned,
              ),
              ground (arith, same o.plan_id o.id, waits, absent),
              refl,
            )
    ]

-- What a loop over the outputs of a new task keeps.
abbrev pub Reserving : String → String → Db → Type 0
Reserving plan id db = Sound db × (runs plan id db.tasks ≡ false) × (has_plan plan db ≡ true)

with_output-Sound :
    (r : Reservation) (db : Db)
    → runs r.plan_id r.task_id db.tasks ≡ false
    → has_plan r.plan_id db ≡ true
    → Sound db
    → Sound (record db { outputs = db.outputs ++ r ∷ [] })
with_output-Sound r db idle there (safe, planned) = (
  λ mine theirs m t path same held held'.
      safe mine theirs (old mine m held) (old theirs t held') path same held held',
  ground (
    arith,
    all-append (λ (x : Reservation). has_plan x.plan_id db) db.outputs (r ∷ []),
    planned,
    there,
  ),
)
  where
    old :
        (x : Reservation)
        → Memᴰ x (db.outputs ++ r ∷ [])
        → runs x.plan_id x.task_id db.tasks ≡ true
        → Memᴰ x db.outputs
    old x m held = elim (Memᴰ.append_cases db.outputs m) [
      | inl before ↦ before
      | inr (Memᴰ.head e) ↦
          let a = ap (λ (y : Reservation). y.plan_id) e in
          let b = ap (λ (y : Reservation). y.task_id) e in
          absurd (ground (arith, idle, rw (a, b) at held))
      | inr (Memᴰ.tail n) ↦ elim n [ ]
    ]

pub reserve_task_output-Reserving :
    (plan id path mode : String) (db after : Db)
    → reserve_task_output plan id path mode db ≡ ok after
    → Reserving plan id db
    → Reserving plan id after
unfolding reserve_task_output
reserve_task_output-Reserving plan id path mode db after e (sound, idle, there) =
    let r : Reservation = record {
      plan_id = plan;
      task_id = id;
      path = radioactive_ralph.Paths.canonical_reservation_path path;
    } in
    let grown : record db { outputs = db.outputs ++ r ∷ [] } ≡ after = ground (arith, e) in
    subst (Reserving plan id) {y = after} grown
      (with_output-Sound r db idle there sound, idle, there)
