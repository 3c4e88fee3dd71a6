-- ===== src/Store/Exclusive/Deletion.antt =====
-- Exclusive outputs and the deletion of a plan, internal/store/plan_delete.go.
use radioactive_ralph.Prelude.{
  ◌≡◌, refl, ap, String, Bool, true, not, ◌&&◌, &&_true, &&_intro, List, [], ◌∷◌, Memᴰ, mem-filterb,
  mem-filterb_intro, filterb, all, all-mem, any, any-intro, any-witness, arith, text_eq,
  text_eq_sound,
}
use radioactive_ralph.Store.Schema.{Db, ok, is_running, is_task}
use radioactive_ralph.Store.Queries.{same_project}
use radioactive_ralph.Store.Plans.{is_plan, delete_plan}
use radioactive_ralph.Store.Exclusive.{Exclusive}
use radioactive_ralph.Store.Exclusive.Plans.{has_plan, is_planned, Sound}
use radioactive_ralph.Store.Exclusive.Graphs.{Apart-Sound}

any-filterb :
    {A : Type 0} (p q : A → Bool) (xs : List A) → any p (filterb q xs) ≡ true → any p xs ≡ true
any-filterb p q xs h =
    let (x, m, e) = any-witness p (filterb q xs) h in any-intro p (mem-filterb q xs m).0 e

all-intro :
    {A : Type 0} (p : A → Bool) (xs : List A) → ((x : A) → Memᴰ x xs → p x ≡ true) → all p xs ≡ true
all-intro p [] h = refl
all-intro p (x ∷ xs) h = &&_intro (h x (Memᴰ.head refl)) (all-intro p xs (λ y m. h y (Memᴰ.tail m)))

-- The rows that a deleted plan leaves of the tables that the promise is about.
abbrev without_plan : String → Db → Db
without_plan id db = record db {
  plans = filterb (λ p. not (is_plan id p)) db.plans;
  tasks = filterb (λ t. not (text_eq t.plan_id id)) db.tasks;
  outputs = filterb (λ r. not (text_eq r.plan_id id)) db.outputs;
}

without_plan-Exclusive : (id : String) (db : Db) → Exclusive db → Exclusive (without_plan id db)
without_plan-Exclusive id db safe mine theirs m t path same held held' =
    safe mine theirs (mem-filterb _ db.outputs m).0 (mem-filterb _ db.outputs t).0 path
      (joined mine.plan_id theirs.plan_id same)
      (any-filterb (λ t. is_task mine.plan_id mine.task_id t && is_running t.status) _ db.tasks
        held)
      (any-filterb (λ t. is_task theirs.plan_id theirs.task_id t && is_running t.status) _ db.tasks
        held')
  where
    joined :
        (p q : String) → same_project (without_plan id db) p q ≡ true → same_project db p q ≡ true
    joined p q h =
        let (x, x_in, e) = any-witness _ (without_plan id db).plans h in
        let (x_p, f) = &&_true (text_eq x.id p) _ e in
        any-intro _ (mem-filterb (λ y. not (is_plan id y)) db.plans x_in).0 (
          &&_intro x_p
            (any-filterb (λ y. text_eq y.id q && text_eq y.project_id x.project_id) _ db.plans f))

without_plan-planned :
    (id : String) (db : Db) → is_planned db ≡ true → is_planned (without_plan id db) ≡ true
without_plan-planned id db planned =
    all-intro (λ r. has_plan r.plan_id (without_plan id db)) (without_plan id db).outputs
      (λ r m.
        let (m', other) = mem-filterb (λ x. not (text_eq x.plan_id id)) db.outputs m in
        let (p, p_in, e) =
          any-witness (is_plan r.plan_id) db.plans
            (all-mem (λ x. has_plan x.plan_id db) planned m') in
        let same = ap (λ k. text_eq k id) (text_eq_sound {s = p.id} {t = r.plan_id} e) in
        any-intro (is_plan r.plan_id)
          (mem-filterb_intro (λ y. not (is_plan id y)) p_in (ground (arith, same, other))) e)

pub delete_plan-Sound :
    (id : String) (db after : Db) → delete_plan id db ≡ ok after → Sound db → Sound after
unfolding delete_plan
delete_plan-Sound id db after e (safe, planned) =
    let plans : (without_plan id db).plans ≡ after.plans = ground (arith, e) in
    let tasks : (without_plan id db).tasks ≡ after.tasks = ground (arith, e) in
    let outputs : (without_plan id db).outputs ≡ after.outputs = ground (arith, e) in
    Apart-Sound (without_plan id db) after (plans, tasks, outputs)
      (without_plan-Exclusive id db safe, without_plan-planned id db planned)
