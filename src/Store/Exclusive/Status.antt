-- ===== src/Store/Exclusive/Status.antt =====
-- Exclusive outputs and the status of a plan, `setPlanStatusOn` of internal/store/plans.go, with the
-- whole of `CreatePlanGraph`, which ends in it.
use radioactive_ralph.Prelude.{
  ℕ, ◌≡◌, refl, sym, ap, ◌∙◌, subst, String, Bool, true, false, ◌&&◌, Bool-cases, List, [], ◌∷◌,
  any, if◌then◌else◌, inl, inr, arith, text_eq,
}
use radioactive_ralph.Store.Schema.{PlanRow, PlanStatus, Reservation, Db, ok, update_where, active}
use radioactive_ralph.Store.Queries.{same_project}
use radioactive_ralph.Store.Plans.{
  CreatePlanOpts, is_plan, set_plan_status, GraphTaskSpec, create_plan_graph,
}
use radioactive_ralph.Store.Plans.Graph.{create_plan_graph-ok}
use radioactive_ralph.Store.Exclusive.Plans.{has_plan, Sound, all_mono, create_plan-Sound}
use radioactive_ralph.Store.Exclusive.Graphs.{write_graph_tasks-Sound}

any-update :
    {A : Type 0} (p test : A → Bool) (change : A → A) (xs : List A)
    → ((x : A) → p (change x) ≡ p x)
    → any p (update_where test change xs) ≡ any p xs
any-update p test change [] h = refl
any-update p test change (x ∷ xs) h = elim (Bool-cases (test x)) [
  | inl hit ↦ ground (arith, hit, h x, any-update p test change xs h)
  | inr miss ↦ ground (arith, miss, any-update p test change xs h)
]

any-cong : {A : Type 0} (p q : A → Bool) (xs : List A) → ((x : A) → p x ≡ q x) → any p xs ≡ any q xs
any-cong p q [] h = refl
any-cong p q (x ∷ xs) h = ground (arith, h x, any-cong p q xs h)

abbrev restate : PlanStatus → PlanRow → PlanRow
restate status p = record p { status = status }

-- A new status leaves projects as they are.
restate-Sound :
    (id : String) (status : PlanStatus) (db : Db)
    → Sound db
    → Sound (record db { plans = update_where (is_plan id) (restate status) db.plans })
restate-Sound id status db (safe, planned) = (
  λ mine theirs m t path same held held'.
      safe mine theirs m t path (sym (same_projects mine.plan_id theirs.plan_id) ∙ same) held held',
  all_mono (λ (r : Reservation). has_plan r.plan_id db) _ db.outputs
      (λ r h. any-update (is_plan r.plan_id) (is_plan id) (restate status) db.plans (λ x. refl) ∙ h)
      planned,
)
  where
    inner :
        (q : String) (m : PlanRow)
        → any
            (λ tp. text_eq tp.id q && text_eq tp.project_id m.project_id)
            (update_where (is_plan id) (restate status) db.plans)
          ≡ any (λ tp. text_eq tp.id q && text_eq tp.project_id m.project_id) db.plans
    inner q m = any-update _ (is_plan id) (restate status) db.plans (λ x. refl)

    same_projects :
        (p q : String)
        → same_project
            (record db { plans = update_where (is_plan id) (restate status) db.plans })
            p
            q
          ≡ same_project db p q
    same_projects p q =
        any-update _ (is_plan id) (restate status) db.plans (λ x. refl)
        ∙ any-cong _ _ db.plans (λ m. ap (λ b. text_eq m.id p && b) (inner q m))

pub set_plan_status-Sound :
    (id : String) (status : PlanStatus) (db after : Db)
    → set_plan_status id status db ≡ ok after
    → Sound db
    → Sound after
unfolding set_plan_status
set_plan_status-Sound id status db after e sound =
    let restated : record db { plans = update_where (is_plan id) (restate status) db.plans }
        ≡ after =
      ground (arith, e) in
    subst Sound {y = after} restated (restate-Sound id status db sound)

pub create_plan_graph-Sound :
    (now : ℕ) (id : String) (o : CreatePlanOpts) (specs : List GraphTaskSpec) (activate : Bool)
    (db after : Db)
    → create_plan_graph now id o specs activate db ≡ ok after
    → Sound db
    → Sound after
create_plan_graph-Sound now id o specs activate db after e sound =
    let (planned, written, e_1, e_2, e_3) =
      create_plan_graph-ok now id o specs activate db after e in
    let (sound_1, there) = create_plan-Sound id o db planned e_1 sound in
    let sound_2 = write_graph_tasks-Sound now id specs planned written e_2 sound_1 there in
    finish activate written e_3 sound_2
  where
    finish :
        (active_now : Bool) (written : Db)
        → (if active_now then set_plan_status id active written else ok written) ≡ ok after
        → Sound written
        → Sound after
    finish true written e sound = set_plan_status-Sound id active written after e sound
    finish false written e sound =
        let same : written ≡ after = ground (arith, e) in subst Sound {y = after} same sound
