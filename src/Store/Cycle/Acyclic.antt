-- ===== src/Store/Cycle/Acyclic.antt =====
-- Cycles of the edges of internal/store/tasks.go: what the cycle check answers, and `addDepOn`.
use mathlib.Core.Path.{subst₂}
use mathlib.Core.List.Memᴰ
use mathlib.Core.List.{map-append}
use radioactive_ralph.Prelude.{
  ◌≡◌, sym, ap, ◌∙◌, subst, mem-map_inv, mem-filterb, String, true, ◌&&◌, &&_true, List, [], ◌∷◌,
  ◌++◌, map, filterb, filterb-append, Memᴰ, ◌⊎◌, ◌↔◌, inl, inr, arith, Bool-cases, text_eq,
  text_eq_sound,
}
use radioactive_ralph.Store.Schema.{Dep, Db, ok}
use radioactive_ralph.Store.Tasks.{add_dep}
use radioactive_ralph.Store.Cycle.{edges_from, visit, would_create_cycle, cycle_fuel}
use radioactive_ralph.Store.Cycle.Search.{
  Walk, here, step, Visit-cases, visit-found, visit-clear-no-Walk,
}
use radioactive_ralph.Store.Cycle.Fuel.{visit-cycle_fuel}

-- The check of a new edge from `task` to `dep` says yes exactly when the edges already lead from
-- `dep` to `task`: its search is sound and complete, and it always ends.
pub would_create_cycle_iff :
    (deps : List Dep) (plan task dep : String)
    → (would_create_cycle deps plan task dep ≡ true) ↔ Walk deps plan dep task
unfolding would_create_cycle
would_create_cycle_iff deps plan task dep =
    elim (Visit-cases (visit (cycle_fuel deps) deps plan task dep [])) [
      | inl (seen, p) ↦ (
        λ e. absurd (ground (arith, p)),
        λ w. absurd (visit-clear-no-Walk deps plan task (cycle_fuel deps) dep p w),
      )
      | inr (inl p) ↦
          (λ e. visit-found deps plan task (cycle_fuel deps) dep [] p, λ w. ground (arith, p))
      | inr (inr p) ↦ absurd (visit-cycle_fuel deps plan task dep p)
    ]

-- No edge of the plan closes a walk.
abbrev pub Acyclic : List Dep → String → Type 0
Acyclic deps plan = (a b : String) → Memᴰ b (edges_from deps plan a) → ¬ Walk deps plan b a

only_member {ℓ} : {A : Type ℓ} {x y : A} → Memᴰ x (y ∷ []) → x ≡ y
only_member (Memᴰ.head e) = e
only_member (Memᴰ.tail m) = elim m [ ]

abbrev with_dep : List Dep → String → String → String → List Dep
with_dep deps plan task dep =
    deps ++ record { plan_id = plan; task_id = task; depends_on = dep } ∷ []

edges_from-with_dep :
    (deps : List Dep) (plan task dep p a b : String)
    → Memᴰ b (edges_from (with_dep deps plan task dep) p a)
    → Memᴰ b (edges_from deps p a) ⊎ ((plan ≡ p) × (task ≡ a) × (b ≡ dep))
edges_from-with_dep deps plan task dep p a b m =
    let test = λ (d : Dep). text_eq d.plan_id p && text_eq d.task_id a in
    let last : List Dep = record { plan_id = plan; task_id = task; depends_on = dep } ∷ [] in
    let split =
      ap (map (λ d. d.depends_on)) (filterb-append test deps last)
      ∙ map-append (λ (d : Dep). d.depends_on) (filterb test deps) (filterb test last) in
    elim (Memᴰ.append_cases (edges_from deps p a) (rw split at m)) [
      | inl old ↦ inl old
      | inr new ↦ inr (new_edge new)
    ]
  where
    new_edge :
        Memᴰ b (edges_from (record { plan_id = plan; task_id = task; depends_on = dep } ∷ []) p a)
        → (plan ≡ p) × (task ≡ a) × (b ≡ dep)
    new_edge new =
        let (d, k, q) = mem-map_inv (λ (d : Dep). d.depends_on) _ new in
        let (k', t) = mem-filterb (λ (d : Dep). text_eq d.plan_id p && text_eq d.task_id a) _ k in
        let same = only_member k' in
        let (t₁, t₂) = &&_true _ _ t in
        (
          sym (ap (λ (d : Dep). d.plan_id) same) ∙ text_eq_sound t₁,
          sym (ap (λ (d : Dep). d.task_id) same) ∙ text_eq_sound t₂,
          q ∙ ap (λ (d : Dep). d.depends_on) same,
        )

Walk-trans :
    {deps : List Dep} {p a b c : String} → Walk deps p a b → Walk deps p b c → Walk deps p a c
Walk-trans here v = v
Walk-trans (step e w) v = step e (Walk-trans w v)

Walk-with_dep :
    (deps : List Dep) (plan task dep p : String) {a b : String}
    → Walk (with_dep deps plan task dep) p a b
    → Walk deps p a b ⊎ ((plan ≡ p) × Walk deps p a task × Walk deps p dep b)
Walk-with_dep deps plan task dep p here = inl here
Walk-with_dep deps plan task dep p {a} {b} (step {b = c} e w) =
    elim (edges_from-with_dep deps plan task dep p a c e) [
      | inl old ↦ elim (Walk-with_dep deps plan task dep p w) [
        | inl w' ↦ inl (step old w')
        | inr (here_plan, x, y) ↦ inr (here_plan, step old x, y)
      ]
      | inr (here_plan, from, to) ↦ elim (Walk-with_dep deps plan task dep p w) [
        | inl w' ↦ inr (
          here_plan,
          subst (λ u. Walk deps p u task) from here,
          subst (λ u. Walk deps p u b) to w',
        )
        | inr (_, x, y) ↦ inr (here_plan, subst (λ u. Walk deps p u task) from here, y)
      ]
    ]

-- Adding an edge that the check let through.
Acyclic-with_dep :
    (deps : List Dep) (plan task dep p : String)
    → Acyclic deps p
    → ¬ Walk deps plan dep task
    → Acyclic (with_dep deps plan task dep) p
Acyclic-with_dep deps plan task dep p acyclic checked a b e w =
    let back = λ (here_plan : plan ≡ p) (x : Walk deps p dep task).
      checked (subst (λ q. Walk deps q dep task) (sym here_plan) x) in
    elim (edges_from-with_dep deps plan task dep p a b e) [
      | inl old ↦ elim (Walk-with_dep deps plan task dep p w) [
        | inl w' ↦ acyclic a b old w'
        | inr (here_plan, x, y) ↦ back here_plan (Walk-trans y (step old x))
      ]
      | inr (here_plan, from, to) ↦ elim (Walk-with_dep deps plan task dep p w) [
        | inl w' ↦ back here_plan (subst₂ (λ u v. Walk deps p u v) to (sym from) w')
        | inr (_, x, y) ↦ back here_plan (subst (λ u. Walk deps p u task) to x)
      ]
    ]

-- An edge that `addDepOn` accepts closes no cycle, in its own plan or in any other.
pub add_dep-Acyclic :
    (plan task dep p : String) (db db' : Db)
    → Acyclic db.deps p
    → add_dep plan task dep db ≡ ok db'
    → Acyclic db'.deps p
unfolding add_dep
add_dep-Acyclic plan task dep p db db' acyclic e =
    elim (Bool-cases (would_create_cycle db.deps plan task dep)) [
      | inl cyclic ↦ absurd (ground (arith, cyclic))
      | inr safe ↦
          let grown : with_dep db.deps plan task dep ≡ db'.deps = ground (arith, safe) in
          subst (λ ds. Acyclic ds p) grown
            (Acyclic-with_dep db.deps plan task dep p acyclic
              (λ w. ground (arith, safe, (would_create_cycle_iff db.deps plan task dep).1 w)))
    ]
