-- ===== src/Store/Plans/Edges.antt =====
-- The write of a plan graph, internal/store/plan_graph.go, and the edges that its tasks declare.
use radioactive_ralph.Prelude.{
  ℕ, ◌≡◌, subst, sym, String, Bool, true, List, [], ◌∷◌, ◌++◌, Memᴰ, any, any-append, arith,
  text_eq_refl,
}
use radioactive_ralph.Store.Schema.{Db, Dep, Result, ok}
use radioactive_ralph.Store.Tasks.{add_dep, is_dep}
use radioactive_ralph.Store.Plans.{
  CreatePlanOpts, GraphTaskSpec, each, write_edges, create_plan_graph,
}
use radioactive_ralph.Store.Plans.Graph.{
  bind-ok, each-keeps, activate-deps, create_plan_graph-ok, write_graph_tasks-ok,
}

-- What one statement of a loop makes and the others keep, the loop leaves.
each-makes :
    {A : Type 0} (P : Db → Type 0) (f : A → Db → Result Db) (x : A) (xs : List A) (db after : Db)
    → ((y : A) (a b : Db) → f y a ≡ ok b → P a → P b)
    → ((a b : Db) → f x a ≡ ok b → P b)
    → Memᴰ x xs
    → each f xs db ≡ ok after
    → P after
each-makes P f x [] db after keeps makes m e = elim m [ ]
each-makes P f x (y ∷ xs) db after keeps makes (Memᴰ.head q) e =
    let (mid, first, rest) = bind-ok (f y db) (each f xs) after e in
    each-keeps P f xs mid after keeps rest
      (makes db mid (subst (λ z. f z db ≡ ok mid) (sym q) first))
each-makes P f x (y ∷ xs) db after keeps makes (Memᴰ.tail m) e =
    let (mid, first, rest) = bind-ok (f y db) (each f xs) after e in
    each-makes P f x xs mid after keeps makes m rest

abbrev pub has_edge : String → String → String → Db → Bool
has_edge plan task dep db = any (is_dep plan task dep) db.deps

add_dep-keeps :
    (plan task dep plan' task' dep' : String) (db after : Db)
    → add_dep plan' task' dep' db ≡ ok after
    → has_edge plan task dep db ≡ true
    → has_edge plan task dep after ≡ true
unfolding add_dep
add_dep-keeps plan task dep plan' task' dep' db after e h =
    let new : List Dep = record { plan_id = plan'; task_id = task'; depends_on = dep' } ∷ [] in
    let grown : db.deps ++ new ≡ after.deps = ground (arith, e) in
    subst (λ ds. any (is_dep plan task dep) ds ≡ true) grown
      (ground (arith, any-append (is_dep plan task dep) db.deps new, h))

add_dep-makes :
    (plan task dep : String) (db after : Db)
    → add_dep plan task dep db ≡ ok after
    → has_edge plan task dep after ≡ true
unfolding add_dep
add_dep-makes plan task dep db after e =
    let new : List Dep = record { plan_id = plan; task_id = task; depends_on = dep } ∷ [] in
    let grown : db.deps ++ new ≡ after.deps = ground (arith, e) in
    subst (λ ds. any (is_dep plan task dep) ds ≡ true) grown
      (ground (
        arith,
        any-append (is_dep plan task dep) db.deps new,
        text_eq_refl plan,
        text_eq_refl task,
        text_eq_refl dep,
      ))

-- A plan that is created with its graph holds every edge that a task of the graph declares.
pub create_plan_graph-edges :
    (now : ℕ) (id dep : String) (o : CreatePlanOpts) (s : GraphTaskSpec)
    (specs : List GraphTaskSpec) (activate : Bool) (db after : Db)
    → Memᴰ s specs
    → Memᴰ dep s.depends_on
    → create_plan_graph now id o specs activate db ≡ ok after
    → has_edge id s.task.id dep after ≡ true
unfolding write_edges
create_plan_graph-edges now id dep o s specs activate db after m n e =
    let (planned, written, e_1, e_2, e_3) =
      create_plan_graph-ok now id o specs activate db after e in
    let (nodes, e_4, e_5) = write_graph_tasks-ok now id specs planned written e_2 in
    subst (λ ds. any (is_dep id s.task.id dep) ds ≡ true)
      (activate-deps activate id written after e_3)
      (each-makes (λ d. has_edge id s.task.id dep d ≡ true) (write_edges id) s specs nodes written
        (λ r a b.
          each-keeps (λ d. has_edge id s.task.id dep d ≡ true) (add_dep id r.task.id) r.depends_on a
            b (λ x c d. add_dep-keeps id s.task.id dep id r.task.id x c d))
        (λ a b.
          each-makes (λ d. has_edge id s.task.id dep d ≡ true) (add_dep id s.task.id) dep
            s.depends_on a b (λ x c d. add_dep-keeps id s.task.id dep id s.task.id x c d)
            (λ c d. add_dep-makes id s.task.id dep c d) n)
        m e_5)
