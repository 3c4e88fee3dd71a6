-- ===== src/Store/Plans/Graph.antt =====
-- The atomic write of a plan graph, internal/store/plan_graph.go: what holds of the edges when it
-- commits.
use radioactive_ralph.Prelude.{
  ℕ, ◌≡◌, refl, ◌∙◌, subst, String, Bool, List, [], ◌∷◌, arith, if◌then◌else◌,
}
use radioactive_ralph.Store.Schema.{Db, Result, ok, err, ◌>>=◌, active}
use radioactive_ralph.Store.Tasks.{CreateTaskOpts, create_task, add_dep}
use radioactive_ralph.Store.Plans.{
  CreatePlanOpts, create_plan, set_plan_status, reserve_task_output, reserve_task_input,
  put_task_metadata, GraphTaskSpec, each, write_metadata, write_node, write_edges,
  write_graph_tasks, create_plan_graph,
}
use radioactive_ralph.Store.Cycle.Acyclic.{Acyclic, add_dep-Acyclic}

pub bind-ok :
    {A B : Type 0} (r : Result A) (f : A → Result B) (b : B)
    → (r >>= f) ≡ ok b
    → (a : A) × (r ≡ ok a) × (f a ≡ ok b)
bind-ok (ok a) f b e = (a, refl, e)
bind-ok (err x) f b e = absurd (ground arith)

-- What every statement of a loop keeps, the loop keeps.
pub each-keeps :
    {A : Type 0} (P : Db → Type 0) (f : A → Db → Result Db) (xs : List A) (db after : Db)
    → ((x : A) (a b : Db) → f x a ≡ ok b → P a → P b)
    → each f xs db ≡ ok after
    → P db
    → P after
each-keeps P f [] db after keeps e p = subst P {y = after} (ground (arith, e)) p
each-keeps P f (x ∷ xs) db after keeps e p =
    let (mid, first, rest) = bind-ok (f x db) (each f xs) after e in
    each-keeps P f xs mid after keeps rest (keeps x db mid first p)

create_task-deps :
    (now : ℕ) (o : CreateTaskOpts) (db after : Db)
    → create_task now o db ≡ ok after
    → db.deps ≡ after.deps
unfolding create_task
create_task-deps now o db after e = ground (arith, e)

reserve_task_output-deps :
    (plan id path mode : String) (db after : Db)
    → reserve_task_output plan id path mode db ≡ ok after
    → db.deps ≡ after.deps
unfolding reserve_task_output
reserve_task_output-deps plan id path mode db after e = ground (arith, e)

reserve_task_input-deps :
    (plan id path sha256 : String) (db after : Db)
    → reserve_task_input plan id path sha256 db ≡ ok after
    → db.deps ≡ after.deps
unfolding reserve_task_input
reserve_task_input-deps plan id path sha256 db after e = ground (arith, e)

write_metadata-deps :
    (plan : String) (s : GraphTaskSpec) (db after : Db)
    → write_metadata plan s db ≡ ok after
    → db.deps ≡ after.deps
unfolding put_task_metadata
write_metadata-deps plan s db after e = ground (arith, e)

create_plan-deps :
    (id : String) (o : CreatePlanOpts) (db after : Db)
    → create_plan id o db ≡ ok after
    → db.deps ≡ after.deps
unfolding create_plan
create_plan-deps id o db after e = ground (arith, e)

pub activate-deps :
    (activate : Bool) (id : String) (db after : Db)
    → (if activate then set_plan_status id active db else ok db) ≡ ok after
    → db.deps ≡ after.deps
unfolding set_plan_status
activate-deps activate id db after e = ground (arith, e)

write_node-deps :
    (now : ℕ) (plan : String) (s : GraphTaskSpec) (db after : Db)
    → write_node now plan s db ≡ ok after
    → db.deps ≡ after.deps
unfolding write_node
write_node-deps now plan s db after e =
    let (created, e_1, rest_1) = bind-ok _ _ after e in
    let (described, e_2, rest_2) = bind-ok _ _ after rest_1 in
    let (reading, e_3, e_4) = bind-ok _ _ after rest_2 in
    let start = create_task-deps now (record (s.task) { plan_id = plan }) db created e_1 in
    let next = write_metadata-deps plan s created described e_2 in
    let after_inputs =
      each-keeps (λ d. db.deps ≡ d.deps) (λ p. reserve_task_input plan s.task.id p.path p.detail)
        s.inputs described reading
        (λ p a b f h. h ∙ reserve_task_input-deps plan s.task.id p.path p.detail a b f) e_3
        (start ∙ next) in
    each-keeps (λ d. db.deps ≡ d.deps) (λ p. reserve_task_output plan s.task.id p.path p.detail)
      s.outputs reading after
      (λ p a b f h. h ∙ reserve_task_output-deps plan s.task.id p.path p.detail a b f) e_4
      after_inputs

write_edges-Acyclic :
    (plan q : String) (s : GraphTaskSpec) (db after : Db)
    → write_edges plan s db ≡ ok after
    → Acyclic db.deps q
    → Acyclic after.deps q
unfolding write_edges
write_edges-Acyclic plan q s db after =
    each-keeps (λ d. Acyclic d.deps q) (add_dep plan s.task.id) s.depends_on db after
      (λ dep a b f h. add_dep-Acyclic plan s.task.id dep q a b h f)

-- The two loops of a graph's write.
pub write_graph_tasks-ok :
    (now : ℕ) (plan : String) (specs : List GraphTaskSpec) (db after : Db)
    → write_graph_tasks now plan specs db ≡ ok after
    → (nodes : Db) × (each (write_node now plan) specs db ≡ ok nodes)
      × (each (write_edges plan) specs nodes ≡ ok after)
unfolding write_graph_tasks
write_graph_tasks-ok now plan specs db after e =
    bind-ok (each (write_node now plan) specs db) (each (write_edges plan) specs) after e

-- The stages of a plan's creation.
pub create_plan_graph-ok :
    (now : ℕ) (id : String) (o : CreatePlanOpts) (specs : List GraphTaskSpec) (activate : Bool)
    (db after : Db)
    → create_plan_graph now id o specs activate db ≡ ok after
    → (planned : Db) × (written : Db) × (create_plan id o db ≡ ok planned)
      × (write_graph_tasks now id specs planned ≡ ok written)
      × ((if activate then set_plan_status id active written else ok written) ≡ ok after)
unfolding create_plan_graph
create_plan_graph-ok now id o specs activate db after e =
    let (planned, e_1, rest) = bind-ok _ _ after e in
    let (written, e_2, e_3) = bind-ok _ _ after rest in (planned, written, e_1, e_2, e_3)

-- The write of a graph, by an import or by a decomposition of an existing plan, keeps the edges of
-- every plan free of cycles.
pub write_graph_tasks-Acyclic :
    (now : ℕ) (plan q : String) (specs : List GraphTaskSpec) (db after : Db)
    → Acyclic db.deps q
    → write_graph_tasks now plan specs db ≡ ok after
    → Acyclic after.deps q
write_graph_tasks-Acyclic now plan q specs db after acyclic e =
    let (nodes, e_1, e_2) = write_graph_tasks-ok now plan specs db after e in
    let same =
      each-keeps (λ d. db.deps ≡ d.deps) (write_node now plan) specs db nodes
        (λ s a b f h. h ∙ write_node-deps now plan s a b f) e_1 refl in
    each-keeps (λ d. Acyclic d.deps q) (write_edges plan) specs nodes after
      (λ s a b. write_edges-Acyclic plan q s a b) e_2 (subst (λ ds. Acyclic ds q) same acyclic)

-- A plan that is created with its whole graph leaves the edges of every plan free of cycles.
pub create_plan_graph-Acyclic :
    (now : ℕ) (id q : String) (o : CreatePlanOpts) (specs : List GraphTaskSpec) (activate : Bool)
    (db after : Db)
    → Acyclic db.deps q
    → create_plan_graph now id o specs activate db ≡ ok after
    → Acyclic after.deps q
create_plan_graph-Acyclic now id q o specs activate db after acyclic e =
    let (planned, written, e_1, e_2, e_3) =
      create_plan_graph-ok now id o specs activate db after e in
    subst (λ ds. Acyclic ds q) (activate-deps activate id written after e_3)
      (write_graph_tasks-Acyclic now id q specs planned written
        (subst (λ ds. Acyclic ds q) (create_plan-deps id o db planned e_1) acyclic) e_2)
