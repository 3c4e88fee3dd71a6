-- ===== src/Orch/Edges/Order.antt =====
-- Document order as dependency edges, against the positional walk of internal/plan/decompose.go.
use radioactive_ralph.Prelude.{
  ◌≡◌, refl, sym, ap, ◌∙◌, &&_true, String, Bool, true, false, ◌&&◌, List, [], ◌∷◌, ◌++◌, map, all,
  filterb, is_none, arith,
}
use mathlib.Core.Path.{ap₂}
use mathlib.Core.List.{map-append}
use radioactive_ralph.Plan.{
  Plan, Step, StepRef, DoneSet, walk_groups, decompose_groups, decompose_refs,
}
use radioactive_ralph.Plan.Leaves.{
  Leaf, leaves, all_located, walk_groups-leaves, decompose_groups-leaves,
}
use radioactive_ralph.Orch.Import.{Located, step_task_id, document_order_edges}
use radioactive_ralph.Orch.Edges.Leafwise.{
  keys, fan_edges, chain_edges, leaf_edges, terminals, edges_of, deps_of,
}
use radioactive_ralph.Orch.Edges.Walk.{document_order_edges-leaves}
use radioactive_ralph.Orch.Edges.Readiness.{
  Edge, key, ready_edge, closed_edge, refs_of, leaves_open,
}

-- The nodes of the graph with their document-order edges, as `graphSpecs` pairs them.
abbrev pub pair_up : List Located → List (List String) → List (Located × List String)
pair_up (x ∷ xs) (d ∷ ds) = (x, d) ∷ pair_up xs ds
pair_up _ _ = []

pair_up-edges : (es : List Edge) → pair_up (map (λ e. e.0) es) (deps_of es) ≡ es
pair_up-edges [] = refl
pair_up-edges (e ∷ es) = ap (λ t. e ∷ t) (pair_up-edges es)

abbrev pub graph_edges : Plan → List (Located × List String)
graph_edges p =
    let nodes = walk_groups p [] 0 in
    pair_up nodes (document_order_edges p (keys step_task_id nodes))

-- No step states an id of its own.
abbrev pub unannotated : List Located → Bool
unannotated [] = true
unannotated ((r, s) ∷ xs) = is_none s.metadata && unannotated xs

module _ (f : Located → String) where
  located_of-fan :
      (prev : List String) (xs : List Located) → map (λ e. e.0) (fan_edges f prev xs) ≡ xs
  located_of-fan prev [] = refl
  located_of-fan prev (x ∷ xs) = ap (λ t. x ∷ t) (located_of-fan prev xs)

  located_of-chain :
      (prev : List String) (xs : List Located) → map (λ e. e.0) (chain_edges f prev xs) ≡ xs
  located_of-chain prev [] = refl
  located_of-chain prev (x ∷ xs) = ap (λ t. x ∷ t) (located_of-chain (f x ∷ []) xs)

  pub located_of-leaf :
      (parallel : Bool) (prev : List String) (xs : List Located)
      → map (λ e. e.0) (leaf_edges f parallel prev xs) ≡ xs
  located_of-leaf true prev xs = located_of-fan prev xs
  located_of-leaf false prev xs = located_of-chain prev xs

  pub located_of-edges :
      (prev : List String) (ls : List Leaf) → map (λ e. e.0) (edges_of f prev ls) ≡ all_located ls
  located_of-edges prev [] = refl
  located_of-edges prev (l ∷ ls) =
      map-append (λ e. e.0) (leaf_edges f l.parallel prev l.located) _
      ∙ ap₂ (λ u v. u ++ v) (located_of-leaf l.parallel prev l.located)
          (located_of-edges (terminals f l.parallel prev l.located) ls)

  pub pair_up-leaves :
      (p : Plan)
      → pair_up (walk_groups p [] 0) (document_order_edges p (keys f (walk_groups p [] 0)))
        ≡ edges_of f [] (leaves p [] 0)
  pair_up-leaves p =
      ap₂ pair_up (walk_groups-leaves p [] 0 ∙ sym (located_of-edges [] (leaves p [] 0)))
        (document_order_edges-leaves f p)
      ∙ pair_up-edges (edges_of f [] (leaves p [] 0))

step_task_id-unannotated :
    (r : StepRef) (s : Step) → is_none s.metadata ≡ true → step_task_id (r, s) ≡ key (r, s)
unfolding step_task_id
step_task_id-unannotated r s h = ground arith

keys-unannotated : (xs : List Located) → unannotated xs ≡ true → keys step_task_id xs ≡ keys key xs
keys-unannotated [] h = refl
keys-unannotated ((r, s) ∷ xs) h =
    let (h₁, h₂) = &&_true _ _ h in
    ap₂ (λ u v. u ∷ v) (step_task_id-unannotated r s h₁) (keys-unannotated xs h₂)

decompose_refs-refs :
    (p : Plan) (done : DoneSet)
    → refs_of done (decompose_groups p [] 0 done) ≡ (decompose_refs p done).1
unfolding decompose_refs
decompose_refs-refs p done = ground arith

module _ (done : DoneSet) where
  ready-unannotated :
      (es : List Edge)
      → unannotated (map (λ e. e.0) es) ≡ true
      → filterb (ready_edge done step_task_id) es ≡ filterb (ready_edge done key) es
  ready-unannotated [] h = refl
  ready-unannotated (((r, s), ds) ∷ es) h =
      let (h₁, h₂) = &&_true (is_none s.metadata) (unannotated (map (λ e. e.0) es)) h in
      ground (arith, step_task_id-unannotated r s h₁, ready-unannotated es h₂)

  closed-unannotated :
      (es : List Edge)
      → unannotated (map (λ e. e.0) es) ≡ true
      → all (closed_edge done step_task_id) es ≡ all (closed_edge done key) es
  closed-unannotated [] h = refl
  closed-unannotated (((r, s), ds) ∷ es) h =
      let (h₁, h₂) = &&_true (is_none s.metadata) (unannotated (map (λ e. e.0) es)) h in
      ground (arith, step_task_id-unannotated r s h₁, closed-unannotated es h₂)

map_twice : (es : List Edge) → map (λ e. e.0.0) es ≡ map (λ x. x.0) (map (λ e. e.0) es)
map_twice [] = refl
map_twice (e ∷ es) = ap (λ t. e.0.0 ∷ t) (map_twice es)

graph_edges-leaves :
    (p : Plan)
    → unannotated (walk_groups p [] 0) ≡ true
    → graph_edges p ≡ edges_of key [] (leaves p [] 0)
graph_edges-leaves p h =
    ap (λ ids. pair_up (walk_groups p [] 0) (document_order_edges p ids))
      (keys-unannotated (walk_groups p [] 0) h)
    ∙ pair_up-leaves key p

-- For a plan without annotations, and a set of finished tasks in which a task is finished only
-- after all the tasks that its document-order edges name: the tasks that are not finished and
-- whose edges all name finished tasks are exactly the steps, in the same order, that
-- `DecomposeRefs` finds ready from the positions alone.
pub document_order-decompose :
    (p : Plan) (done : DoneSet)
    → unannotated (walk_groups p [] 0) ≡ true
    → all (closed_edge done step_task_id) (graph_edges p) ≡ true
    → map (λ e. e.0.0) (filterb (ready_edge done step_task_id) (graph_edges p))
      ≡ (decompose_refs p done).1
unfolding decompose_refs
document_order-decompose p done h c =
    let es = edges_of key [] (leaves p [] 0) in
    let plain : unannotated (map (λ e. e.0) es) ≡ true =
      ap unannotated (located_of-edges key [] (leaves p [] 0) ∙ sym (walk_groups-leaves p [] 0))
      ∙ h in
    let c' =
      sym (closed-unannotated done es plain)
      ∙ ap (all (closed_edge done step_task_id)) (sym (graph_edges-leaves p h))
      ∙ c in
    ap (λ g. map (λ e. e.0.0) (filterb (ready_edge done step_task_id) g)) (graph_edges-leaves p h)
    ∙ ap (map (λ e. e.0.0)) (ready-unannotated done es plain)
    ∙ map_twice (filterb (ready_edge done key) es)
    ∙ leaves_open done [] (leaves p [] 0) refl c'
    ∙ ap (refs_of done) (sym (decompose_groups-leaves p [] 0 done))
    ∙ decompose_refs-refs p done
