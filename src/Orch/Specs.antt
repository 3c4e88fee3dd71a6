-- ===== src/Orch/Specs.antt =====
-- `graphSpecs` of internal/orch/plan_import.go on a plan that was parsed.
use mathlib.Core.List.{append-nil}
use radioactive_ralph.Prelude.{
  ℕ, suc, ◌≡◌, refl, sym, ap, subst, ◌∙◌, ◌⊎◌, text_eq_refl, String, true, false, &&_true, Option,
  List, [], ◌∷◌, ◌++◌, map, any, length, length-map, distinct_by, arith, Bool-cases, inl, inr,
  text_eq, is_nil, text_eq_sound,
}
use radioactive_ralph.Plan.{
  Group, group, Groups, nil, cons, Step, Plan, step_refs, walk_groups, walk_group, step_id,
}
use radioactive_ralph.Plan.Leaves.{leaves, walk_groups-leaves}
use radioactive_ralph.Plan.Json.{Json}
use radioactive_ralph.Plan.Parse.{Block, Parsed, parse}
use radioactive_ralph.Plan.Parse.Shape.{is_shaped, is_shaped_group, parse_shaped}
use radioactive_ralph.Plan.Validate.{
  with_ids, walk_plan_groups, walk_plan_group, walk_plan_steps, ids_of,
}
use radioactive_ralph.Orch.Import.{
  Located, id_or, step_task_id, GraphTaskSpec, ImportError, Imported, ok, err, collect_ids,
  choose_deps, spec_of, specs_loop, graph_specs, document_order_edges,
}
use radioactive_ralph.Orch.Edges.Leafwise.{keys, edges_of}
use radioactive_ralph.Orch.Edges.Walk.{document_order_edges-leaves}
use radioactive_ralph.Orch.Edges.Order.{located_of-edges}

with_ids-append : (xs ys : List Located) → with_ids (xs ++ ys) ≡ with_ids xs ++ with_ids ys
with_ids-append [] ys = refl
with_ids-append ((r, s) ∷ xs) ys =
    ap (λ t. (id_or s.metadata (step_id r), s) ∷ t) (with_ids-append xs ys)

mutual
  unfolding walk_plan_groups walk_groups is_shaped

  walk_plan_groups-walk_groups :
      (gs : Groups) (path : List ℕ) (i : ℕ)
      → is_shaped gs ≡ true
      → walk_plan_groups gs path i ≡ with_ids (walk_groups gs path i)
  walk_plan_groups-walk_groups nil path i h = refl
  walk_plan_groups-walk_groups (cons g gs) path i h =
      let (here, later) = &&_true (is_shaped_group g) (is_shaped gs) h in
      ap (λ a. a ++ walk_plan_groups gs path (suc i))
        (walk_plan_group-walk_group g (path ++ i ∷ []) here)
      ∙ ap (λ b. with_ids (walk_group g (path ++ i ∷ [])) ++ b)
          (walk_plan_groups-walk_groups gs path (suc i) later)
      ∙ sym (with_ids-append (walk_group g (path ++ i ∷ [])) (walk_groups gs path (suc i)))

  walk_plan_group-walk_group :
      (g : Group) (path : List ℕ)
      → is_shaped_group g ≡ true
      → walk_plan_group g path ≡ with_ids (walk_group g path)
  walk_plan_group-walk_group (group text level parallel steps nil) path h =
      append-nil (with_ids (step_refs path 0 steps))
  walk_plan_group-walk_group (group text level parallel [] (cons g gs)) path h =
      walk_plan_groups-walk_groups (cons g gs) path 0 (ground arith)
  walk_plan_group-walk_group (group text level parallel (s ∷ ss) (cons g gs)) path h =
      absurd (ground arith)

with_ids-ids : (xs : List Located) → ids_of (with_ids xs) ≡ map step_task_id xs
unfolding step_task_id
with_ids-ids [] = refl
with_ids-ids ((r, s) ∷ xs) = ap (λ t. id_or s.metadata (step_id r) ∷ t) (with_ids-ids xs)

Imported-cases :
    {A : Type 0} (m : Imported A) → ((a : A) × (m ≡ ok a)) ⊎ ((e : ImportError) × (m ≡ err e))
Imported-cases (ok a) = inl (a, refl)
Imported-cases (err e) = inr (e, refl)

not_seen :
    (id y : String) (seen : List String)
    → any (text_eq id) seen ≡ false
    → any (text_eq y) seen ≡ true
    → text_eq y id ≡ false
not_seen id y seen fresh there = elim (Bool-cases (text_eq y id)) [
  | inl same ↦
      absurd
        (ground (arith, subst (λ z. any (text_eq z) seen ≡ true) (text_eq_sound same) there, fresh))
  | inr other ↦ other
]

collect_ids-keys :
    (seen : List String) (xs : List Located) (ids : List String)
    → collect_ids seen xs ≡ ok ids
    → (map step_task_id xs ≡ ids)
      × (distinct_by text_eq ids ≡ true)
      × ((id : String) → any (text_eq id) seen ≡ true → any (text_eq id) ids ≡ false)
unfolding collect_ids
collect_ids-keys seen [] ids e =
    let same : [] ≡ ids = ground arith in
    (same, ap (distinct_by text_eq) (sym same), λ id h. ap (any (text_eq id)) (sym same))
collect_ids-keys seen (x ∷ xs) ids e =
    let id = step_task_id x in
    elim (Bool-cases (any (text_eq id) seen)) [
      | inl twice ↦ absurd (ground (arith, twice))
      | inr fresh ↦ elim (Imported-cases (collect_ids (id ∷ seen) xs)) [
        | inr (bad, p) ↦ absurd (ground (arith, fresh, p))
        | inl (rest, p) ↦
            let (keyed, apart, new) = collect_ids-keys (id ∷ seen) xs rest p in
            let same : id ∷ rest ≡ ids = ground (arith, fresh, p) in
            (
              ap (λ t. id ∷ t) keyed ∙ same,
              subst (λ t. distinct_by text_eq t ≡ true) same
                  (ground (arith, new id (ground (arith, text_eq_refl id)), apart)),
              λ y h.
                  subst (λ t. any (text_eq y) t ≡ false) same
                    (ground (arith, not_seen id y seen fresh h, new y (ground (arith, h)))),
            )
      ]
    ]

specs_loop-ids :
    (acceptance : Step → String) (all_ids : List String) (xs : List Located) (ids : List String)
    (docs : List (List String)) (specs : List GraphTaskSpec)
    → length ids ≡ length xs
    → length docs ≡ length xs
    → specs_loop acceptance all_ids xs ids docs ≡ ok specs
    → map (λ s. s.id) specs ≡ ids
unfolding specs_loop spec_of
specs_loop-ids acceptance all_ids [] [] docs specs a b e =
    let same : [] ≡ specs = ground arith in ap (map (λ s. s.id)) (sym same)
specs_loop-ids acceptance all_ids ((r, s) ∷ xs) (id ∷ ids) (doc ∷ docs) specs a b e =
    elim (Imported-cases (choose_deps all_ids id s.metadata doc)) [
      | inr (bad, p) ↦ absurd (ground (arith, p))
      | inl (deps, p) ↦ elim (Imported-cases (specs_loop acceptance all_ids xs ids docs)) [
        | inr (bad, q) ↦ absurd (ground (arith, p, q))
        | inl (rest, q) ↦
            let same : spec_of acceptance (r, s) id deps ∷ rest ≡ specs = ground (arith, p, q) in
            ap (map (λ s. s.id)) (sym same)
            ∙ ap (λ t. id ∷ t)
                (specs_loop-ids acceptance all_ids xs ids docs rest (omega (arith, a))
                  (omega (arith, b)) q)
      ]
    ]
specs_loop-ids acceptance all_ids [] (id ∷ ids) docs specs a b e = absurd (omega (arith, a))
specs_loop-ids acceptance all_ids (x ∷ xs) [] docs specs a b e = absurd (omega (arith, a))
specs_loop-ids acceptance all_ids (x ∷ xs) (id ∷ ids) [] specs a b e = absurd (omega (arith, b))

length-document_order_edges :
    (p : Plan)
    → length (document_order_edges p (keys step_task_id (walk_groups p [] 0)))
      ≡ length (walk_groups p [] 0)
length-document_order_edges p =
    let es = edges_of step_task_id [] (leaves p [] 0) in
    ap length (document_order_edges-leaves step_task_id p)
    ∙ length-map (λ (e : Located × List String). e.1) es
    ∙ sym (length-map (λ (e : Located × List String). e.0) es)
    ∙ ap length (located_of-edges step_task_id [] (leaves p [] 0) ∙ sym (walk_groups-leaves p [] 0))

-- The graph of a parsed plan has one task for each step that the validation of the import visits, under
-- the same id and in the same order, and no id twice.
pub graph_specs-ids :
    (read : String → Option (List Json)) (acceptance : Step → String) (bs : List Block) (p : Plan)
    (specs : List GraphTaskSpec)
    → parse read bs ≡ Parsed.ok p
    → graph_specs acceptance p ≡ ok specs
    → (map (λ s. s.id) specs ≡ ids_of (walk_plan_steps p))
      × (distinct_by text_eq (ids_of (walk_plan_steps p)) ≡ true)
unfolding graph_specs walk_plan_steps
graph_specs-ids read acceptance bs p specs parsed e =
    let nodes = walk_groups p [] 0 in
    let visited =
      ap ids_of (walk_plan_groups-walk_groups p [] 0 (parse_shaped read bs p parsed))
      ∙ with_ids-ids nodes in
    elim (Bool-cases (is_nil nodes)) [
      | inl empty ↦ absurd (ground (arith, empty))
      | inr full ↦ elim (Imported-cases (collect_ids [] nodes)) [
        | inr (bad, q) ↦ absurd (ground (arith, full, q))
        | inl (ids, q) ↦
            let (keyed, apart, _) = collect_ids-keys [] nodes ids q in
            let run : specs_loop acceptance ids nodes ids (document_order_edges p ids) ≡ ok specs =
              ground (arith, full, q) in
            (
              specs_loop-ids acceptance ids nodes ids (document_order_edges p ids) specs
                    (ap length (sym keyed) ∙ length-map step_task_id nodes)
                    (ap (λ t. length (document_order_edges p t)) (sym keyed)
                      ∙ length-document_order_edges p)
                    run
                  ∙ sym (visited ∙ keyed),
              subst (λ t. distinct_by text_eq t ≡ true) (sym (visited ∙ keyed)) apart,
            )
      ]
    ]
