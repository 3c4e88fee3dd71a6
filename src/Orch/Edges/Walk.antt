-- ===== src/Orch/Edges/Walk.antt =====
-- internal/orch/plan_import.go: the whole walk of `documentOrderEdges` against the edges leaf by leaf.
use radioactive_ralph.Prelude.{
  ℕ, suc, ◌+◌, ◌-◌, ◌≡◌, refl, sym, ap, ◌∙◌, String, Bool, true, false, List, [], ◌∷◌, ◌++◌, length,
  length-append, get_or, take, drop, arith, if◌then◌else◌, ◌||◌, ◌==◌,
}
use mathlib.Core.List.{append_assoc, append-nil, map-append}
use radioactive_ralph.Plan.{Plan, Group, group, Groups, nil, cons, Step, step_refs, walk_groups}
use radioactive_ralph.Plan.Leaves.{
  Leaf, leaves, leaves_of, all_located, all_located-append, walk_groups-leaves,
}
use radioactive_ralph.Orch.Import.{
  Located, EdgeState, visit_steps, finish_leaf, visit_leaf, visit, visit_group,
  document_order_edges,
}
use radioactive_ralph.Orch.Edges.Leafwise.{
  keys, chain_end, leaf_edges, terminals, edges_of, last_terminals, deps_of, get_or-middle,
  drop-append, take-append, push, state_path, advance-nil, advance-push, step_keys,
  length-step_keys, visit_steps-fan, visit_steps-chain,
}

abbrev settle : EdgeState → List (List String) → List String → ℕ → EdgeState
settle st new ts n = record { edges = st.edges ++ new; prev_terminals = ts; idx = st.idx + n }

module _ (key : Located → String) where
  edges_of-append :
      (prev : List String) (ls ms : List Leaf)
      → edges_of key prev (ls ++ ms)
        ≡ edges_of key prev ls ++ edges_of key (last_terminals key prev ls) ms
  edges_of-append prev [] ms = refl
  edges_of-append prev (l ∷ ls) ms =
      ap (λ t. leaf_edges key l.parallel prev l.located ++ t)
        (edges_of-append (terminals key l.parallel prev l.located) ls ms)
      ∙ sym (append_assoc (leaf_edges key l.parallel prev l.located) _ _)

  last_terminals-append :
      (prev : List String) (ls ms : List Leaf)
      → last_terminals key prev (ls ++ ms) ≡ last_terminals key (last_terminals key prev ls) ms
  last_terminals-append prev [] ms = refl
  last_terminals-append prev (l ∷ ls) ms =
      last_terminals-append (terminals key l.parallel prev l.located) ls ms

  chain_end-last :
      (ids pre : List String) (x : String) (post : List String) (path : List ℕ) (j : ℕ)
      (ss : List Step)
      → ids ≡ pre ++ x ∷ (step_keys key path j ss ++ post)
      → get_or ids (length pre + length ss) "" ∷ [] ≡ chain_end key (x ∷ []) (step_refs path j ss)
  chain_end-last ids pre x post path j [] e =
      let at : length pre + 0 ≡ length pre = omega arith in
      rw (e, at) (ap (λ t. t ∷ []) (get_or-middle pre x post ""))
  chain_end-last ids pre x post path j (s ∷ ss) e =
      let at : length pre + suc (length ss) ≡ length (pre ++ x ∷ []) + length ss =
        omega (arith, length-append pre (x ∷ [])) in
      rw at (
        chain_end-last ids (pre ++ x ∷ []) (key (record { group_path = path; index = j }, s)) post
          path (suc j) ss (e ∙ sym (append_assoc pre (x ∷ []) _)))

  fan_end :
      (ids pre post : List String) (path : List ℕ) (ss : List Step) (st : EdgeState)
      → ids ≡ pre ++ (step_keys key path 0 ss ++ post)
      → st.idx ≡ length pre
      → take (st.idx + length ss - st.idx) (drop st.idx ids) ≡ step_keys key path 0 ss
  fan_end ids pre post path ss st e p =
      let count : st.idx + length ss - st.idx ≡ length (step_keys key path 0 ss) =
        omega (arith, length-step_keys key path 0 ss) in
      ap (λ n. take n (drop st.idx ids)) count
      ∙ ap (take (length (step_keys key path 0 ss)))
          (ap (λ n. drop n ids) p ∙ ap (drop (length pre)) e ∙ drop-append pre _)
      ∙ take-append (step_keys key path 0 ss) post

  settle-settle :
      (st : EdgeState) (front back : List Leaf)
      → keys key (all_located (front ++ back))
        ≡ keys key (all_located front) ++ keys key (all_located back)
      → settle
          (settle st
            (deps_of (edges_of key st.prev_terminals front))
            (last_terminals key st.prev_terminals front)
            (length (keys key (all_located front))))
          (deps_of (edges_of key (last_terminals key st.prev_terminals front) back))
          (last_terminals key (last_terminals key st.prev_terminals front) back)
          (length (keys key (all_located back)))
        ≡ settle st
            (deps_of (edges_of key st.prev_terminals (front ++ back)))
            (last_terminals key st.prev_terminals (front ++ back))
            (length (keys key (all_located (front ++ back))))
  settle-settle st front back both =
      state_path
        (append_assoc st.edges _ _
          ∙ ap (λ t. st.edges ++ t)
              (sym (map-append (λ x. x.1) (edges_of key st.prev_terminals front) _)
                ∙ ap deps_of (sym (edges_of-append st.prev_terminals front back))))
        (sym (last_terminals-append st.prev_terminals front back))
        (omega (
          arith,
          ap length both,
          length-append (keys key (all_located front)) (keys key (all_located back)),
        ))

  visit_leaf-edges :
      (parallel : Bool) (ids pre post : List String) (path : List ℕ) (ss : List Step)
      (st : EdgeState)
      → ids ≡ pre ++ (step_keys key path 0 ss ++ post)
      → st.idx ≡ length pre
      → visit_leaf parallel ids ss st
        ≡ settle st
            (deps_of (leaf_edges key parallel st.prev_terminals (step_refs path 0 ss)))
            (terminals key parallel st.prev_terminals (step_refs path 0 ss))
            (length ss)
  visit_leaf-edges true ids pre post path [] st e p = advance-nil st
  visit_leaf-edges false ids pre post path [] st e p = advance-nil st
  visit_leaf-edges true ids pre post path (s ∷ ss) st e p =
      ap (finish_leaf true ids st.idx) (visit_steps-fan key ids st.idx path 0 (s ∷ ss) st)
      ∙ state_path refl (fan_end ids pre post path (s ∷ ss) st e p) refl
  visit_leaf-edges false ids pre post path (s ∷ ss) st e p =
      let k = key (record { group_path = path; index = 0 }, s) in
      let first : (if false || st.idx == st.idx
            then st.prev_terminals
            else get_or ids (st.idx - 1) "" ∷ [])
          ≡ st.prev_terminals =
        ground arith in
      let at : st.idx + suc (length ss) - 1 ≡ length pre + length ss = omega arith in
      ap (λ D. finish_leaf false ids st.idx (visit_steps false ids st.idx ss (push st D))) first
      ∙ ap (finish_leaf false ids st.idx) (
          visit_steps-chain key ids pre k post st.idx path 1 ss (push st st.prev_terminals) e
            (omega arith) (omega arith)
          ∙ advance-push st st.prev_terminals _ (length ss))
      ∙ state_path refl
          (ap (λ n. get_or ids n "" ∷ []) at ∙ chain_end-last ids pre k post path 1 ss e) refl

  mutual
    unfolding visit leaves

    visit-edges :
        (gs : Groups) (path : List ℕ) (i : ℕ) (ids pre post : List String) (st : EdgeState)
        → ids ≡ pre ++ (keys key (all_located (leaves gs path i)) ++ post)
        → st.idx ≡ length pre
        → visit ids gs st
          ≡ settle st
              (deps_of (edges_of key st.prev_terminals (leaves gs path i)))
              (last_terminals key st.prev_terminals (leaves gs path i))
              (length (keys key (all_located (leaves gs path i))))
    visit-edges nil path i ids pre post st e p = advance-nil st
    visit-edges (cons g gs) path i ids pre post st e p =
        let front = leaves_of g (path ++ i ∷ []) in
        let back = leaves gs path (suc i) in
        let front_keys = keys key (all_located front) in
        let both : keys key (all_located (front ++ back))
            ≡ front_keys ++ keys key (all_located back) =
          ap (keys key) (all_located-append front back)
          ∙ map-append key (all_located front) (all_located back) in
        let e' : ids ≡ pre ++ (front_keys ++ (keys key (all_located back) ++ post)) =
          e ∙ ap (λ t. pre ++ t) (ap (λ t. t ++ post) both ∙ append_assoc front_keys _ post) in
        let mid =
          settle st (deps_of (edges_of key st.prev_terminals front))
            (last_terminals key st.prev_terminals front) (length front_keys) in
        ap (visit ids gs) (visit_group-edges g (path ++ i ∷ []) ids pre _ st e' p)
        ∙ visit-edges gs path (suc i) ids (pre ++ front_keys) post mid
            (e' ∙ sym (append_assoc pre front_keys _)) (omega (arith, length-append pre front_keys))
        ∙ settle-settle st front back both

    visit_group-edges :
        (g : Group) (path : List ℕ) (ids pre post : List String) (st : EdgeState)
        → ids ≡ pre ++ (keys key (all_located (leaves_of g path)) ++ post)
        → st.idx ≡ length pre
        → visit_group ids g st
          ≡ settle st
              (deps_of (edges_of key st.prev_terminals (leaves_of g path)))
              (last_terminals key st.prev_terminals (leaves_of g path))
              (length (keys key (all_located (leaves_of g path))))
    visit_group-edges (group heading level parallel steps nil) path ids pre post st e p =
        let plain = append-nil (step_refs path 0 steps) in
        visit_leaf-edges parallel ids pre post path steps st
          (e ∙ ap (λ t. pre ++ (keys key t ++ post)) plain) p
        ∙ state_path
            (ap (λ t. st.edges ++ deps_of t)
              (sym
                (append-nil (leaf_edges key parallel st.prev_terminals (step_refs path 0 steps)))))
            refl
            (omega (arith, length-step_keys key path 0 steps, ap (λ t. length (keys key t)) plain))
    visit_group-edges (group heading level parallel steps (cons g gs)) path ids pre post st e p =
        visit-edges (cons g gs) path 0 ids pre post st e p

  -- The edges that the walk writes, in its order, are the edges leaf by leaf.
  pub document_order_edges-leaves :
      (p : Plan)
      → document_order_edges p (keys key (walk_groups p [] 0))
        ≡ deps_of (edges_of key [] (leaves p [] 0))
  unfolding document_order_edges
  document_order_edges-leaves p =
      let all = keys key (walk_groups p [] 0) in
      let e =
        ap (keys key) (walk_groups-leaves p [] 0)
        ∙ sym (append-nil (keys key (all_located (leaves p [] 0)))) in
      ap (λ (s : EdgeState). s.edges) (visit-edges p [] 0 all [] [] _ e refl)
