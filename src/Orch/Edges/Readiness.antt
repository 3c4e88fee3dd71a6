-- ===== src/Orch/Edges/Readiness.antt =====
-- Which edges are ready, leaf by leaf: the edge walk against the positional walk of
-- internal/plan/decompose.go.
use radioactive_ralph.Prelude.{
  ◌≡◌, refl, sym, ap, ◌∙◌, &&_true, String, Bool, true, false, not, ◌&&◌, ◌||◌, Option, none, some,
  List, [], ◌∷◌, ◌++◌, map, all, all-append, filterb, filterb-append, is_nil, inl, inr, arith,
  Bool-cases,
}
use mathlib.Core.Path.{ap₂}
use mathlib.Core.List.{append-nil, map-append}
use radioactive_ralph.Plan.{StepRef, DoneSet, Ready, step_id, steps_done, leaf_loop, leaf_ready}
use radioactive_ralph.Plan.Leaves.{Leaf, first_open}
use radioactive_ralph.Orch.Import.{Located}
use radioactive_ralph.Orch.Edges.Leafwise.{
  keys, fan_edges, chain_edges, chain_end, leaf_edges, terminals, edges_of,
}

abbrev pub Edge : Type 0
Edge = Located × List String

-- The key of a step of a plan without explicit ids.
abbrev pub key : Located → String
key x = step_id x.0

module _ (done : DoneSet) where
  abbrev pub ready_edge : (Located → String) → Located × List String → Bool
  ready_edge f e = not (done (f e.0)) && all done e.1

  abbrev pub closed_edge : (Located → String) → Located × List String → Bool
  closed_edge f e = not (done (f e.0)) || all done e.1

  abbrev pub ready : List Edge → List Edge
  ready = filterb (ready_edge key)

  abbrev pub closed : List Edge → Bool
  closed = all (closed_edge key)

  -- Where the terminals before them are not all done, no step of a leaf is done or ready.
  fan_blocked :
      (prev : List String) (xs : List Located)
      → all done prev ≡ false
      → closed (fan_edges key prev xs) ≡ true
      → (ready (fan_edges key prev xs) ≡ [])
        × (steps_done done xs ≡ is_nil xs)
        × (all done (keys key xs) ≡ is_nil xs)
  fan_blocked prev [] b c = (refl, refl, refl)
  fan_blocked prev (x ∷ xs) b c = ground (arith, fan_blocked prev xs b)

  chain_blocked :
      (prev : List String) (xs : List Located)
      → all done prev ≡ false
      → closed (chain_edges key prev xs) ≡ true
      → (ready (chain_edges key prev xs) ≡ [])
        × (steps_done done xs ≡ is_nil xs)
        × (all done (chain_end key prev xs) ≡ false)
  chain_blocked prev [] b c = (refl, refl, b)
  chain_blocked prev (x ∷ xs) b c = ground (arith, chain_blocked (key x ∷ []) xs)

  leaf_blocked :
      (parallel : Bool) (prev : List String) (xs : List Located)
      → all done prev ≡ false
      → closed (leaf_edges key parallel prev xs) ≡ true
      → (ready (leaf_edges key parallel prev xs) ≡ [])
        × (all done (terminals key parallel prev xs) ≡ false)
  leaf_blocked true prev [] b c = (refl, b)
  leaf_blocked false prev [] b c = (refl, b)
  leaf_blocked true prev (x ∷ xs) b c = let (r, s, t) = fan_blocked prev (x ∷ xs) b c in (r, t)
  leaf_blocked false prev (x ∷ xs) b c = let (r, s, t) = chain_blocked prev (x ∷ xs) b c in (r, t)

  leaves_blocked :
      (prev : List String) (ls : List Leaf)
      → all done prev ≡ false
      → closed (edges_of key prev ls) ≡ true
      → ready (edges_of key prev ls) ≡ []
  leaves_blocked prev [] b c = refl
  leaves_blocked prev (l ∷ ls) b c =
      let front = leaf_edges key l.parallel prev l.located in
      let (c₁, c₂) = &&_true _ _ (sym (all-append (closed_edge key) front _) ∙ c) in
      let (r, t) = leaf_blocked l.parallel prev l.located b c₁ in
      filterb-append (ready_edge key) front _
      ∙ ap₂ (λ u v. u ++ v) r (leaves_blocked (terminals key l.parallel prev l.located) ls t c₂)

  abbrev pub located_of : List Edge → List Located
  located_of es = map (λ e. e.0) es

  fan_open :
      (prev : List String) (xs : List Located)
      → all done prev ≡ true
      → (located_of (ready (fan_edges key prev xs)) ≡ leaf_loop true done xs)
        × (all done (keys key xs) ≡ steps_done done xs)
  fan_open prev [] b = (refl, refl)
  fan_open prev (x ∷ xs) b = ground (arith, fan_open prev xs b)

  chain_open :
      (prev : List String) (xs : List Located)
      → all done prev ≡ true
      → closed (chain_edges key prev xs) ≡ true
      → (located_of (ready (chain_edges key prev xs)) ≡ leaf_loop false done xs)
        × (all done (chain_end key prev xs) ≡ steps_done done xs)
  chain_open prev [] b c = (refl, b)
  chain_open prev (x ∷ xs) b c =
      ground (arith, chain_open (key x ∷ []) xs, chain_blocked (key x ∷ []) xs)

  leaf_open :
      (parallel : Bool) (prev : List String) (xs : List Located)
      → all done prev ≡ true
      → closed (leaf_edges key parallel prev xs) ≡ true
      → (located_of (ready (leaf_edges key parallel prev xs)) ≡ leaf_loop parallel done xs)
        × (all done (terminals key parallel prev xs) ≡ steps_done done xs)
  leaf_open true prev [] b c = (refl, b)
  leaf_open false prev [] b c = (refl, b)
  leaf_open true prev (x ∷ xs) b c = fan_open prev (x ∷ xs) b
  leaf_open false prev (x ∷ xs) b c = chain_open prev (x ∷ xs) b c

  loop-nil :
      (parallel : Bool) (xs : List Located)
      → is_nil (leaf_loop parallel done xs) ≡ steps_done done xs
  loop-nil parallel [] = refl
  loop-nil parallel (x ∷ xs) = ground (arith, loop-nil parallel xs)

  abbrev pub refs_of : Option Ready → List StepRef
  refs_of none = []
  refs_of (some r) = r.refs

  leaf_ready-refs :
      (parallel : Bool) (xs : List Located)
      → refs_of (leaf_ready parallel xs done) ≡ map (λ x. x.0) (leaf_loop parallel done xs)
  unfolding leaf_ready
  leaf_ready-refs parallel xs = go (leaf_loop parallel done xs) refl
    where
      go :
          (loop : List Located)
          → leaf_loop parallel done xs ≡ loop
          → refs_of (leaf_ready parallel xs done) ≡ map (λ x. x.0) (leaf_loop parallel done xs)
      go [] e = rw e
      go (y ∷ ys) e = rw e

  abbrev pub ready_refs : List Edge → List StepRef
  ready_refs es = map (λ x. x.0) (located_of (ready es))

  ready_refs-append : (es fs : List Edge) → ready_refs (es ++ fs) ≡ ready_refs es ++ ready_refs fs
  ready_refs-append es fs = simp (filterb-append, map-append)

  is_nil_sound : (xs : List Located) → is_nil xs ≡ true → xs ≡ []
  is_nil_sound [] h = refl
  is_nil_sound (x ∷ xs) h = cc

  pub leaves_open :
      (prev : List String) (ls : List Leaf)
      → all done prev ≡ true
      → closed (edges_of key prev ls) ≡ true
      → ready_refs (edges_of key prev ls) ≡ refs_of (first_open done ls)
  leaves_open prev [] b c = refl
  leaves_open prev (l ∷ ls) b c =
      let front = leaf_edges key l.parallel prev l.located in
      let next = terminals key l.parallel prev l.located in
      let (c₁, c₂) = &&_true _ _ (sym (all-append (closed_edge key) front _) ∙ c) in
      let (r, t) = leaf_open l.parallel prev l.located b c₁ in
      ready_refs-append front (edges_of key next ls)
      ∙ elim (Bool-cases (steps_done done l.located)) [
        | inl d ↦ rw d (
            ap₂ (λ u v. u ++ v)
              (ap (map (λ x. x.0)) (r ∙ is_nil_sound _ (loop-nil l.parallel l.located ∙ d)))
              (leaves_open next ls (t ∙ d) c₂))
        | inr d ↦ rw d (
            ap₂ (λ u v. u ++ v) (ap (map (λ x. x.0)) r ∙ sym (leaf_ready-refs l.parallel l.located))
              (ap (λ es. map (λ x. x.0) (located_of es)) (leaves_blocked next ls (t ∙ d) c₂))
            ∙ append-nil _)
      ]
