-- ===== src/Plan/Leaves.antt =====
-- A plan as the sequence of its leaf groups, which is how the nested walks of
-- internal/plan/decompose.go read it.
use radioactive_ralph.Prelude.{
  ℕ, suc, ◌≡◌, refl, sym, ap, ◌∙◌, Bool, true, false, ◌&&◌, Option, none, List, [], ◌∷◌, ◌++◌, inl,
  inr, arith, Bool-cases, if◌then◌else◌,
}
use mathlib.Core.List.{append_assoc, append-nil}
use radioactive_ralph.Plan.{
  Group, group, Groups, nil, cons, Step, StepRef, DoneSet, Ready, no_groups, step_refs, walk_groups,
  walk_group, steps_done, group_done, groups_done, leaf_ready, decompose_groups, decompose_group,
}

pub record Leaf : Type 0 where
  pub parallel : Bool
  pub located : List (StepRef × Step)

unfoldable mutual
  pub leaves : Groups → List ℕ → ℕ → List Leaf
  leaves nil path i = []
  leaves (cons g gs) path i = leaves_of g (path ++ i ∷ []) ++ leaves gs path (suc i)

  pub leaves_of : Group → List ℕ → List Leaf
  leaves_of (group heading level parallel steps subs) path =
      let inner = leaves subs path 0 in
      if no_groups subs
      then record { parallel = parallel; located = step_refs path 0 steps } ∷ []
      else inner

abbrev pub all_located : List Leaf → List (StepRef × Step)
all_located [] = []
all_located (l ∷ ls) = l.located ++ all_located ls

abbrev pub leaves_done : DoneSet → List Leaf → Bool
leaves_done done [] = true
leaves_done done (l ∷ ls) = steps_done done l.located && leaves_done done ls

-- The first leaf that is not done.
abbrev pub first_open : DoneSet → List Leaf → Option Ready
first_open done [] = none
first_open done (l ∷ ls) =
    let rest = first_open done ls in
    if steps_done done l.located then rest else leaf_ready l.parallel l.located done

pub all_located-append :
    (ls ms : List Leaf) → all_located (ls ++ ms) ≡ all_located ls ++ all_located ms
all_located-append [] ms = refl
all_located-append (l ∷ ls) ms =
    ap (λ t. l.located ++ t) (all_located-append ls ms) ∙ sym (append_assoc l.located _ _)

leaves_done-append :
    (done : DoneSet) (ls ms : List Leaf)
    → leaves_done done (ls ++ ms) ≡ (leaves_done done ls && leaves_done done ms)
leaves_done-append done [] ms = refl
leaves_done-append done (l ∷ ls) ms = ground (arith, leaves_done-append done ls ms)

first_open-append :
    (done : DoneSet) (ls ms : List Leaf)
    → first_open done (ls ++ ms)
      ≡ (if leaves_done done ls then first_open done ms else first_open done ls)
first_open-append done [] ms = refl
first_open-append done (l ∷ ls) ms = elim (Bool-cases (steps_done done l.located)) [
  | inl e ↦ rw e (first_open-append done ls ms)
  | inr e ↦ rw e
]

mutual
  unfolding leaves walk_groups

  pub walk_groups-leaves :
      (gs : Groups) (path : List ℕ) (i : ℕ) → walk_groups gs path i ≡ all_located (leaves gs path i)
  walk_groups-leaves nil path i = refl
  walk_groups-leaves (cons g gs) path i =
      ap (λ t. t ++ walk_groups gs path (suc i)) (walk_group-leaves g (path ++ i ∷ []))
      ∙ ap (λ t. all_located (leaves_of g (path ++ i ∷ [])) ++ t)
          (walk_groups-leaves gs path (suc i))
      ∙ sym (all_located-append (leaves_of g (path ++ i ∷ [])) (leaves gs path (suc i)))

  walk_group-leaves :
      (g : Group) (path : List ℕ) → walk_group g path ≡ all_located (leaves_of g path)
  walk_group-leaves (group heading level parallel steps nil) path = sym (append-nil _)
  walk_group-leaves (group heading level parallel steps (cons g gs)) path =
      walk_groups-leaves (cons g gs) path 0

mutual
  unfolding leaves group_done

  pub groups_done-leaves :
      (gs : Groups) (path : List ℕ) (i : ℕ) (done : DoneSet)
      → groups_done gs path i done ≡ leaves_done done (leaves gs path i)
  groups_done-leaves nil path i done = refl
  groups_done-leaves (cons g gs) path i done = ground (
    arith,
    group_done-leaves g (path ++ i ∷ []) done,
    groups_done-leaves gs path (suc i) done,
    leaves_done-append done (leaves_of g (path ++ i ∷ [])) (leaves gs path (suc i)),
  )

  group_done-leaves :
      (g : Group) (path : List ℕ) (done : DoneSet)
      → group_done g path done ≡ leaves_done done (leaves_of g path)
  group_done-leaves (group heading level parallel steps nil) path done = ground arith
  group_done-leaves (group heading level parallel steps (cons g gs)) path done =
      groups_done-leaves (cons g gs) path 0 done

mutual
  unfolding leaves decompose_groups

  pub decompose_groups-leaves :
      (gs : Groups) (path : List ℕ) (i : ℕ) (done : DoneSet)
      → decompose_groups gs path i done ≡ first_open done (leaves gs path i)
  decompose_groups-leaves nil path i done = refl
  decompose_groups-leaves (cons g gs) path i done =
      rw
        (
          group_done-leaves g (path ++ i ∷ []) done,
          first_open-append done (leaves_of g (path ++ i ∷ [])) (leaves gs path (suc i)),
        )
        (elim (Bool-cases (leaves_done done (leaves_of g (path ++ i ∷ [])))) [
          | inl e ↦ rw e (decompose_groups-leaves gs path (suc i) done)
          | inr e ↦ rw e (decompose_group-leaves g (path ++ i ∷ []) done e)
        ])

  decompose_group-leaves :
      (g : Group) (path : List ℕ) (done : DoneSet)
      → leaves_done done (leaves_of g path) ≡ false
      → decompose_group g path done ≡ first_open done (leaves_of g path)
  decompose_group-leaves (group heading level parallel steps nil) path done h = ground arith
  decompose_group-leaves (group heading level parallel steps (cons g gs)) path done h =
      decompose_groups-leaves (cons g gs) path 0 done
