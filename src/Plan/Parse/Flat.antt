-- ===== src/Plan/Parse/Flat.antt =====
-- The nested walk over headings in internal/plan/parse.go, against one pass over the blocks.
use radioactive_ralph.Prelude.{
  ℕ, suc, ◌≡◌, refl, ap, ◌∙◌, String, Bool, true, Option, List, [], ◌∷◌, ◌++◌, map, if◌then◌else◌,
  leb,
}
use radioactive_ralph.Plan.{
  Group, group, Groups, nil, cons, Step, Plan, no_groups, step_refs, walk_groups, walk_group,
  StepRef,
}
use radioactive_ralph.Plan.Json.{Json}
use radioactive_ralph.Plan.Parse.{
  Block, heading, list, paragraph, other, Parsed, ok, ◌>>=◌, parse_leaf_section,
}

-- Whether the section of a heading of this level has no heading inside: the next one closes it.
abbrev pub is_leaf : ℕ → List Block → Bool
is_leaf level [] = true
is_leaf level (heading l t ∷ bs) = leb l level
is_leaf level (list o is ∷ bs) = is_leaf level bs
is_leaf level (paragraph t ∷ bs) = is_leaf level bs
is_leaf level (other ∷ bs) = is_leaf level bs

abbrev pub until_heading : List Block → List Block
until_heading [] = []
until_heading (heading l t ∷ bs) = []
until_heading (list o is ∷ bs) = list o is ∷ until_heading bs
until_heading (paragraph t ∷ bs) = paragraph t ∷ until_heading bs
until_heading (other ∷ bs) = other ∷ until_heading bs

infixr 6 ◌then_steps◌
abbrev pub ◌then_steps◌ : Parsed (List Step) → Parsed (List Step) → Parsed (List Step)
m then_steps n = m >>= λ a. n >>= λ b. ok (a ++ b)

module _ (read : String → Option (List Json)) where
  abbrev pub section_steps : List Block → Parsed (List Step)
  section_steps bs = parse_leaf_section read bs >>= λ l. ok l.0

  -- One pass: the steps of every heading that the next heading closes.
  unfoldable pub leaf_steps : List Block → Parsed (List Step)
  leaf_steps [] = ok []
  leaf_steps (heading l t ∷ bs) =
      (if is_leaf l bs then section_steps (until_heading bs) else ok []) then_steps leaf_steps bs
  leaf_steps (list o is ∷ bs) = leaf_steps bs
  leaf_steps (paragraph t ∷ bs) = leaf_steps bs
  leaf_steps (other ∷ bs) = leaf_steps bs

unfoldable mutual
  pub flatten : Groups → List Step
  flatten nil = []
  flatten (cons g gs) = flatten_group g ++ flatten gs

  pub flatten_group : Group → List Step
  flatten_group (group text level parallel steps subs) =
      let inner = flatten subs in if no_groups subs then steps else inner

-- The steps that `walkGroups` visits.
abbrev pub steps_in : Plan → List Step
steps_in p = map (λ x. x.1) (walk_groups p [] 0)

step_refs-steps :
    (path : List ℕ) (j : ℕ) (ss : List Step) → map (λ x. x.1) (step_refs path j ss) ≡ ss
step_refs-steps path j [] = refl
step_refs-steps path j (s ∷ ss) = ap (λ t. s ∷ t) (step_refs-steps path (suc j) ss)

map_append {ℓ κ} :
    {A : Type ℓ} {B : Type κ} (f : A → B) (xs ys : List A) → map f (xs ++ ys) ≡ map f xs ++ map f ys
map_append f [] ys = refl
map_append f (x ∷ xs) ys = ap (λ t. f x ∷ t) (map_append f xs ys)

mutual
  unfolding walk_groups flatten

  pub walk_groups-flatten :
      (gs : Groups) (path : List ℕ) (i : ℕ) → map (λ x. x.1) (walk_groups gs path i) ≡ flatten gs
  walk_groups-flatten nil path i = refl
  walk_groups-flatten (cons g gs) path i =
      map_append (λ (x : StepRef × Step). x.1) (walk_group g (path ++ i ∷ []))
        (walk_groups gs path (suc i))
      ∙ ap (λ a. a ++ map (λ x. x.1) (walk_groups gs path (suc i)))
          (walk_group-flatten g (path ++ i ∷ []))
      ∙ ap (λ b. flatten_group g ++ b) (walk_groups-flatten gs path (suc i))

  walk_group-flatten :
      (g : Group) (path : List ℕ) → map (λ x. x.1) (walk_group g path) ≡ flatten_group g
  walk_group-flatten (group text level parallel steps nil) path = step_refs-steps path 0 steps
  walk_group-flatten (group text level parallel steps (cons g gs)) path =
      walk_groups-flatten (cons g gs) path 0
