-- ===== src/Plan.antt =====
-- internal/plan/types.go and internal/plan/decompose.go: the shape of a parsed plan, the positional
-- task ids, and the walk that says which steps are dispatchable now.
pub mod Leaves
pub mod Json
pub mod Texts
pub mod Metadata
pub mod Parse
pub mod Validate
pub mod Samples
use radioactive_ralph.Prelude.Int.{ℤ}
use radioactive_ralph.Prelude.{
  ℕ, zero, suc, ◌+◌, String, Bool, true, false, not, ◌&&◌, Option, none, some, List, [], ◌∷◌, ◌++◌,
  map, get_elem?, is_nil, if◌then◌else◌, itoa, join,
}

pub record TaskBinding : Type 0 where
  pub mode : String
  pub alias : String
  pub provider : String
  pub model : String
  pub effort : String
  pub calibration : String
  pub repetitions : ℤ
  pub fixture : String

pub record TaskInput : Type 0 where
  pub path : String
  pub sha256 : String

pub record TaskOutput : Type 0 where
  pub path : String
  pub mode : String

-- `after` tells an omitted key (`none`) from an explicitly empty one (`some []`).
pub record TaskMetadata : Type 0 where
  pub id : String
  pub after : Option (List String)
  pub team : String
  pub binding : TaskBinding
  pub requires : List String
  pub providers : List String
  pub different_from : List String
  pub inputs : List TaskInput
  pub outputs : List TaskOutput

pub record Step : Type 0 where
  pub text : String
  pub detail : String
  pub requires_approval : Bool
  pub metadata : Option TaskMetadata

mutual
  pub data Group : Type 0 where
    group :
        (heading : String) (level : ℕ) (parallel : Bool) (steps : List Step) (sub_groups : Groups)
        → Group

  pub data Groups : Type 0 where
    nil : Groups
    cons : Group → Groups → Groups

-- `Plan`: the groups in document order.
abbrev pub Plan : Type 0
Plan = Groups

abbrev pub no_groups : Groups → Bool
no_groups nil = true
no_groups (cons g gs) = false

pub record StepRef : Type 0 where
  pub group_path : List ℕ
  pub index : ℕ

-- A group or step index is never negative here.
unfoldable pub step_id : StepRef → String
step_id r = join (map itoa r.group_path ++ itoa r.index ∷ []) "."

unfoldable pub group_id : StepRef → String
group_id r = join (map itoa r.group_path) "."

-- The second result tells whether the author stated the edges at all.
unfoldable pub depends_on : Option TaskMetadata → List String × Bool
depends_on none = ([], false)
depends_on (some m) = elim m.after [ none ↦ ([], false) | some ids ↦ (ids, true) ]

-- The steps of one leaf group from index `j` on, with their positions.
abbrev pub step_refs : List ℕ → ℕ → List Step → List (StepRef × Step)
step_refs path j [] = []
step_refs path j (s ∷ ss) = (record { group_path = path; index = j }, s) ∷ step_refs path (suc j) ss

-- `walkGroups`, with the calls of its callback collected in order; `i` is the index of the
-- first of the groups in their parent.
unfoldable mutual
  pub walk_groups : Groups → List ℕ → ℕ → List (StepRef × Step)
  walk_groups nil path i = []
  walk_groups (cons g gs) path i = walk_group g (path ++ i ∷ []) ++ walk_groups gs path (suc i)

  pub walk_group : Group → List ℕ → List (StepRef × Step)
  walk_group (group heading level parallel steps subs) path =
      let inner = walk_groups subs path 0 in
      if no_groups subs then step_refs path 0 steps else inner

abbrev pub DoneSet : Type 0
DoneSet = String → Bool

abbrev pub steps_done : DoneSet → List (StepRef × Step) → Bool
steps_done done [] = true
steps_done done ((r, s) ∷ rest) = done (step_id r) && steps_done done rest

unfoldable mutual
  pub group_done : Group → List ℕ → DoneSet → Bool
  group_done (group heading level parallel steps subs) path done =
      let inner = groups_done subs path 0 done in
      if no_groups subs then steps_done done (step_refs path 0 steps) else inner

  -- The loop of `groupDone` over the subgroups.
  pub groups_done : Groups → List ℕ → ℕ → DoneSet → Bool
  groups_done nil path i done = true
  groups_done (cons g gs) path i done =
      group_done g (path ++ i ∷ []) done && groups_done gs path (suc i) done

pub record Ready : Type 0 where
  pub steps : List Step
  pub refs : List StepRef
  pub parallel : Bool

-- The loop of `leafReady`: a sequential leaf stops at its first step that is not done.
abbrev pub leaf_loop : Bool → DoneSet → List (StepRef × Step) → List (StepRef × Step)
leaf_loop parallel done [] = []
leaf_loop parallel done ((r, s) ∷ rest) =
    let more = leaf_loop parallel done rest in
    if done (step_id r) then more else (r, s) ∷ (if parallel then more else [])

-- `none` is the result with `ok` false.
unfoldable pub leaf_ready : Bool → List (StepRef × Step) → DoneSet → Option Ready
leaf_ready parallel located done =
    let ready = leaf_loop parallel done located in
    if is_nil ready
    then none
    else some
        (record { steps = map (λ x. x.1) ready; refs = map (λ x. x.0) ready; parallel = parallel })

unfoldable mutual
  pub decompose_groups : Groups → List ℕ → ℕ → DoneSet → Option Ready
  decompose_groups nil path i done = none
  decompose_groups (cons g gs) path i done =
      let next = decompose_groups gs path (suc i) done in
      let here = decompose_group g (path ++ i ∷ []) done in
      if group_done g (path ++ i ∷ []) done then next else here

  -- The body of the loop for a group that is not done.
  pub decompose_group : Group → List ℕ → DoneSet → Option Ready
  decompose_group (group heading level parallel steps subs) path done =
      let inner = decompose_groups subs path 0 done in
      if no_groups subs then leaf_ready parallel (step_refs path 0 steps) done else inner

-- `DecomposeRefs`; `Decompose` drops the refs.
unfoldable pub decompose_refs : Plan → DoneSet → List Step × List StepRef × Bool
unfolding decompose_groups
decompose_refs p done = elim (decompose_groups p [] 0 done) [
  | none ↦ ([], [], false)
  | some r ↦ (r.steps, r.refs, r.parallel)
]

unfoldable pub decompose : Plan → DoneSet → List Step × Bool
unfolding decompose_groups
decompose p done = elim (decompose_groups p [] 0 done) [
  | none ↦ ([], false)
  | some r ↦ (r.steps, r.parallel)
]

unfoldable pub step_ids : Plan → List String
unfolding walk_groups step_id
step_ids p = map (λ x. step_id x.0) (walk_groups p [] 0)

-- `groups[idx]`; an index out of range is `none`.
abbrev pub nth_group : Groups → ℕ → Option Group
nth_group nil i = none
nth_group (cons g gs) zero = some g
nth_group (cons g gs) (suc i) = nth_group gs i

abbrev pub sub_groups : Group → Groups
sub_groups (group heading level parallel steps subs) = subs

abbrev pub group_steps : Group → List Step
group_steps (group heading level parallel steps subs) = steps

-- The zero value of the Go struct.
abbrev pub empty_group : Group
empty_group = group "" 0 false [] nil

-- The loop of `StepAt` over the group path.
walk_path : Groups → Group → List ℕ → Option Group
walk_path gs g [] = some g
walk_path gs g (i ∷ path) = elim (nth_group gs i) [
  | none ↦ none
  | some h ↦ walk_path (sub_groups h) h path
]

-- `StepAt`: `none` is an index out of range. Negative indices do not occur in a `StepRef`.
unfoldable pub step_at : Plan → StepRef → Option (Step × Group)
unfolding walk_path
step_at p ref = elim (walk_path p empty_group ref.group_path) [
  | none ↦ none
  | some g ↦ elim (get_elem? (group_steps g) ref.index) [ none ↦ none | some s ↦ some (s, g) ]
]
