-- ===== src/Plan/Validate.antt =====
-- internal/plan/validate.go: what an import refuses. A finding carries the names in its message; the
-- line number and the wording are left out.
pub mod Rings
pub mod Found
pub mod Fuel
pub mod Admission
pub mod Import
use mathlib.Core.List.{reverse}
use radioactive_ralph.Prelude.{
  ℕ, zero, suc, ◌+◌, String, Bool, true, false, not, ◌&&◌, ◌||◌, Option, none, some, List, [], ◌∷◌,
  ◌++◌, map, any, all, length, filterb, is_nil, if◌then◌else◌, leb, ltb, ◌==◌, text_eq,
}
use radioactive_ralph.Plan.{
  Group, group, Groups, nil, cons, Step, StepRef, Plan, TaskMetadata, step_id, step_refs,
}
use radioactive_ralph.Plan.Json.{Json}
use radioactive_ralph.Plan.Texts.{trim_space}
use radioactive_ralph.Plan.Parse.{
  Block, heading, list, paragraph, other, Parsed, ParseError, section_end, section_body,
  has_heading, parse,
}

pub data Finding : Type 0 where
  empty_document no_steps out_of_fuel : Finding
  leaf_without_list leading_paragraph mixed_lists : String → Finding
  empty_peer own_peer : String → Finding
  unknown_peer : String → String → Finding
  ring : List String → Finding

-- The id of a task of the plan: `walkPlanSteps`.
abbrev named : Option TaskMetadata → String → String
named none id = id
named (some m) id = if text_eq m.id "" then id else m.id

abbrev pub with_ids : List (StepRef × Step) → List (String × Step)
with_ids [] = []
with_ids ((r, s) ∷ rest) = (named s.metadata (step_id r), s) ∷ with_ids rest

unfoldable mutual
  unfolding step_id

  pub walk_plan_groups : Groups → List ℕ → ℕ → List (String × Step)
  walk_plan_groups nil path i = []
  walk_plan_groups (cons g gs) path i =
      walk_plan_group g (path ++ i ∷ []) ++ walk_plan_groups gs path (suc i)

  pub walk_plan_group : Group → List ℕ → List (String × Step)
  walk_plan_group (group text level parallel steps subs) path =
      with_ids (step_refs path 0 steps) ++ walk_plan_groups subs path 0

-- `walkPlanSteps`, with the calls of its callback collected in order.
unfoldable pub walk_plan_steps : Plan → List (String × Step)
unfolding walk_plan_groups
walk_plan_steps p = walk_plan_groups p [] 0

unfoldable mutual
  pub count_plan_steps : Groups → ℕ
  count_plan_steps nil = 0
  count_plan_steps (cons g gs) = count_group_steps g + count_plan_steps gs

  pub count_group_steps : Group → ℕ
  count_group_steps (group text level parallel steps subs) = length steps + count_plan_steps subs

abbrev pub different_from_of : Step → List String
different_from_of s = elim s.metadata [ none ↦ [] | some m ↦ m.different_from ]

abbrev pub check_peer : List (String × Step) → String → String → List Finding
check_peer known id peer =
    if text_eq peer ""
    then empty_peer id ∷ []
    else (if text_eq peer id
        then own_peer id ∷ []
        else (if any (λ k. text_eq k.0 peer) known then [] else unknown_peer id peer ∷ []))

unfoldable pub check_peers : List (String × Step) → String → List String → List Finding
unfolding trim_space
check_peers known id [] = []
check_peers known id (raw ∷ raws) =
    check_peer known id (trim_space raw) ++ check_peers known id raws

unfoldable pub check_steps : List (String × Step) → List (String × Step) → List Finding
unfolding check_peers
check_steps known [] = []
check_steps known ((id, s) ∷ rest) =
    check_peers known id (different_from_of s) ++ check_steps known rest

-- The map `peers` of `validateDifferentFromAcyclic`, as its entries in the order of the appends.
unfoldable pub peer_entries : String → List String → List (String × String)
unfolding trim_space
peer_entries id [] = []
peer_entries id (raw ∷ raws) =
    let rest = peer_entries id raws in
    let peer = trim_space raw in
    if text_eq peer "" then rest else (if text_eq peer id then rest else (id, peer) ∷ rest)

unfoldable pub all_peers : List (String × Step) → List (String × String)
unfolding peer_entries
all_peers [] = []
all_peers ((id, s) ∷ rest) = peer_entries id (different_from_of s) ++ all_peers rest

-- `peers[id]`
abbrev pub peers_of : List (String × String) → String → List String
peers_of entries id = map (λ e. e.1) (filterb (λ e. text_eq e.0 id) entries)

pub data Mark : Type 0 where
  unvisited on_stack done : Mark

-- The map `state`, newest write first.
abbrev pub Marks : Type 0
Marks = List (String × Mark)

abbrev pub mark_of : Marks → String → Mark
mark_of [] id = unvisited
mark_of ((i, m) ∷ st) id = let rest = mark_of st id in if text_eq i id then m else rest

-- How a visit ends: with a ring, the newest node first, or with the marks so far.
pub data Search : Type 0 where
  ring_found : List String → Search
  spent : Search
  clear : Marks → Search

abbrev pub resume : Search → (Marks → Search) → Search
resume (ring_found c) go_on = ring_found c
resume spent go_on = spent
resume (clear st) go_on = go_on st

-- The loop over the peers of the node on top of `path`.
abbrev pub visit_peers : (String → Marks → Search) → List String → List String → Marks → Search
visit_peers visit_one path [] st = clear st
visit_peers visit_one path (q ∷ qs) st = elim (mark_of st q) [
  | on_stack ↦ ring_found (q ∷ path)
  | unvisited ↦ resume (visit_one q st) (visit_peers visit_one path qs)
  | done ↦ visit_peers visit_one path qs st
]

abbrev pub finish_node : String → Search → Search
finish_node id (ring_found c) = ring_found c
finish_node id spent = spent
finish_node id (clear st) = clear ((id, done) ∷ st)

unfoldable pub visit_peer : ℕ → List (String × String) → List String → String → Marks → Search
visit_peer zero entries path id st = spent
visit_peer (suc fuel) entries path id st = finish_node id (
    visit_peers (visit_peer fuel entries (id ∷ path)) (id ∷ path) (peers_of entries id)
      ((id, on_stack) ∷ st))

-- The loop over the tasks in document order.
unfoldable pub search_rings : ℕ → List (String × String) → List String → Marks → Search
unfolding visit_peer
search_rings fuel entries [] st = clear st
search_rings fuel entries (id ∷ ids) st = elim (mark_of st id) [
  | unvisited ↦ resume (visit_peer fuel entries [] id st) (search_rings fuel entries ids)
  | on_stack ↦ search_rings fuel entries ids st
  | done ↦ search_rings fuel entries ids st
]

-- One more than the tasks and the peers that they name.
abbrev pub ring_fuel : List String → List (String × String) → ℕ
ring_fuel ids entries = suc (length (ids ++ map (λ e. e.1) entries))

abbrev pub ring_findings : Search → List Finding
ring_findings (ring_found c) = ring (reverse c) ∷ []
ring_findings spent = out_of_fuel ∷ []
ring_findings (clear st) = []

abbrev pub ids_of : List (String × Step) → List String
ids_of steps = map (λ s. s.0) steps

unfoldable pub search_all : List (String × Step) → Search
unfolding search_rings all_peers
search_all steps =
    search_rings (ring_fuel (ids_of steps) (all_peers steps)) (all_peers steps) (ids_of steps) []

-- `validateDifferentFromAcyclic`. The path of the message runs from the oldest node to the newest.
unfoldable pub validate_different_from_acyclic : List (String × Step) → List Finding
unfolding search_all
validate_different_from_acyclic steps = ring_findings (search_all steps)

-- `validateDifferentFrom`
unfoldable pub validate_different_from : Plan → List Finding
unfolding walk_plan_steps check_steps validate_different_from_acyclic
validate_different_from p =
    let steps = walk_plan_steps p in
    check_steps steps steps ++ validate_different_from_acyclic steps

-- The lists of a leaf section, whether each is ordered.
abbrev list_orders : List Block → List Bool
list_orders [] = []
list_orders (list ordered items ∷ bs) = ordered ∷ list_orders bs
list_orders (heading l t ∷ bs) = list_orders bs
list_orders (paragraph t ∷ bs) = list_orders bs
list_orders (other ∷ bs) = list_orders bs

-- A paragraph with text before the first list.
abbrev leads : List Block → Bool
leads [] = false
leads (list ordered items ∷ bs) = false
leads (paragraph t ∷ bs) = not (text_eq t "") || leads bs
leads (heading l t ∷ bs) = leads bs
leads (other ∷ bs) = leads bs

-- `validateLeafSection`
unfoldable pub validate_leaf_section : String → List Block → List Finding
validate_leaf_section text bs =
    let orders = list_orders bs in
    if is_nil orders
    then leaf_without_list text ∷ []
    else (if leads bs then leading_paragraph text ∷ [] else [])
      ++ (if any (λ o. o) orders && any not orders then mixed_lists text ∷ [] else [])

-- `validateSiblingHeadings`, on the same fuel as the parse.
unfoldable pub validate_siblings : ℕ → ℕ → List Block → List Finding
unfolding validate_leaf_section trim_space
validate_siblings fuel parent [] = []
validate_siblings fuel parent (list o is ∷ bs) = validate_siblings fuel parent bs
validate_siblings fuel parent (paragraph t ∷ bs) = validate_siblings fuel parent bs
validate_siblings fuel parent (other ∷ bs) = validate_siblings fuel parent bs
validate_siblings zero parent (heading level t ∷ bs) = out_of_fuel ∷ []
validate_siblings (suc fuel) parent (heading level t ∷ bs) =
    let inner = validate_siblings fuel level bs in
    let later = validate_siblings fuel parent (section_end level bs) in
    let leaf = validate_leaf_section (trim_space t) (section_body level bs) in
    let both = (if has_heading (section_body level bs) then inner else leaf) ++ later in
    if leb level parent then [] else both

-- `Validate`
unfoldable pub validate : List Block → List Finding
unfolding validate_siblings
validate bs = validate_siblings (length bs) 0 bs

pub data ImportError : Type 0 where
  findings : List Finding → ImportError
  bad_plan : ParseError → ImportError

abbrev pub after_parse : Parsed Plan → Option ImportError
after_parse (Parsed.err e) = some (bad_plan e)
after_parse (Parsed.ok p) =
    if count_plan_steps p == 0
    then some (findings (no_steps ∷ []))
    else (if is_nil (validate_different_from p)
        then none
        else some (findings (validate_different_from p)))

-- `ValidateForImport`, of a text and the blocks that the Markdown library finds in it: `none` lets the
-- plan in.
unfoldable pub validate_for_import :
    (String → Option (List Json)) → String → List Block → Option ImportError
unfolding validate parse count_plan_steps validate_different_from trim_space
validate_for_import read md bs =
    if text_eq (trim_space md) ""
    then some (findings (empty_document ∷ []))
    else (if is_nil (validate bs)
        then after_parse (parse read bs)
        else some (findings (validate bs)))
