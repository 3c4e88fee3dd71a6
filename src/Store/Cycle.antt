-- ===== src/Store/Cycle.antt =====
-- The cycle check of `addDepOn`: `wouldCreateCycleOn` of internal/store/tasks.go.
pub mod Search
pub mod Fuel
pub mod Acyclic
use radioactive_ralph.Prelude.{
  ℕ, zero, suc, String, Bool, true, false, ◌&&◌, List, [], ◌∷◌, map, any, length, filterb,
  if◌then◌else◌, text_eq,
}
use radioactive_ralph.Store.Schema.{Dep}

-- `SELECT depends_on FROM task_deps WHERE plan_id = ? AND task_id = ?`
abbrev pub edges_from : List Dep → String → String → List String
edges_from deps plan node =
    map (λ d. d.depends_on) (filterb (λ d. text_eq d.plan_id plan && text_eq d.task_id node) deps)

-- How a visit ends: at the task, or with the nodes visited so far.
pub data Visit : Type 0 where
  found out_of_fuel : Visit
  clear : List String → Visit

-- The loop over the successors of a node.
abbrev pub visit_all : (String → List String → Visit) → List String → List String → Visit
visit_all visit_one [] visited = clear visited
visit_all visit_one (n ∷ ns) visited = elim (visit_one n visited) [
  | found ↦ found
  | out_of_fuel ↦ out_of_fuel
  | clear visited' ↦ visit_all visit_one ns visited'
]

unfoldable pub visit : ℕ → List Dep → String → String → String → List String → Visit
visit zero deps plan task node visited = out_of_fuel
visit (suc fuel) deps plan task node visited =
    let deeper =
      visit_all (visit fuel deps plan task) (edges_from deps plan node) (node ∷ visited) in
    if text_eq node task
    then found
    else (if any (text_eq node) visited then clear visited else deeper)

-- Each visit that goes deeper marks one more of the nodes that an edge names, or the first one.
abbrev pub cycle_fuel : List Dep → ℕ
cycle_fuel deps = suc (suc (length deps))

unfoldable pub would_create_cycle : List Dep → String → String → String → Bool
unfolding visit
would_create_cycle deps plan task dep = elim (visit (cycle_fuel deps) deps plan task dep []) [
  | found ↦ true
  | out_of_fuel ↦ true
  | clear visited ↦ false
]
