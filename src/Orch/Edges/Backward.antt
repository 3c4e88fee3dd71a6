-- ===== src/Orch/Edges/Backward.antt =====
-- internal/orch/plan_import.go: which steps a document-order edge names.
use radioactive_ralph.Prelude.{
  String, Bool, true, ◌&&◌, List, [], ◌∷◌, map, all, any, Memᴰ, ℕ, suc, if◌then◌else◌, text_eq,
}
use radioactive_ralph.Plan.{Plan}
use radioactive_ralph.Orch.Import.{Located, step_task_id}

abbrev known : List String → String → Bool
known seen d = any (text_eq d) seen

-- Every edge names only tasks in `seen` or standing before it in the list.
abbrev pub names_earlier : List String → List (Located × List String) → Bool
names_earlier seen [] = true
names_earlier seen ((x, ds) ∷ es) = all (known seen) ds && names_earlier (step_task_id x ∷ seen) es

-- `seen` after the steps `xs`.
abbrev after : List String → List Located → List String
after seen [] = seen
after seen (x ∷ xs) = after (step_task_id x ∷ seen) xs

-- The task waits on the other, by one edge or along several.
pub data Needs (es : List (Located × List String)) : String → String → Type 0 where
  direct :
      {x : Located} {ds : List String} {d : String}
      → Memᴰ (x, ds) es
      → Memᴰ d ds
      → Needs es (step_task_id x) d
  along : {a b c : String} → Needs es a b → Needs es b c → Needs es a c

-- The position of an id in a list, which is the length where it does not stand.
abbrev position : String → List String → ℕ
position a [] = 0
position a (x ∷ xs) = let rest = position a xs in if text_eq a x then 0 else suc rest

abbrev ids_of : List (Located × List String) → List String
ids_of es = map (λ e. step_task_id (e.0)) es
