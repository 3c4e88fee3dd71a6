-- ===== src/Orch/Acceptance.antt =====
-- internal/orch/verify.go: the mechanical check of an acceptance, and the containment of declared
-- outputs with `secureProjectPath` of internal/orch/task_paths.go. The reasons of rejections are
-- shortened: the output of a command and the names of paths are left out.
use Prim.Native.String.{◌++◌ as ◌<>◌}
use radioactive_ralph.Prelude.{
  String, Bool, true, false, not, ◌&&◌, ◌||◌, Option, none, some, List, [], ◌∷◌, map, if◌then◌else◌,
  find?, text_eq,
}
use radioactive_ralph.Paths.{is_rooted_slash, clean, is_rooted, contained_in}
use radioactive_ralph.Plan.{Plan, Step, TaskOutput, walk_groups}
use radioactive_ralph.Plan.Json.{Json}
use radioactive_ralph.Plan.Texts.{trim_space}
use radioactive_ralph.Plan.Parse.{Block, Parsed, parse}
use radioactive_ralph.Orch.Import.{Located, step_task_id}
use radioactive_ralph.Store.Schema.{Task, PlanRow, Db}

pub record Acceptance : Type 0 where
  pub command : String
  pub file_exists : String
  pub dir : String

-- `Evidence`, of which the check reads the output.
pub record Evidence : Type 0 where
  pub output : String
  pub json : String

-- What the check asks of the system and of libraries: the readers of JSON and Markdown, whether a
-- path exists, whether a command exits zero in a directory, `filepath.EvalSymlinks` and
-- `resolveThroughExistingAncestor`. The projects table is the list of recorded paths, and
-- `orch_session` the orchestrator's own session.
pub record System : Type 0 where
  pub unmarshal_acceptance : String → Option Acceptance
  pub read_metadata : String → Option (List Json)
  pub read_markdown : String → List Block
  pub stat : String → Bool
  pub exits_zero : (dir command : String) → Bool
  pub eval_symlinks : String → Option String
  pub resolve_existing : String → Option String
  pub project_paths : List (String × String)
  pub orch_session : String

pub data CheckResult : Type 0 where
  passed unreadable : CheckResult
  rejected : String → CheckResult

abbrev pub is_blank : String → Bool
is_blank s = text_eq (trim_space s) ""

-- `filepath.Join` of two elements
abbrev pub join_path : String → String → String
join_path a b =
    if text_eq a ""
    then (if text_eq b "" then "" else clean b)
    else (if text_eq b "" then clean a else clean (a <> ("/" <> b)))

unfoldable pub check_file_exists : System → (dir path : String) → Bool
check_file_exists w dir path =
    w.stat (if not (text_eq dir "") && not (is_rooted_slash path) then join_path dir path else path)

abbrev pub check_dir : Acceptance → String → String
check_dir a dir = if text_eq a.dir "" then dir else a.dir

-- The check of a readable acceptance: the file first, then the command.
abbrev pub check_acceptance : System → String → Acceptance → CheckResult
check_acceptance w dir a =
    if is_blank a.command && is_blank a.file_exists
    then rejected "explicit acceptance has no mechanical predicate"
    else (if text_eq a.file_exists "" || check_file_exists w (check_dir a dir) a.file_exists
        then (if text_eq a.command "" || w.exits_zero (check_dir a dir) a.command
            then passed
            else rejected "acceptance command failed")
        else rejected "acceptance file does not exist")

-- `mechanicalAcceptanceCheck`
unfoldable pub mechanical_acceptance_check : System → String → String → Evidence → CheckResult
mechanical_acceptance_check w dir acceptance ev =
    if is_blank acceptance
    then (if is_blank ev.output
        then rejected "no acceptance criterion and no evidence output"
        else passed)
    else elim (w.unmarshal_acceptance acceptance) [
      | none ↦ unreadable
      | some a ↦ check_acceptance w dir a
    ]

pub data Placed : Type 0 where
  inside escapes unresolvable : Placed

abbrev pub placed : Bool → Placed
placed true = inside
placed false = escapes

-- `secureProjectPath`
unfoldable pub secure_project_path : System → (root declared : String) → Placed
secure_project_path w root declared =
    if text_eq declared "" || is_rooted declared then escapes else elim (w.eval_symlinks root) [
      | none ↦ unresolvable
      | some resolved_root ↦ elim (w.resolve_existing (join_path resolved_root (clean declared))) [
        | none ↦ unresolvable
        | some resolved ↦ placed (contained_in resolved_root resolved)
      ]
    ]

-- `indexPlanSteps` at one id: a later step of the id replaces an earlier one.
unfoldable pub step_of_id : String → List Located → Option Step
step_of_id id [] = none
step_of_id id (x ∷ xs) = elim (step_of_id id xs) [
  | some s ↦ some s
  | none ↦ if text_eq (step_task_id x) id then some (x.1) else none
]

abbrev pub steps_of_parse : Parsed Plan → List Located
steps_of_parse (Parsed.ok p) = walk_groups p [] 0
steps_of_parse (Parsed.err e) = []

abbrev pub is_plan_row : String → PlanRow → Bool
is_plan_row plan p = text_eq p.id plan

-- `stepForTask`
unfoldable pub step_for_task : System → Task → Db → Option Step
step_for_task w t db = elim (find? (is_plan_row t.plan_id) db.plans) [
  | none ↦ none
  | some p ↦
      if text_eq p.source_markdown ""
      then none
      else step_of_id t.id
          (steps_of_parse (parse w.read_metadata (w.read_markdown p.source_markdown)))
]

-- The paths of `declFromMetadata`
abbrev pub output_paths : Option Step → List String
output_paths none = []
output_paths (some s) = elim s.metadata [
  | none ↦ []
  | some m ↦ map (λ (o : TaskOutput). o.path) m.outputs
]

-- The loop of `verifyTaskOutputContainment`: the first output that escapes, unless one before it
-- cannot be resolved.
unfoldable pub first_escape : System → String → List String → Option String
first_escape w root [] = none
first_escape w root (o ∷ os) = elim (secure_project_path w root o) [
  | inside ↦ first_escape w root os
  | escapes ↦ some o
  | unresolvable ↦ none
]

unfoldable pub verify_task_output_containment : System → Task → String → Db → Option String
verify_task_output_containment w t root db =
    first_escape w root (output_paths (step_for_task w t db))

-- `projectDirFor`: a project without a recorded path runs in ".".
abbrev pub project_path : List (String × String) → String → String
project_path [] project = "."
project_path ((k, v) ∷ rest) project =
    let later = project_path rest project in
    if text_eq k project then (if text_eq v "" then "." else v) else later

unfoldable pub project_dir_for : System → String → Db → Option String
project_dir_for w plan db = elim (find? (is_plan_row plan) db.plans) [
  | none ↦ none
  | some p ↦ some (project_path w.project_paths p.project_id)
]
