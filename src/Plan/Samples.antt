-- ===== src/Plan/Samples.antt =====
-- A small document and its parse, for the tests of internal/plan.
use radioactive_ralph.Prelude.{
  ◌≡◌, ◌≢◌, refl, ◌⊎◌, String, Bool, true, false, Option, none, some, List, [], ◌∷◌, if◌then◌else◌,
  text_eq, join, itoa,
}
use radioactive_ralph.Prelude.Int.{pos}
use radioactive_ralph.Plan.{Step, group, nil, cons, Plan, TaskMetadata, walk_groups, step_id}
use radioactive_ralph.Plan.Json.{Json, str, arr, obj, Items, end, field, null}
use radioactive_ralph.Plan.Metadata.{Decoded, decode_values, null_field, repeated_key, padded_id}
use radioactive_ralph.Plan.Parse.{
  Block, heading, list, paragraph, Item, Parsed, ok, err, ◌>>=◌, out_of_fuel, parse,
}
use radioactive_ralph.Plan.Parse.Flat.{leaf_steps, steps_in}
use radioactive_ralph.Plan.Parse.OnePass.{parse-leaf_steps}
use radioactive_ralph.Plan.Validate.{
  ring, walk_plan_steps, all_peers, validate_different_from_acyclic, validate_for_import,
}
use radioactive_ralph.Plan.Validate.Admission.{Admissible, validate_different_from_acyclic-decides}
use radioactive_ralph.Plan.Validate.Found.{Needs}
use radioactive_ralph.Plan.Validate.Import.{Importable, validate_for_import-Importable}

-- The texts of two metadata blocks, as the JSON values that they hold.
abbrev build_json : Json
build_json = obj (field "id" (str "build") end)

abbrev review_json : Json
review_json = obj (
    field "id" (str "review")
      (field "differentFrom" (arr (Items.cons (str "build") Items.nil)) end))

abbrev pub read : String → Option (List Json)
read s =
    if text_eq s "build"
    then some (build_json ∷ [])
    else (if text_eq s "review" then some (review_json ∷ []) else none)

abbrev item : String → List String → Item
item text blocks = record { lines = text ∷ []; blocks = blocks }

-- # Work / ## Do / - build / - review [approval] / # Ship / 1. push
abbrev pub document : List Block
document =
    heading 1 "Work"
    ∷ paragraph "why"
    ∷ heading 2 "Do"
    ∷ list false
        (item "build it" ("build" ∷ []) ∷ item "review it [Approval] " ("review" ∷ []) ∷ [])
    ∷ heading 1 "Ship"
    ∷ list true (item "push" [] ∷ [])
    ∷ []

pub program : Unit {0}
unfolding parse leaf_steps walk_groups validate_for_import decode_values
    validate_different_from_acyclic walk_plan_steps itoa join step_id
program = tt

abbrev pub bare : TaskMetadata
bare = record {
  id = "build";
  after = none;
  team = "";
  binding = record {
    mode = "";
    alias = "";
    provider = "";
    model = "";
    effort = "";
    calibration = "";
    repetitions = pos 0;
    fixture = "";
  };
  requires = [];
  providers = [];
  different_from = [];
  inputs = [];
  outputs = [];
}

abbrev pub step : String → Bool → Option TaskMetadata → Step
step text approval m = record {
  text = text;
  detail = "";
  requires_approval = approval;
  metadata = m;
}

abbrev pub parsed : Plan
parsed =
    cons
      (group "Work" 1 false [] (
        cons
          (group "Do" 2 true
            (step "build it" false (some bare)
              ∷ step "review it" true
                  (some (record bare { id = "review"; different_from = "build" ∷ [] }))
              ∷ [])
            nil)
          nil))
      (cons (group "Ship" 1 false (step "push" false none ∷ []) nil) nil)

pub parse_document : parse read document ≡ ok parsed
unfolding program
parse_document = refl

import_document : validate_for_import read "# Work" document ≡ none
unfolding program
import_document = refl

-- A repeated key, a null and a padded id are refused.
refused :
    (decode_values (some (obj (field "id" (str "x") (field "id" (str "y") end)) ∷ []))
      ≡ Decoded.err repeated_key)
    × (decode_values (some (obj (field "id" (str "x") (field "after" null end)) ∷ []))
        ≡ Decoded.err null_field)
    × (decode_values (some (obj (field "id" (str " x") end) ∷ [])) ≡ Decoded.err padded_id)
unfolding program
refused = (refl, refl, refl)

-- Two spellings of one key pass, and the last one counts: the edges of the first are lost.
spellings :
    decode_values (
      some (
        obj (
          field "id" (str "build") (
            field "after"
              (arr (Items.cons (str "prepare") Items.nil))
              (field "After" (arr Items.nil) end)))
        ∷ []))
    ≡ Decoded.ok (record bare { after = some [] })
unfolding program
spellings = refl

parse-leaf_steps_example :
    ((parse read document >>= λ p. ok (steps_in p)) ≡ leaf_steps read document)
    × (parse read document ≢ err out_of_fuel)
parse-leaf_steps_example = parse-leaf_steps read document refl

-- Two tasks that name each other.
abbrev pair_up : List (String × Step)
pair_up =
    ("a", step "a" false (some (record bare { id = "a"; different_from = "b" ∷ [] })))
    ∷ ("b", step "b" false (some (record bare { id = "b"; different_from = "a" ∷ [] })))
    ∷ []

pair_ring : validate_different_from_acyclic pair_up ≡ ring ("a" ∷ "b" ∷ "a" ∷ []) ∷ []
unfolding program
pair_ring = refl

validate_different_from_acyclic-decides_example :
    ((validate_different_from_acyclic pair_up ≡ []) × Admissible pair_up)
    ⊎ ((c : List String) × (validate_different_from_acyclic pair_up ≡ ring c ∷ [])
        × (x : String) × Needs (all_peers pair_up) x x)
validate_different_from_acyclic-decides_example = validate_different_from_acyclic-decides pair_up

validate_for_import-Importable_example :
    (p : Plan) × (parse read document ≡ Parsed.ok p) × Importable p
validate_for_import-Importable_example =
    validate_for_import-Importable read "# Work" document import_document
