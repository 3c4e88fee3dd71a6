-- ===== src/Plan/Metadata.antt =====
-- internal/plan/metadata.go: the block of execution facts inside a step.
use radioactive_ralph.Prelude.{
  String, Bool, true, false, not, ◌&&◌, Option, none, some, List, [], ◌∷◌, all, any, map,
  if◌then◌else◌, text_eq,
}
use radioactive_ralph.Prelude.Int.{ℤ, pos}
use radioactive_ralph.Plan.{TaskBinding, TaskInput, TaskOutput, TaskMetadata}
use radioactive_ralph.Plan.Json.{
  Json, null, num, str, arr, obj, Items, nil, cons, Fields, end, field, unique_keys,
}
use radioactive_ralph.Plan.Texts.{trim_space, equal_fold}

-- The errors of `parseTaskMetadataBlock`, and the one kind of a parse of a plan.
pub data MetadataError : Type 0 where
  many_blocks malformed repeated_key bad_value more_values null_field no_id padded_id :
      MetadataError

pub data Decoded (A : Type 0) : Type 0 where
  ok : A → Decoded A
  err : MetadataError → Decoded A

infixl 5 ◌>>=◌
abbrev pub ◌>>=◌ : {A B : Type 0} → Decoded A → (A → Decoded B) → Decoded B
ok a >>= f = f a
err e >>= f = err e

abbrev pub guard : Bool → MetadataError → Decoded (Unit {0})
guard true e = ok tt
guard false e = err e

infixl 5 ◌>>◌
abbrev pub ◌>>◌ : {B : Type 0} → Decoded (Unit {0}) → Decoded B → Decoded B
m >> k = m >>= λ _. k

-- The values of encoding/json. A null leaves a text or number as it was.
abbrev decode_text : String → Json → Decoded String
decode_text before null = ok before
decode_text before (str s) = ok s
decode_text before _ = err bad_value

abbrev decode_int : ℤ → Json → Decoded ℤ
decode_int before null = ok before
decode_int before (num n) = ok n
decode_int before _ = err bad_value

-- The elements of a list, each decoded by `f`.
decode_items : {A : Type 0} → (Json → Decoded A) → Items → Decoded (List A)
decode_items f nil = ok []
decode_items f (cons j js) = do x ← f j; xs ← decode_items f js; ok (x ∷ xs)

abbrev decode_list : {A : Type 0} → (Json → Decoded A) → Json → Decoded (List A)
decode_list f null = ok []
decode_list f (arr xs) = decode_items f xs
decode_list f _ = err bad_value

abbrev decode_texts : Json → Decoded (List String)
decode_texts = decode_list (decode_text "")

-- `*[]string`: a null is the nil pointer.
abbrev decode_after : Json → Decoded (Option (List String))
decode_after null = ok none
decode_after j = decode_texts j >>= λ ids. ok (some ids)

-- The fields of an object into a struct, in the order of the text, over the value `before`.
decode_fields : {A : Type 0} → (A → String → Json → Decoded A) → A → Fields → Decoded A
decode_fields set before end = ok before
decode_fields set before (field k v fs) = set before k v >>= λ now. decode_fields set now fs

abbrev decode_struct : {A : Type 0} → (A → String → Json → Decoded A) → A → Json → Decoded A
decode_struct set before null = ok before
decode_struct set before (obj fs) = decode_fields set before fs
decode_struct set before _ = err bad_value

-- A key names a field without regard to case. An unknown key is refused.
abbrev set_binding : TaskBinding → String → Json → Decoded TaskBinding
set_binding b k v =
    if equal_fold k "mode"
    then decode_text b.mode v >>= (λ x. ok (record b { mode = x }))
    else if equal_fold k "alias"
    then decode_text b.alias v >>= (λ x. ok (record b { alias = x }))
    else if equal_fold k "provider"
    then decode_text b.provider v >>= (λ x. ok (record b { provider = x }))
    else if equal_fold k "model"
    then decode_text b.model v >>= (λ x. ok (record b { model = x }))
    else if equal_fold k "effort"
    then decode_text b.effort v >>= (λ x. ok (record b { effort = x }))
    else if equal_fold k "calibration"
    then decode_text b.calibration v >>= (λ x. ok (record b { calibration = x }))
    else if equal_fold k "repetitions"
    then decode_int b.repetitions v >>= (λ x. ok (record b { repetitions = x }))
    else if equal_fold k "fixture"
    then decode_text b.fixture v >>= (λ x. ok (record b { fixture = x }))
    else err bad_value

abbrev set_input : TaskInput → String → Json → Decoded TaskInput
set_input i k v =
    if equal_fold k "path"
    then decode_text i.path v >>= (λ x. ok (record i { path = x }))
    else if equal_fold k "sha256"
    then decode_text i.sha256 v >>= (λ x. ok (record i { sha256 = x }))
    else err bad_value

abbrev set_output : TaskOutput → String → Json → Decoded TaskOutput
set_output o k v =
    if equal_fold k "path"
    then decode_text o.path v >>= (λ x. ok (record o { path = x }))
    else if equal_fold k "mode"
    then decode_text o.mode v >>= (λ x. ok (record o { mode = x }))
    else err bad_value

abbrev set_metadata : TaskMetadata → String → Json → Decoded TaskMetadata
set_metadata m k v =
    if equal_fold k "id"
    then decode_text m.id v >>= (λ x. ok (record m { id = x }))
    else if equal_fold k "after"
    then decode_after v >>= (λ x. ok (record m { after = x }))
    else if equal_fold k "team"
    then decode_text m.team v >>= (λ x. ok (record m { team = x }))
    else if equal_fold k "binding"
    then decode_struct set_binding m.binding v >>= (λ x. ok (record m { binding = x }))
    else if equal_fold k "requires"
    then decode_texts v >>= (λ x. ok (record m { requires = x }))
    else if equal_fold k "providers"
    then decode_texts v >>= (λ x. ok (record m { providers = x }))
    else if equal_fold k "differentFrom"
    then decode_texts v >>= (λ x. ok (record m { different_from = x }))
    else if equal_fold k "inputs"
    then decode_list (decode_struct set_input (record { path = ""; sha256 = "" })) v
      >>= (λ x. ok (record m { inputs = x }))
    else if equal_fold k "outputs"
    then decode_list (decode_struct set_output (record { path = ""; mode = "" })) v
      >>= (λ x. ok (record m { outputs = x }))
    else err bad_value

abbrev pub no_metadata : TaskMetadata
no_metadata = record {
  id = "";
  after = none;
  team = "";
  binding = record {
    mode = "";
    alias = "";
    provider = "";
    model = "";
    effort = "";
    calibration = "";
    repetitions = pos 0;
    fixture = "";
  };
  requires = [];
  providers = [];
  different_from = [];
  inputs = [];
  outputs = [];
}

abbrev is_null : Json → Bool
is_null null = true
is_null _ = false

any_null : Fields → Bool
any_null end = false
any_null (field k v fs) = if is_null v then true else any_null fs

-- `fields["binding"]`
abbrev null_in_binding : Fields → Bool
null_in_binding end = false
null_in_binding (field k (obj gs) fs) =
    let rest = null_in_binding fs in if text_eq k "binding" then any_null gs else rest
null_in_binding (field k v fs) = null_in_binding fs

-- `rejectNullMetadataFields`, for a value that has been decoded.
abbrev has_null_field : Json → Bool
has_null_field (obj fs) = if any_null fs then true else null_in_binding fs
has_null_field _ = false

abbrev is_padded : String → Bool
is_padded id = not (text_eq id (trim_space id))

abbrev any_padded : Option (List String) → Bool
any_padded none = false
any_padded (some ids) = any is_padded ids

-- `rejectPaddedTaskIDs`
unfoldable pub has_padded_id : TaskMetadata → Bool
unfolding trim_space
has_padded_id m =
    if is_padded m.id
    then true
    else (if any is_padded m.different_from then true else any_padded m.after)

-- The values of the stream after the first one. The token walk of `rejectDuplicateKeys` and the
-- decoder read the same text, which holds at least one value here.
unfoldable pub decode_values : Option (List Json) → Decoded TaskMetadata
unfolding unique_keys decode_items decode_fields equal_fold any_null has_padded_id
decode_values none = err malformed
decode_values (some []) = err malformed
decode_values (some (j ∷ more)) = do
  guard (unique_keys j) repeated_key
  m ← decode_struct set_metadata no_metadata j
  guard (radioactive_ralph.Prelude.is_nil more) more_values
  guard (not (has_null_field j)) null_field
  guard (not (text_eq m.id "")) no_id
  guard (not (has_padded_id m)) padded_id
  ok m

-- `parseTaskMetadataBlock`, from the contents of the blocks of one list item. The reader of JSON
-- values is a parameter: `none` is a text that is not a sequence of values.
unfoldable pub parse_task_metadata_block :
    (String → Option (List Json)) → List String → Decoded (Option TaskMetadata)
unfolding decode_values
parse_task_metadata_block read [] = ok none
parse_task_metadata_block read (raw ∷ []) = decode_values (read raw) >>= λ m. ok (some m)
parse_task_metadata_block read (raw ∷ raw' ∷ more) = err many_blocks
