-- ===== src/Plan/Json.antt =====
-- JSON values as the decoders of the program read them, and the check for repeated keys:
-- `checkJSONValue` of internal/plan/metadata.go and of internal/enforcement/json.go.
use radioactive_ralph.Prelude.{String, Bool, true, not, ◌&&◌, List, [], ◌∷◌, any, text_eq}
use radioactive_ralph.Prelude.Int.{ℤ}

-- `fraction` is a number that does not decode into an int.
mutual
  pub data Json : Type 0 where
    null fraction : Json
    bool : Bool → Json
    num : ℤ → Json
    str : String → Json
    arr : Items → Json
    obj : Fields → Json

  pub data Items : Type 0 where
    nil : Items
    cons : Json → Items → Items

  -- In the order of the text, repeated keys included.
  pub data Fields : Type 0 where
    end : Fields
    field : String → Json → Fields → Fields

unfoldable mutual
  pub unique_keys : Json → Bool
  unique_keys (arr xs) = unique_keys_items xs
  unique_keys (obj fs) = unique_keys_fields fs []
  unique_keys _ = true

  pub unique_keys_items : Items → Bool
  unique_keys_items nil = true
  unique_keys_items (cons j js) = unique_keys j && unique_keys_items js

  -- The loop over an object, with the keys `seen`.
  pub unique_keys_fields : Fields → List String → Bool
  unique_keys_fields end seen = true
  unique_keys_fields (field k v fs) seen =
      not (any (text_eq k) seen) && unique_keys v && unique_keys_fields fs (k ∷ seen)
