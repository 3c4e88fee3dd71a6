-- ===== src/Paths.antt =====
-- Declared project-relative paths: `canonicalReservationPath` of internal/store/output_reservation.go
-- with the `filepath.Clean` that it calls (on a system whose separator is the slash), and `isRooted`
-- and `containedIn` of internal/orch/task_paths.go.
use Prim.Native.Char.{Char, code}
use Prim.Native.String.{◌++◌ as ◌<>◌}
use text.Mathlib.Text.{starts_with}
use radioactive_ralph.Prelude.{
  ℕ, ◌≡◌, refl, String, Bool, false, ◌&&◌, ◌||◌, List, [], ◌∷◌, is_nil, if◌then◌else◌, ◌==◌, leb,
  text_eq, join,
}

-- `c` put before the first component.
abbrev pub extend : Char → List String → List String
extend c [] = String.◌∷◌ c "" ∷ []
extend c (s ∷ ss) = String.◌∷◌ c s ∷ ss

-- The components between slashes.
unfoldable pub components : String → List String
components String.[] = "" ∷ []
components (String.◌∷◌ c s) = if code c == b'/' then "" ∷ components s else extend c (components s)

abbrev pub is_rooted_slash : String → Bool
is_rooted_slash String.[] = false
is_rooted_slash (String.◌∷◌ c s) = code c == b'/'

-- One component on the stack of kept components, the deepest first: empty ones and "." go, and
-- ".." takes the component before it, or stays where there is none and the path is relative.
abbrev pub keep_component : Bool → List String → String → List String
keep_component rooted [] c =
    if text_eq c "" || text_eq c "." then [] else (if text_eq c ".." && rooted then [] else c ∷ [])
keep_component rooted (top ∷ kept) c =
    if text_eq c "" || text_eq c "."
    then top ∷ kept
    else (if text_eq c ".."
        then (if text_eq top ".." then c ∷ top ∷ kept else kept)
        else c ∷ top ∷ kept)

unfoldable pub clean_components : Bool → List String → List String → List String
clean_components rooted kept [] = kept
clean_components rooted kept (c ∷ cs) = clean_components rooted (keep_component rooted kept c) cs

abbrev pub reverse_onto : List String → List String → List String
reverse_onto [] out = out
reverse_onto (x ∷ xs) out = reverse_onto xs (x ∷ out)

-- `filepath.Clean`
unfoldable pub clean : String → String
unfolding components clean_components join
clean path =
    let rooted = is_rooted_slash path in
    let kept = reverse_onto (clean_components rooted [] (components path)) [] in
    if rooted then "/" <> join kept "/" else (if is_nil kept then "." else join kept "/")

-- `canonicalReservationPath`
unfoldable pub canonical_reservation_path : String → String
unfolding clean
canonical_reservation_path path =
    if text_eq path ""
    then ""
    else (let cleaned = clean path in if text_eq cleaned "." then "" else cleaned)

abbrev pub is_drive_letter : ℕ → Bool
is_drive_letter c = (leb b'a' c && leb c b'z') || (leb b'A' c && leb c b'Z')

abbrev pub has_drive : Char → String → Bool
has_drive c String.[] = false
has_drive c (String.◌∷◌ d s) = code d == b':' && is_drive_letter (code c)

-- `isRooted`: a leading slash or backslash, or a drive letter. (`filepath.IsAbs` is the slash.)
unfoldable pub is_rooted : String → Bool
is_rooted String.[] = false
is_rooted (String.◌∷◌ c s) = code c == b'/' || code c == 0x5c || has_drive c s

-- `containedIn`
unfoldable pub contained_in : String → String → Bool
contained_in root path = text_eq path root || starts_with path (root <> "/")

clean_test : clean "build/./a//../out.txt" ≡ "build/out.txt"
unfolding clean
clean_test = refl
