-- ===== src/Plan/Texts.antt =====
-- The text functions of Go that internal/plan calls: `strings.TrimSpace`, and the comparison of texts
-- without regard to the case of letters.
use Prim.Native.Char.{Char, code}
use radioactive_ralph.Prelude.{
  ℕ, ◌+◌, String, Bool, true, false, ◌&&◌, ◌||◌, if◌then◌else◌, ◌==◌, leb,
}

-- `unicode.IsSpace`
abbrev is_space : Char → Bool
is_space c =
    (leb 9 (code c) && leb (code c) 13)
    || code c == 32
    || code c == 0x85
    || code c == 0xa0
    || code c == 0x1680
    || (leb 0x2000 (code c) && leb (code c) 0x200a)
    || code c == 0x2028
    || code c == 0x2029
    || code c == 0x202f
    || code c == 0x205f
    || code c == 0x3000

trim_left : String → String
trim_left String.[] = String.[]
trim_left (String.◌∷◌ c s) = let rest = trim_left s in if is_space c then rest else String.◌∷◌ c s

abbrev drop_space : Char → String → String
drop_space c String.[] = if is_space c then String.[] else String.◌∷◌ c String.[]
drop_space c (String.◌∷◌ d s) = String.◌∷◌ c (String.◌∷◌ d s)

trim_right : String → String
trim_right String.[] = String.[]
trim_right (String.◌∷◌ c s) = drop_space c (trim_right s)

-- `strings.TrimSpace`
unfoldable pub trim_space : String → String
unfolding trim_left trim_right
trim_space s = trim_right (trim_left s)

-- The small letter of a letter; the long s and the sign for kelvin fold to ASCII letters too.
abbrev fold_code : ℕ → ℕ
fold_code c =
    if leb b'A' c && leb c b'Z'
    then c + 32
    else (if c == 0x17f then b's' else (if c == 0x212a then b'k' else c))

-- `strings.EqualFold`, where one of the texts is ASCII.
unfoldable pub equal_fold : String → String → Bool
equal_fold String.[] String.[] = true
equal_fold String.[] (String.◌∷◌ d t) = false
equal_fold (String.◌∷◌ c s) String.[] = false
equal_fold (String.◌∷◌ c s) (String.◌∷◌ d t) =
    fold_code (code c) == fold_code (code d) && equal_fold s t
