-- ===== src/Prelude/Text.antt =====
-- Text equality, decimal numbers as `strconv.Itoa` prints them, and `strings.Join`.
use Prim.Native.Nat.{ℕ, zero, suc, ◌/◌, ◌%◌}
use Prim.Native.String.{String, ◌++◌ as ◌<>◌}
use mathlib.Core.Path.{◌≡◌}
use mathlib.Core.Bool.{Bool, true, false}
use mathlib.Core.List.{List, [], ◌∷◌}
use mathlib.Core.Option.{Option, none, some}
use native.Mathlib.Omega.{arith}
use text.Mathlib.Text.{◌==◌}
use text.Mathlib.TextEquality.{eq_iff}
use text.Mathlib.TextPositions.{eq_refl}
use radioactive_ralph.Prelude.Tests.{if◌then◌else◌, ltb}
use radioactive_ralph.Prelude.Lists.{get_or}

abbrev pub text_eq : String → String → Bool
text_eq s t = s == t

pub text_eq_sound : {s t : String} → text_eq s t ≡ true → s ≡ t
text_eq_sound {s} {t} h = (eq_iff s t).0 h

pub text_eq_refl : (s : String) → text_eq s s ≡ true
text_eq_refl s = eq_refl s

pub text_eq_complete : {s t : String} → s ≡ t → text_eq s t ≡ true
text_eq_complete {s} {t} h = (eq_iff s t).1 h

-- A nullable column compared with a bound value: NULL equals nothing.
abbrev pub column_eq : Option String → String → Bool
column_eq none v = false
column_eq (some u) v = text_eq u v

pub column_eq_sound : {c : Option String} {v : String} → column_eq c v ≡ true → c ≡ some v
column_eq_sound {c = none} h = ground arith
column_eq_sound {c = some u} {v} h = ground (arith, eq_iff u v)

-- NULLIF(?, '') and `nullIfEmpty`.
abbrev pub null_if_empty : String → Option String
null_if_empty s = if text_eq s "" then none else some s

abbrev digit : ℕ → String
digit d = get_or ("0" ∷ "1" ∷ "2" ∷ "3" ∷ "4" ∷ "5" ∷ "6" ∷ "7" ∷ "8" ∷ "9" ∷ []) d ""

-- Fuel n + 1 is enough for n, which has no more digits than that.
itoa_fuel : ℕ → ℕ → String
itoa_fuel zero n = ""
itoa_fuel (suc fuel) n =
    let rest = itoa_fuel fuel (n / 10) in if ltb n 10 then digit n else rest <> digit (n % 10)

unfoldable pub itoa : ℕ → String
unfolding itoa_fuel
itoa n = itoa_fuel (suc n) n

unfoldable pub join : List String → String → String
join [] sep = ""
join (s ∷ []) sep = s
join (s ∷ t ∷ rest) sep = s <> (sep <> join (t ∷ rest) sep)
