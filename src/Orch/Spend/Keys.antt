-- ===== src/Orch/Spend/Keys.antt =====
-- `spendKey` of internal/orch/spend.go, and project ids without its separator.
use Prim.Native.Char.{Char, code}
use Prim.Native.String.{◌++◌ as ◌<>◌}
use text.Mathlib.TextLemmas.{nil-append, cons-append}
use radioactive_ralph.Prelude.{◌≡◌, refl, sym, ap, ◌∙◌, String, Bool, true, not, ◌&&◌, ◌==◌, arith}
use radioactive_ralph.Orch.Spend.{spend_key, nul}

-- No character of the name is the separator.
unfoldable pub is_plain : String → Bool
is_plain String.[] = true
is_plain (String.◌∷◌ c s) = not (code c == 0) && is_plain s

abbrev first : Char → String → Char
first other String.[] = other
first other (String.◌∷◌ c s) = c

abbrev rest : String → String
rest String.[] = ""
rest (String.◌∷◌ c s) = s

cons_path : {c d : Char} {s t : String} → c ≡ d → s ≡ t → String.◌∷◌ c s ≡ String.◌∷◌ d t
cons_path {t} e f = rw (e, f) refl

abbrev separator : Char
separator = "\0"

key_nil : (p : String) → spend_key "" p ≡ String.◌∷◌ separator p
unfolding spend_key
key_nil p =
    nil-append (nul <> p)
    ∙ (cons-append separator "" p ∙ ap (λ s. String.◌∷◌ separator s) (nil-append p))

key_cons : (c : Char) (s p : String) → spend_key (String.◌∷◌ c s) p ≡ String.◌∷◌ c (spend_key s p)
unfolding spend_key
key_cons c s p = cons-append c s (nul <> p)

-- Keys of plain project ids are equal only for one project and one provider.
pub spend_key_injective :
    (a b p q : String)
    → is_plain a ≡ true
    → is_plain b ≡ true
    → spend_key a p ≡ spend_key b q
    → (a ≡ b) × (p ≡ q)
unfolding is_plain
spend_key_injective String.[] String.[] p q h k e =
    (refl, ap rest (sym (key_nil p) ∙ (e ∙ key_nil q)))
spend_key_injective String.[] (String.◌∷◌ d t) p q h k e =
    absurd (ground (arith, ap (λ s. code (first d s)) (sym (key_nil p) ∙ (e ∙ key_cons d t q)), k))
spend_key_injective (String.◌∷◌ c s) String.[] p q h k e =
    absurd (ground (arith, ap (λ s. code (first c s)) (sym (key_cons c s p) ∙ (e ∙ key_nil q)), h))
spend_key_injective (String.◌∷◌ c s) (String.◌∷◌ d t) p q h k e =
    let same = sym (key_cons c s p) ∙ (e ∙ key_cons d t q) in
    let (x, y) = spend_key_injective s t p q (ground arith) (ground arith) (ap rest same) in
    (cons_path (ap (first c) same) x, y)
