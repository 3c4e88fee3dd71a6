-- ===== src/Plan/Parse/Shape.antt =====
-- The groups that internal/plan/parse.go builds hold steps or subgroups, never both.
use radioactive_ralph.Prelude.{
  ℕ, zero, suc, ◌≡◌, refl, sym, ap, ◌∙◌, String, Bool, true, false, ◌&&◌, ◌||◌, &&_intro, Option,
  List, [], ◌∷◌, length, is_nil, arith, Bool-cases, inl, inr, leb,
}
use radioactive_ralph.Plan.{Group, group, Groups, nil, cons, Step, Plan, no_groups}
use radioactive_ralph.Plan.Json.{Json}
use radioactive_ralph.Plan.Texts.{trim_space}
use radioactive_ralph.Plan.Parse.{
  Block, heading, list, paragraph, other, Parsed, ok, err, ◌>>=◌, parse_leaf_section, section_end,
  section_body, has_heading, leaf_group, parse_siblings, parse,
}

ok_inj : {A : Type 0} {a b : A} → Parsed.ok a ≡ Parsed.ok b → a ≡ b
ok_inj e = cc

unfoldable mutual
  pub is_shaped : Groups → Bool
  is_shaped nil = true
  is_shaped (cons g gs) = is_shaped_group g && is_shaped gs

  pub is_shaped_group : Group → Bool
  is_shaped_group (group text level parallel steps subs) =
      (is_nil steps || no_groups subs) && is_shaped subs

abbrev AllShaped : Parsed Groups → Type 0
AllShaped m = (gs : Groups) → m ≡ ok gs → is_shaped gs ≡ true

abbrev GroupShaped : Parsed Group → Type 0
GroupShaped m = (g : Group) → m ≡ ok g → is_shaped_group g ≡ true

cons-AllShaped :
    (m : Parsed Group) (n : Parsed Groups)
    → GroupShaped m
    → AllShaped n
    → AllShaped (m >>= λ g. n >>= λ gs. ok (cons g gs))
unfolding is_shaped
cons-AllShaped (ok g) (ok gs) p q all e =
    let same : cons g gs ≡ all = ground arith in
    ap is_shaped (sym same) ∙ &&_intro (p g refl) (q gs refl)
cons-AllShaped (ok g) (err x) p q all e = absurd (ground arith)
cons-AllShaped (err x) n p q all e = absurd (ground arith)

inner-GroupShaped :
    (level : ℕ) (text : String) (m : Parsed Groups)
    → AllShaped m
    → GroupShaped (m >>= λ subs. ok (group text level false [] subs))
unfolding is_shaped
inner-GroupShaped level text (ok subs) p g e =
    let same : group text level false [] subs ≡ g = ground arith in
    ap is_shaped_group (sym same) ∙ p subs refl
inner-GroupShaped level text (err x) p g e = absurd (ground arith)

leaf-GroupShaped :
    (level : ℕ) (text : String) (m : Parsed (List Step × Bool))
    → GroupShaped (m >>= λ l. ok (leaf_group level text l))
unfolding is_shaped
leaf-GroupShaped level text (ok l) g e =
    let same : leaf_group level text l ≡ g = ground arith in
    ap is_shaped_group (sym same) ∙ ground arith
leaf-GroupShaped level text (err x) g e = absurd (ground arith)

parse_siblings-AllShaped :
    (read : String → Option (List Json)) (fuel parent : ℕ) (bs : List Block)
    → AllShaped (parse_siblings read fuel parent bs)
unfolding parse_siblings is_shaped
parse_siblings-AllShaped read fuel parent [] = λ gs e. ap is_shaped (sym (ok_inj e))
parse_siblings-AllShaped read fuel parent (list o is ∷ bs) =
    parse_siblings-AllShaped read fuel parent bs
parse_siblings-AllShaped read fuel parent (paragraph t ∷ bs) =
    parse_siblings-AllShaped read fuel parent bs
parse_siblings-AllShaped read fuel parent (other ∷ bs) =
    parse_siblings-AllShaped read fuel parent bs
parse_siblings-AllShaped read zero parent (heading level t ∷ bs) = λ gs e. absurd (ground arith)
parse_siblings-AllShaped read (suc fuel) parent (heading level t ∷ bs) =
    elim (Bool-cases (leb level parent)) [
      | inl closes ↦ rw closes (λ gs e. ap is_shaped (sym (ok_inj e)))
      | inr opens ↦ rw opens (elim (Bool-cases (has_heading (section_body level bs))) [
        | inl nested ↦ rw nested (
            cons-AllShaped _ (parse_siblings read fuel parent (section_end level bs))
              (inner-GroupShaped level (trim_space t) (parse_siblings read fuel level bs)
                (parse_siblings-AllShaped read fuel level bs))
              (parse_siblings-AllShaped read fuel parent (section_end level bs)))
        | inr flat ↦ rw flat (
            cons-AllShaped _ (parse_siblings read fuel parent (section_end level bs))
              (leaf-GroupShaped level (trim_space t)
                (parse_leaf_section read (section_body level bs)))
              (parse_siblings-AllShaped read fuel parent (section_end level bs)))
      ])
    ]

pub parse_shaped :
    (read : String → Option (List Json)) (bs : List Block) (p : Plan)
    → parse read bs ≡ ok p
    → is_shaped p ≡ true
unfolding parse
parse_shaped read bs p e = parse_siblings-AllShaped read (length bs) 0 bs p e
