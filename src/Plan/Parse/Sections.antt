-- ===== src/Plan/Parse/Sections.antt =====
-- The recursive descent of internal/plan/parse.go keeps every step, and ends.
use mathlib.Core.List.{append_assoc, append-nil}
use radioactive_ralph.Prelude.{
  ℕ, zero, suc, ◌≤◌, ◌≡◌, refl, sym, ap, ◌∙◌, String, Bool, true, false, ◌&&◌, &&_true, Option,
  List, [], ◌∷◌, ◌++◌, length, arith, Bool-cases, inl, inr, if◌then◌else◌, leb, ltb, not,
}
use radioactive_ralph.Plan.{Group, group, Groups, nil, cons, Step}
use radioactive_ralph.Plan.Json.{Json}
use radioactive_ralph.Plan.Texts.{trim_space}
use radioactive_ralph.Plan.Parse.{
  Block, heading, list, paragraph, other, Parsed, ok, err, ◌>>=◌, parse_leaf_section, section_end,
  section_body, has_heading, leaf_group, parse_siblings, parse,
}
use radioactive_ralph.Plan.Parse.Flat.{
  is_leaf, until_heading, ◌then_steps◌, section_steps, leaf_steps, flatten, flatten_group, steps_in,
  walk_groups-flatten,
}

then_steps_assoc :
    (a b c : Parsed (List Step)) → ((a then_steps b) then_steps c) ≡ (a then_steps (b then_steps c))
then_steps_assoc (ok x) (ok y) (ok z) = ap Parsed.ok (append_assoc x y z)
then_steps_assoc (ok x) (ok y) (err e) = refl
then_steps_assoc (ok x) (err e) c = refl
then_steps_assoc (err e) b c = refl

nothing_then_steps : (a : Parsed (List Step)) → (ok [] then_steps a) ≡ a
nothing_then_steps (ok x) = refl
nothing_then_steps (err e) = refl

then_steps_nothing : (a : Parsed (List Step)) → (a then_steps ok []) ≡ a
then_steps_nothing (ok x) = ap Parsed.ok (append-nil x)
then_steps_nothing (err e) = refl

-- All headings are deeper than `level`.
abbrev is_below : ℕ → List Block → Bool
is_below level [] = true
is_below level (heading l t ∷ bs) = ltb level l && is_below level bs
is_below level (list o is ∷ bs) = is_below level bs
is_below level (paragraph t ∷ bs) = is_below level bs
is_below level (other ∷ bs) = is_below level bs

-- Nothing, or a heading that closes a section of this level.
abbrev is_closed : ℕ → List Block → Bool
is_closed level [] = true
is_closed level (heading l t ∷ bs) = leb l level
is_closed level (list o is ∷ bs) = false
is_closed level (paragraph t ∷ bs) = false
is_closed level (other ∷ bs) = false

section_body-below : (level : ℕ) (bs : List Block) → is_below level (section_body level bs) ≡ true
section_body-below level [] = refl
section_body-below level (heading l t ∷ bs) = ground (arith, section_body-below level bs)
section_body-below level (list o is ∷ bs) = section_body-below level bs
section_body-below level (paragraph t ∷ bs) = section_body-below level bs
section_body-below level (other ∷ bs) = section_body-below level bs

section_end-closed :
    (level parent : ℕ) (bs : List Block)
    → is_closed level (section_body parent (section_end level bs)) ≡ true
section_end-closed level parent [] = refl
section_end-closed level parent (heading l t ∷ bs) =
    ground (arith, section_end-closed level parent bs)
section_end-closed level parent (list o is ∷ bs) = section_end-closed level parent bs
section_end-closed level parent (paragraph t ∷ bs) = section_end-closed level parent bs
section_end-closed level parent (other ∷ bs) = section_end-closed level parent bs

-- The section of a heading inside the section of its parent.
section_split :
    (level parent : ℕ) (bs : List Block)
    → parent ≤ level
    → section_body parent bs ≡ section_body level bs ++ section_body parent (section_end level bs)
section_split level parent [] h = refl
section_split level parent (heading l t ∷ bs) h = ground (arith, section_split level parent bs h)
section_split level parent (list o is ∷ bs) h =
    ap (λ c. list o is ∷ c) (section_split level parent bs h)
section_split level parent (paragraph t ∷ bs) h =
    ap (λ c. paragraph t ∷ c) (section_split level parent bs h)
section_split level parent (other ∷ bs) h = ap (λ c. other ∷ c) (section_split level parent bs h)

is_leaf-append :
    (k level : ℕ) (xs ys : List Block)
    → level ≤ k
    → is_closed level ys ≡ true
    → is_leaf k (xs ++ ys) ≡ is_leaf k xs
is_leaf-append k level [] [] h c = refl
is_leaf-append k level [] (heading l t ∷ ys) h c = ground arith
is_leaf-append k level [] (list o is ∷ ys) h c = absurd (ground arith)
is_leaf-append k level [] (paragraph t ∷ ys) h c = absurd (ground arith)
is_leaf-append k level [] (other ∷ ys) h c = absurd (ground arith)
is_leaf-append k level (heading l t ∷ xs) ys h c = refl
is_leaf-append k level (list o is ∷ xs) ys h c = is_leaf-append k level xs ys h c
is_leaf-append k level (paragraph t ∷ xs) ys h c = is_leaf-append k level xs ys h c
is_leaf-append k level (other ∷ xs) ys h c = is_leaf-append k level xs ys h c

until_heading-append :
    (level : ℕ) (xs ys : List Block)
    → is_closed level ys ≡ true
    → until_heading (xs ++ ys) ≡ until_heading xs
until_heading-append level [] [] c = refl
until_heading-append level [] (heading l t ∷ ys) c = refl
until_heading-append level [] (list o is ∷ ys) c = absurd (ground arith)
until_heading-append level [] (paragraph t ∷ ys) c = absurd (ground arith)
until_heading-append level [] (other ∷ ys) c = absurd (ground arith)
until_heading-append level (heading l t ∷ xs) ys c = refl
until_heading-append level (list o is ∷ xs) ys c =
    ap (λ b. list o is ∷ b) (until_heading-append level xs ys c)
until_heading-append level (paragraph t ∷ xs) ys c =
    ap (λ b. paragraph t ∷ b) (until_heading-append level xs ys c)
until_heading-append level (other ∷ xs) ys c =
    ap (λ b. other ∷ b) (until_heading-append level xs ys c)

-- The first heading inside a section that has one is deeper.
is_leaf-has_heading :
    (level : ℕ) (bs : List Block)
    → is_leaf level (section_body level bs) ≡ not (has_heading (section_body level bs))
is_leaf-has_heading level [] = refl
is_leaf-has_heading level (heading l t ∷ bs) = ground arith
is_leaf-has_heading level (list o is ∷ bs) = is_leaf-has_heading level bs
is_leaf-has_heading level (paragraph t ∷ bs) = is_leaf-has_heading level bs
is_leaf-has_heading level (other ∷ bs) = is_leaf-has_heading level bs

until_heading_all : (bs : List Block) → has_heading bs ≡ false → until_heading bs ≡ bs
until_heading_all [] h = refl
until_heading_all (heading l t ∷ bs) h = absurd (ground arith)
until_heading_all (list o is ∷ bs) h = ap (λ c. list o is ∷ c) (until_heading_all bs h)
until_heading_all (paragraph t ∷ bs) h = ap (λ c. paragraph t ∷ c) (until_heading_all bs h)
until_heading_all (other ∷ bs) h = ap (λ c. other ∷ c) (until_heading_all bs h)

length-section_end : (level : ℕ) (bs : List Block) → length (section_end level bs) ≤ length bs
length-section_end level [] = omega arith
length-section_end level (heading l t ∷ bs) = ground (arith, length-section_end level bs)
length-section_end level (list o is ∷ bs) = omega (arith, length-section_end level bs)
length-section_end level (paragraph t ∷ bs) = omega (arith, length-section_end level bs)
length-section_end level (other ∷ bs) = omega (arith, length-section_end level bs)

module _ (read : String → Option (List Json)) where
  leaf_steps_flat : (bs : List Block) → has_heading bs ≡ false → leaf_steps read bs ≡ ok []
  unfolding leaf_steps
  leaf_steps_flat [] h = refl
  leaf_steps_flat (heading l t ∷ bs) h = absurd (ground arith)
  leaf_steps_flat (list o is ∷ bs) h = leaf_steps_flat bs h
  leaf_steps_flat (paragraph t ∷ bs) h = leaf_steps_flat bs h
  leaf_steps_flat (other ∷ bs) h = leaf_steps_flat bs h

  leaf_steps-append :
      (level : ℕ) (xs ys : List Block)
      → is_below level xs ≡ true
      → is_closed level ys ≡ true
      → leaf_steps read (xs ++ ys) ≡ (leaf_steps read xs then_steps leaf_steps read ys)
  unfolding leaf_steps
  leaf_steps-append level [] ys b c = sym (nothing_then_steps (leaf_steps read ys))
  leaf_steps-append level (heading l t ∷ xs) ys b c =
      let deeper = &&_true (ltb level l) _ b in
      rw
        (
          is_leaf-append l level xs ys (ground arith) c,
          until_heading-append level xs ys c,
          leaf_steps-append level xs ys deeper.1 c,
        )
        (sym (
          then_steps_assoc (if is_leaf l xs then section_steps read (until_heading xs) else ok [])
            (leaf_steps read xs) (leaf_steps read ys)))
  leaf_steps-append level (list o is ∷ xs) ys b c = leaf_steps-append level xs ys b c
  leaf_steps-append level (paragraph t ∷ xs) ys b c = leaf_steps-append level xs ys b c
  leaf_steps-append level (other ∷ xs) ys b c = leaf_steps-append level xs ys b c

  abbrev flattened : Parsed Groups → Parsed (List Step)
  flattened m = m >>= λ gs. ok (flatten gs)

  abbrev flattened_group : Parsed Group → Parsed (List Step)
  flattened_group m = m >>= λ g. ok (flatten_group g)

  flattened-cons :
      (m : Parsed Group) (n : Parsed Groups)
      → flattened (m >>= λ g. n >>= λ gs. ok (cons g gs))
        ≡ (flattened_group m then_steps flattened n)
  unfolding flatten
  flattened-cons (ok g) (ok gs) = refl
  flattened-cons (ok g) (err e) = refl
  flattened-cons (err e) n = refl

  inner-flattened :
      (level : ℕ) (text : String) (m : Parsed Groups)
      → flattened_group (m >>= λ subs. ok (group text level false [] subs)) ≡ flattened m
  unfolding flatten
  inner-flattened level text (ok nil) = refl
  inner-flattened level text (ok (cons g gs)) = refl
  inner-flattened level text (err e) = refl

  leaf-flattened :
      (level : ℕ) (text : String) (m : Parsed (List Step × Bool))
      → flattened_group (m >>= λ l. ok (leaf_group level text l)) ≡ (m >>= λ l. ok l.0)
  unfolding flatten
  leaf-flattened level text (ok l) = refl
  leaf-flattened level text (err e) = refl

  -- The group of one heading: `buildGroup`.
  abbrev built : ℕ → String → List Block → Parsed Groups → Parsed Group
  built level t bs m =
      if has_heading (section_body level bs)
      then m >>= (λ subs. ok (group (trim_space t) level false [] subs))
      else parse_leaf_section read (section_body level bs)
        >>= (λ l. ok (leaf_group level (trim_space t) l))

  -- One heading with its section, and what follows it.
  heading-leaf_steps :
      (level parent : ℕ) (t : String) (bs : List Block) (m : Parsed Groups)
      → parent ≤ level
      → flattened m ≡ leaf_steps read (section_body level bs)
      → (flattened_group (built level t bs m)
          then_steps leaf_steps read (section_body parent (section_end level bs)))
        ≡ leaf_steps read (heading level t ∷ section_body parent bs)
  unfolding leaf_steps
  heading-leaf_steps level parent t bs m h e =
      let body = section_body level bs in
      let rest = section_body parent (section_end level bs) in
      let closed = section_end-closed level parent bs in
      let split = section_split level parent bs h in
      rw
        (
          split,
          is_leaf-append level level body rest (omega arith) closed,
          until_heading-append level body rest closed,
          is_leaf-has_heading level bs,
          leaf_steps-append level body rest (section_body-below level bs) closed,
        )
        (elim (Bool-cases (has_heading body)) [
          | inl nested ↦ rw nested (
              ap (λ a. a then_steps leaf_steps read rest)
                (inner-flattened level (trim_space t) m ∙ e)
              ∙ sym (nothing_then_steps (leaf_steps read body then_steps leaf_steps read rest)))
          | inr flat ↦
              rw
                (
                  flat,
                  until_heading_all body flat,
                  leaf_steps_flat body flat,
                  nothing_then_steps (leaf_steps read rest),
                )
                (ap (λ a. a then_steps leaf_steps read rest)
                  (leaf-flattened level (trim_space t) (parse_leaf_section read body)))
        ])

  parse_siblings-leaf_steps :
      (fuel parent : ℕ) (bs : List Block)
      → length bs ≤ fuel
      → flattened (parse_siblings read fuel parent bs) ≡ leaf_steps read (section_body parent bs)
  unfolding leaf_steps parse_siblings flatten
  parse_siblings-leaf_steps fuel parent [] h = refl
  parse_siblings-leaf_steps fuel parent (list o is ∷ bs) h =
      parse_siblings-leaf_steps fuel parent bs (omega arith)
  parse_siblings-leaf_steps fuel parent (paragraph t ∷ bs) h =
      parse_siblings-leaf_steps fuel parent bs (omega arith)
  parse_siblings-leaf_steps fuel parent (other ∷ bs) h =
      parse_siblings-leaf_steps fuel parent bs (omega arith)
  parse_siblings-leaf_steps zero parent (heading level t ∷ bs) h = absurd (omega arith)
  parse_siblings-leaf_steps (suc fuel) parent (heading level t ∷ bs) h =
      elim (Bool-cases (leb level parent)) [
        | inl closes ↦ rw closes refl
        | inr opens ↦ rw opens (
            flattened-cons (built level t bs (parse_siblings read fuel level bs))
              (parse_siblings read fuel parent (section_end level bs))
            ∙ ap
                (λ b.
                  flattened_group (built level t bs (parse_siblings read fuel level bs))
                  then_steps b)
                (parse_siblings-leaf_steps fuel parent (section_end level bs)
                  (omega (arith, length-section_end level bs)))
            ∙ heading-leaf_steps level parent t bs (parse_siblings read fuel level bs)
                (ground arith) (parse_siblings-leaf_steps fuel level bs (omega arith)))
      ]

-- The levels of headings, which count from one.
abbrev pub has_levels : List Block → Bool
has_levels = is_below 0

section_body_all : (bs : List Block) → has_levels bs ≡ true → section_body 0 bs ≡ bs
section_body_all [] h = refl
section_body_all (heading l t ∷ bs) h = ground (arith, section_body_all bs)
section_body_all (list o is ∷ bs) h = ap (λ c. list o is ∷ c) (section_body_all bs h)
section_body_all (paragraph t ∷ bs) h = ap (λ c. paragraph t ∷ c) (section_body_all bs h)
section_body_all (other ∷ bs) h = ap (λ c. other ∷ c) (section_body_all bs h)

-- The steps of a parsed document, against the single pass.
pub parse_flattened :
    (read : String → Option (List Json)) (bs : List Block)
    → has_levels bs ≡ true
    → (parse read bs >>= λ p. ok (steps_in p)) ≡ leaf_steps read bs
unfolding parse
parse_flattened read bs h =
    visited (parse_siblings read (length bs) 0 bs)
    ∙ parse_siblings-leaf_steps read (length bs) 0 bs (omega arith)
    ∙ ap (leaf_steps read) (section_body_all bs h)
  where
    visited : (m : Parsed Groups) → (m >>= λ p. ok (steps_in p)) ≡ (m >>= λ gs. ok (flatten gs))
    visited (ok p) = ap Parsed.ok (walk_groups-flatten p [] 0)
    visited (err e) = refl
