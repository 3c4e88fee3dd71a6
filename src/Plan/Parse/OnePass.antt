-- ===== src/Plan/Parse/OnePass.antt =====
-- The parse of internal/plan/parse.go is one pass over the blocks, and it ends.
use radioactive_ralph.Prelude.{
  ◌≡◌, ◌≢◌, sym, ap, ◌∙◌, String, Bool, true, Option, List, [], ◌∷◌, arith, Bool-cases, inl, inr,
}
use radioactive_ralph.Plan.{TaskMetadata}
use radioactive_ralph.Plan.Json.{Json}
use radioactive_ralph.Plan.Metadata.{Decoded, parse_task_metadata_block}
use radioactive_ralph.Plan.Parse.{
  Block, heading, list, paragraph, other, Item, Section, Parsed, ok, err, ◌>>=◌, out_of_fuel,
  with_text, step_of, steps_of, scan_section, parse_leaf_section, parse,
}
use radioactive_ralph.Plan.Parse.Flat.{is_leaf, until_heading, section_steps, leaf_steps, steps_in}
use radioactive_ralph.Plan.Parse.Sections.{has_levels, parse_flattened}

abbrev Ends : {A : Type 0} → Parsed A → Type 0
Ends m = m ≢ err out_of_fuel

bind-Ends :
    {A B : Type 0} (m : Parsed A) (f : A → Parsed B)
    → Ends m
    → ((a : A) → Ends (f a))
    → Ends (m >>= f)
bind-Ends (ok a) f p q = q a
bind-Ends (err e) f p q = λ h. p (ground arith)

with_text-Ends :
    (text : String) (approval : Bool) (d : Decoded (Option TaskMetadata))
    → Ends (with_text text approval d)
with_text-Ends text approval (Decoded.ok m) h = cc
with_text-Ends text approval (Decoded.err e) h = cc

module _ (read : String → Option (List Json)) where
  step_of-Ends : (i : Item) → Ends (step_of read i)
  unfolding step_of
  step_of-Ends i = with_text-Ends _ _ (parse_task_metadata_block read i.blocks)

  steps_of-Ends : (is : List Item) → Ends (steps_of read is)
  unfolding steps_of
  steps_of-Ends [] = λ h. cc
  steps_of-Ends (i ∷ is) =
      bind-Ends (step_of read i) _ (step_of-Ends i)
        (λ s. bind-Ends (steps_of read is) _ (steps_of-Ends is) (λ ss h. cc))

  scan_section-Ends : (bs : List Block) (s : Section) → Ends (scan_section read bs s)
  unfolding scan_section
  scan_section-Ends [] s = λ h. cc
  scan_section-Ends (heading l t ∷ bs) s = scan_section-Ends bs s
  scan_section-Ends (paragraph t ∷ bs) s = scan_section-Ends bs _
  scan_section-Ends (other ∷ bs) s = scan_section-Ends bs s
  scan_section-Ends (list o is ∷ bs) s =
      bind-Ends (steps_of read is) _ (steps_of-Ends is) (λ more. scan_section-Ends bs _)

  section_steps-Ends : (bs : List Block) → Ends (section_steps read bs)
  unfolding parse_leaf_section
  section_steps-Ends bs =
      bind-Ends (parse_leaf_section read bs) _
        (bind-Ends (scan_section read bs _) _ (scan_section-Ends bs _) (λ s h. cc)) (λ l h. cc)

  leaf_steps-Ends : (bs : List Block) → Ends (leaf_steps read bs)
  unfolding leaf_steps
  leaf_steps-Ends [] = λ h. cc
  leaf_steps-Ends (list o is ∷ bs) = leaf_steps-Ends bs
  leaf_steps-Ends (paragraph t ∷ bs) = leaf_steps-Ends bs
  leaf_steps-Ends (other ∷ bs) = leaf_steps-Ends bs
  leaf_steps-Ends (heading l t ∷ bs) = elim (Bool-cases (is_leaf l bs)) [
    | inl closed ↦ rw closed (
        bind-Ends (section_steps read (until_heading bs)) _ (section_steps-Ends (until_heading bs))
          (λ a. bind-Ends (leaf_steps read bs) _ (leaf_steps-Ends bs) (λ b h. cc)))
    | inr inner ↦ rw inner (bind-Ends (leaf_steps read bs) _ (leaf_steps-Ends bs) (λ b h. cc))
  ]

-- The parse of a document whose headings have levels gives the steps of one pass over its blocks, in
-- order: those of each heading that the next heading closes. Where an item's metadata is refused, both
-- end with the error of the first such item. The descent never runs out of fuel.
pub parse-leaf_steps :
    (read : String → Option (List Json)) (bs : List Block)
    → has_levels bs ≡ true
    → ((parse read bs >>= λ p. ok (steps_in p)) ≡ leaf_steps read bs)
      × (parse read bs ≢ err out_of_fuel)
parse-leaf_steps read bs h =
    let same = parse_flattened read bs h in
    (same, λ spent. leaf_steps-Ends read bs (sym same ∙ ap (λ m. m >>= λ p. ok (steps_in p)) spent))
