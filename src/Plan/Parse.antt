-- ===== src/Plan/Parse.antt =====
-- internal/plan/parse.go: the groups and steps of a plan document. The Markdown library is not part of
-- the repository: a document is the sequence of top-level blocks that it finds, and a list item is what
-- the parser reads of its tree.
pub mod Flat
pub mod Sections
pub mod OnePass
pub mod Shape
use Prim.Native.Char.{Char}
use radioactive_ralph.Prelude.{
  ℕ, zero, suc, String, Bool, true, false, not, Option, none, some, List, [], ◌∷◌, ◌++◌, map,
  length, is_nil, if◌then◌else◌, leb, ltb, text_eq, join,
}
use radioactive_ralph.Plan.{Group, group, Groups, nil, cons, Step, Plan, TaskMetadata}
use radioactive_ralph.Plan.Json.{Json}
use radioactive_ralph.Plan.Texts.{trim_space, equal_fold}
use radioactive_ralph.Plan.Metadata.{MetadataError, Decoded, parse_task_metadata_block}

-- The source lines of the paragraphs and text blocks of an item, and the contents of the fenced blocks
-- below it whose language is "ralph-task".
pub record Item : Type 0 where
  pub lines : List String
  pub blocks : List String

pub data Block : Type 0 where
  heading : ℕ → String → Block
  list : Bool → List Item → Block
  paragraph : String → Block
  other : Block

-- `strings.TrimSpace` of each, without those that are empty.
unfoldable pub trimmed : List String → List String
unfolding trim_space
trimmed [] = []
trimmed (l ∷ ls) =
    let rest = trimmed ls in if text_eq (trim_space l) "" then rest else trim_space l ∷ rest

-- `listItemText`
unfoldable pub list_item_text : Item → String
unfolding trimmed join
list_item_text i = join (trimmed i.lines) " "

abbrev put_char : Char → Option String → Option String
put_char c none = none
put_char c (some s) = some (String.◌∷◌ c s)

-- The text before a trailing approval marker.
unfoldable pub before_marker : String → Option String
unfolding equal_fold
before_marker String.[] = none
before_marker (String.◌∷◌ c s) =
    let rest = put_char c (before_marker s) in
    if equal_fold (String.◌∷◌ c s) "[approval]" then some String.[] else rest

-- `parseStepMarkers`
unfoldable pub parse_step_markers : String → String × Bool
unfolding trim_space before_marker
parse_step_markers text = elim (before_marker (trim_space text)) [
  | none ↦ (trim_space text, false)
  | some cleaned ↦ (trim_space cleaned, true)
]

pub data ParseError : Type 0 where
  bad_metadata : String → MetadataError → ParseError
  out_of_fuel : ParseError

pub data Parsed (A : Type 0) : Type 0 where
  ok : A → Parsed A
  err : ParseError → Parsed A

infixl 5 ◌>>=◌
abbrev pub ◌>>=◌ : {A B : Type 0} → Parsed A → (A → Parsed B) → Parsed B
ok a >>= f = f a
err e >>= f = err e

abbrev pub with_text : String → Bool → Decoded (Option TaskMetadata) → Parsed Step
with_text text approval (Decoded.ok m) =
    Parsed.ok (record { text = text; detail = ""; requires_approval = approval; metadata = m })
with_text text approval (Decoded.err e) = Parsed.err (bad_metadata text e)

-- What the loop of `parseLeafSection` has gathered.
pub record Section : Type 0 where
  pub steps : List Step
  pub parallel : Bool
  pub saw_list : Bool
  pub details : List String

abbrev note : String → List String → List String
note t details = if text_eq t "" then details else details ++ t ∷ []

abbrev with_detail : List String → List Step → List Step
with_detail details steps =
    if is_nil details
    then steps
    else map (λ (s : Step). record s { detail = join details "\n\n" }) steps

-- The blocks from the next heading of level at most `level` on: `findSectionEnd`.
abbrev pub section_end : ℕ → List Block → List Block
section_end level [] = []
section_end level (heading l t ∷ bs) =
    let rest = section_end level bs in if leb l level then heading l t ∷ bs else rest
section_end level (list o is ∷ bs) = section_end level bs
section_end level (paragraph t ∷ bs) = section_end level bs
section_end level (other ∷ bs) = section_end level bs

-- The blocks before it.
abbrev pub section_body : ℕ → List Block → List Block
section_body level [] = []
section_body level (heading l t ∷ bs) =
    let rest = section_body level bs in if leb l level then [] else heading l t ∷ rest
section_body level (list o is ∷ bs) = list o is ∷ section_body level bs
section_body level (paragraph t ∷ bs) = paragraph t ∷ section_body level bs
section_body level (other ∷ bs) = other ∷ section_body level bs

abbrev pub has_heading : List Block → Bool
has_heading [] = false
has_heading (heading l t ∷ bs) = true
has_heading (list o is ∷ bs) = has_heading bs
has_heading (paragraph t ∷ bs) = has_heading bs
has_heading (other ∷ bs) = has_heading bs

abbrev leaf_group : ℕ → String → List Step × Bool → Group
leaf_group level text leaf = group text level leaf.1 leaf.0 nil

module _ (read : String → Option (List Json)) where
  unfoldable pub step_of : Item → Parsed Step
  unfolding list_item_text parse_step_markers parse_task_metadata_block
  step_of i =
      let (text, approval) = parse_step_markers (list_item_text i) in
      with_text text approval (parse_task_metadata_block read i.blocks)

  unfoldable pub steps_of : List Item → Parsed (List Step)
  unfolding step_of
  steps_of [] = Parsed.ok []
  steps_of (i ∷ is) = do s ← step_of i; ss ← steps_of is; Parsed.ok (s ∷ ss)

  unfoldable pub scan_section : List Block → Section → Parsed Section
  unfolding steps_of trim_space
  scan_section [] s = Parsed.ok s
  scan_section (list ordered items ∷ bs) s = steps_of items >>= λ more. scan_section bs (record s {
    steps = s.steps ++ more;
    parallel = if s.saw_list then s.parallel else not ordered;
    saw_list = true;
  })
  scan_section (paragraph t ∷ bs) s =
      scan_section bs (record s { details = note (trim_space t) s.details })
  scan_section (heading l t ∷ bs) s = scan_section bs s
  scan_section (other ∷ bs) s = scan_section bs s

  -- `parseLeafSection`
  unfoldable pub parse_leaf_section : List Block → Parsed (List Step × Bool)
  unfolding scan_section join
  parse_leaf_section bs =
      scan_section bs (record { steps = []; parallel = false; saw_list = false; details = [] })
      >>= λ s. Parsed.ok (with_detail s.details s.steps, s.parallel)

  -- `parseSiblingHeadings` with `buildGroup`: the groups above `parent` from the front of the blocks,
  -- up to a heading that closes them. Each call takes a heading off, so the blocks are fuel enough.
  unfoldable pub parse_siblings : ℕ → ℕ → List Block → Parsed Groups
  unfolding parse_leaf_section trim_space
  parse_siblings fuel parent [] = Parsed.ok nil
  parse_siblings fuel parent (list o is ∷ bs) = parse_siblings fuel parent bs
  parse_siblings fuel parent (paragraph t ∷ bs) = parse_siblings fuel parent bs
  parse_siblings fuel parent (other ∷ bs) = parse_siblings fuel parent bs
  parse_siblings zero parent (heading level t ∷ bs) = Parsed.err out_of_fuel
  parse_siblings (suc fuel) parent (heading level t ∷ bs) =
      let text = trim_space t in
      let inner =
        parse_siblings fuel level bs >>= λ subs. Parsed.ok (group text level false [] subs) in
      let leaf =
        parse_leaf_section (section_body level bs) >>= λ l. Parsed.ok (leaf_group level text l) in
      let both = (if has_heading (section_body level bs) then inner else leaf) >>= λ g.
      parse_siblings fuel parent (section_end level bs) >>= λ gs. Parsed.ok (cons g gs) in
      if leb level parent then Parsed.ok nil else both

  -- `Parse`
  unfoldable pub parse : List Block → Parsed Plan
  unfolding parse_siblings
  parse bs = parse_siblings (length bs) 0 bs
