-- ===== src/Orch/Import.antt =====
-- internal/orch/plan_import.go: a parsed plan becomes task specs with their dependency edges.
use radioactive_ralph.Prelude.{
  ℕ, suc, ◌-◌, String, Bool, ◌||◌, Option, none, some, List, [], ◌∷◌, ◌++◌, any, get_or, take, drop,
  is_nil, if◌then◌else◌, ◌==◌, text_eq,
}
use radioactive_ralph.Plan.{
  Plan, Group, group, Groups, nil, cons, Step, StepRef, TaskMetadata, TaskInput, TaskOutput,
  no_groups, walk_groups, step_id, group_id, depends_on,
}

abbrev pub Located : Type 0
Located = StepRef × Step

-- `stepTaskID`: the explicit id of the metadata if there is one, else the positional id.
abbrev pub id_or : Option TaskMetadata → String → String
id_or none id = id
id_or (some m) id = if text_eq m.id "" then id else m.id

unfoldable pub step_task_id : Located → String
step_task_id (r, s) = id_or s.metadata (step_id r)

-- `documentOrderEdges`. The slice `edges` is filled from the left, one entry for each `idx`, so
-- the entries written so far are a list.
pub record EdgeState : Type 0 where
  pub edges : List (List String)
  pub prev_terminals : List String
  pub idx : ℕ

-- The loop over the steps of one leaf group.
abbrev pub visit_steps : Bool → List String → ℕ → List Step → EdgeState → EdgeState
visit_steps parallel ids start [] st = st
visit_steps parallel ids start (s ∷ ss) st =
    let deps =
      if parallel || st.idx == start then st.prev_terminals else get_or ids (st.idx - 1) "" ∷ [] in
    visit_steps parallel ids start ss
      (record st { edges = st.edges ++ deps ∷ []; idx = suc st.idx })

-- The terminals that the next leaf group waits on: all steps, or the last one.
abbrev pub finish_leaf : Bool → List String → ℕ → EdgeState → EdgeState
finish_leaf parallel ids start after = record after {
  prev_terminals =
      if parallel
      then take (after.idx - start) (drop start ids)
      else get_or ids (after.idx - 1) "" ∷ [];
}

abbrev pub visit_leaf : Bool → List String → List Step → EdgeState → EdgeState
visit_leaf parallel ids steps st =
    if is_nil steps
    then st
    else finish_leaf parallel ids st.idx (visit_steps parallel ids st.idx steps st)

unfoldable mutual
  pub visit : List String → Groups → EdgeState → EdgeState
  visit ids nil st = st
  visit ids (cons g gs) st = visit ids gs (visit_group ids g st)

  pub visit_group : List String → Group → EdgeState → EdgeState
  visit_group ids (group heading level parallel steps subs) st =
      let inner = visit ids subs st in
      if no_groups subs then visit_leaf parallel ids steps st else inner

unfoldable pub document_order_edges : Plan → List String → List (List String)
unfolding visit
document_order_edges p ids =
    (visit ids p (record { edges = []; prev_terminals = []; idx = 0 })).edges

-- What `graphSpecs` hands to the store for one task. The metadata is kept as the value that
-- `json.Marshal` encodes.
pub record GraphTaskSpec : Type 0 where
  pub id : String
  pub description : String
  pub acceptance_json : String
  pub requires_approval : Bool
  pub depends_on : List String
  pub group_path : String
  pub team_path : String
  pub metadata : Option TaskMetadata
  pub inputs : List TaskInput
  pub outputs : List TaskOutput

pub data ImportError : Type 0 where
  no_steps : ImportError
  duplicate_task_id : String → ImportError
  unknown_after : String → String → ImportError

pub data Imported (A : Type 0) : Type 0 where
  ok : A → Imported A
  err : ImportError → Imported A

infixl 5 ◌>>=◌
abbrev pub ◌>>=◌ : {A B : Type 0} → Imported A → (A → Imported B) → Imported B
ok a >>= f = f a
err e >>= f = err e

-- `declaredReservations`
abbrev pub declared_inputs : Step → List TaskInput
declared_inputs s = elim s.metadata [ none ↦ [] | some m ↦ m.inputs ]

abbrev pub declared_outputs : Step → List TaskOutput
declared_outputs s = elim s.metadata [ none ↦ [] | some m ↦ m.outputs ]

abbrev pub team_of : Step → String
team_of s = elim s.metadata [ none ↦ "" | some m ↦ m.team ]

-- The loop that numbers the nodes; `seen` holds the keys of `byID`.
unfoldable pub collect_ids : List String → List Located → Imported (List String)
collect_ids seen [] = ok []
collect_ids seen (x ∷ xs) =
    let id = step_task_id x in
    let rest = collect_ids (id ∷ seen) xs in
    if any (text_eq id) seen then err (duplicate_task_id id) else (do ids ← rest; ok (id ∷ ids))

-- The check of an explicit `after`: the first id that names no task of the plan is an error.
unfoldable pub check_after : List String → String → List String → Imported (List String)
check_after ids id [] = ok []
check_after ids id (dep ∷ deps) =
    let rest = check_after ids id deps in
    if any (text_eq dep) ids then (do ds ← rest; ok (dep ∷ ds)) else err (unknown_after id dep)

unfoldable pub choose_deps :
    List String → String → Option TaskMetadata → List String → Imported (List String)
unfolding check_after depends_on
choose_deps ids id metadata doc_order =
    let (explicit, stated) = depends_on metadata in
    if stated then check_after ids id explicit else ok doc_order

-- `acceptance` derives the acceptance criteria from the text of a step (regular expressions).
module _ (acceptance : Step → String) where
  unfoldable pub spec_of : Located → String → List String → GraphTaskSpec
  spec_of (r, s) id deps = record {
    id = id;
    description = s.text;
    acceptance_json = acceptance s;
    requires_approval = s.requires_approval;
    depends_on = deps;
    group_path = group_id r;
    team_path = team_of s;
    metadata = s.metadata;
    inputs = declared_inputs s;
    outputs = declared_outputs s;
  }

  -- The loop of `graphSpecs` over the nodes, with their ids and document-order edges.
  unfoldable pub specs_loop :
      List String → List Located → List String → List (List String) → Imported (List GraphTaskSpec)
  unfolding choose_deps spec_of
  specs_loop all_ids (x ∷ xs) (id ∷ ids) (doc ∷ docs) =
      let rest = specs_loop all_ids xs ids docs in
      (do
        deps ← choose_deps all_ids id (x.1).metadata doc
        specs ← rest
        ok (spec_of x id deps ∷ specs))
  specs_loop all_ids _ _ _ = ok []

  unfoldable pub graph_specs : Plan → Imported (List GraphTaskSpec)
  unfolding specs_loop collect_ids document_order_edges walk_groups
  graph_specs p =
      let nodes = walk_groups p [] 0 in
      if is_nil nodes
      then err no_steps
      else (do ids ← collect_ids [] nodes; specs_loop ids nodes ids (document_order_edges p ids))
