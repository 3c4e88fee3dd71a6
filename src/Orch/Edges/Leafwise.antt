-- ===== src/Orch/Edges/Leafwise.antt =====
-- The document-order edges of internal/orch/plan_import.go, described leaf by leaf.
use radioactive_ralph.Prelude.{
  ℕ, suc, ◌+◌, ◌-◌, ◌<◌, ◌≡◌, refl, sym, ap, ◌∙◌, String, Bool, true, false, List, [], ◌∷◌, ◌++◌,
  map, length, length-append, get_or, take, drop, arith, if◌then◌else◌, ◌||◌, ◌==◌,
}
use mathlib.Core.List.{append_assoc, append-nil}
use radioactive_ralph.Plan.{Step, step_refs}
use radioactive_ralph.Plan.Leaves.{Leaf}
use radioactive_ralph.Orch.Import.{Located, EdgeState, visit_steps}

module _ (key : Located → String) where
  abbrev pub keys : List Located → List String
  keys xs = map key xs

  -- In a parallel leaf every step waits on `prev`; in a sequential one each waits on the step before.
  abbrev pub fan_edges : List String → List Located → List (Located × List String)
  fan_edges prev [] = []
  fan_edges prev (x ∷ xs) = (x, prev) ∷ fan_edges prev xs

  abbrev pub chain_edges : List String → List Located → List (Located × List String)
  chain_edges prev [] = []
  chain_edges prev (x ∷ xs) = (x, prev) ∷ chain_edges (key x ∷ []) xs

  abbrev pub chain_end : List String → List Located → List String
  chain_end prev [] = prev
  chain_end prev (x ∷ xs) = chain_end (key x ∷ []) xs

  abbrev pub leaf_edges : Bool → List String → List Located → List (Located × List String)
  leaf_edges parallel prev xs = if parallel then fan_edges prev xs else chain_edges prev xs

  -- What the next leaf waits on.
  abbrev pub terminals : Bool → List String → List Located → List String
  terminals parallel prev [] = prev
  terminals parallel prev (x ∷ xs) = if parallel then keys (x ∷ xs) else chain_end prev (x ∷ xs)

  abbrev pub edges_of : List String → List Leaf → List (Located × List String)
  edges_of prev [] = []
  edges_of prev (l ∷ ls) =
      leaf_edges l.parallel prev l.located ++ edges_of (terminals l.parallel prev l.located) ls

  abbrev pub last_terminals : List String → List Leaf → List String
  last_terminals prev [] = prev
  last_terminals prev (l ∷ ls) = last_terminals (terminals l.parallel prev l.located) ls

abbrev pub deps_of : List (Located × List String) → List (List String)
deps_of es = map (λ x. x.1) es

pub get_or-middle :
    (pre : List String) (x : String) (post : List String) (d : String)
    → get_or (pre ++ x ∷ post) (length pre) d ≡ x
get_or-middle [] x post d = refl
get_or-middle (y ∷ pre) x post d = get_or-middle pre x post d

pub drop-append : (pre post : List String) → drop (length pre) (pre ++ post) ≡ post
drop-append [] post = refl
drop-append (y ∷ pre) post = drop-append pre post

pub take-append : (xs post : List String) → take (length xs) (xs ++ post) ≡ xs
take-append [] post = refl
take-append (x ∷ xs) post = ap (λ t. x ∷ t) (take-append xs post)

-- One entry written, and several.
abbrev pub push : EdgeState → List String → EdgeState
push st deps = record st { edges = st.edges ++ deps ∷ []; idx = suc st.idx }

abbrev pub advance : EdgeState → List (List String) → ℕ → EdgeState
advance st new n = record st { edges = st.edges ++ new; idx = st.idx + n }

pub state_path :
    {a b : EdgeState}
    → a.edges ≡ b.edges
    → a.prev_terminals ≡ b.prev_terminals
    → a.idx ≡ b.idx
    → a ≡ b
state_path p q r = λ i. record { edges = p i; prev_terminals = q i; idx = r i }

pub advance-nil : (st : EdgeState) → st ≡ advance st [] 0
advance-nil st = state_path (sym (append-nil st.edges)) refl (omega arith)

pub advance-push :
    (st : EdgeState) (deps : List String) (new : List (List String)) (n : ℕ)
    → advance (push st deps) new n ≡ advance st (deps ∷ new) (suc n)
advance-push st deps new n = state_path (append_assoc st.edges (deps ∷ []) new) refl (omega arith)

module _ (key : Located → String) where
  abbrev pub step_keys : List ℕ → ℕ → List Step → List String
  step_keys path j ss = keys key (step_refs path j ss)

  pub length-step_keys :
      (path : List ℕ) (j : ℕ) (ss : List Step) → length (step_keys path j ss) ≡ length ss
  length-step_keys path j [] = refl
  length-step_keys path j (s ∷ ss) = ap suc (length-step_keys path (suc j) ss)

  pub visit_steps-fan :
      (ids : List String) (start : ℕ) (path : List ℕ) (j : ℕ) (ss : List Step) (st : EdgeState)
      → visit_steps true ids start ss st
        ≡ advance st (deps_of (fan_edges key st.prev_terminals (step_refs path j ss))) (length ss)
  visit_steps-fan ids start path j [] st = advance-nil st
  visit_steps-fan ids start path j (s ∷ ss) st =
      visit_steps-fan ids start path (suc j) ss (push st st.prev_terminals)
      ∙ advance-push st st.prev_terminals _ (length ss)

  chain_deps :
      (ids pre : List String) (x : String) (post : List String) (start : ℕ) (st : EdgeState)
      → ids ≡ pre ++ x ∷ post
      → start < st.idx
      → st.idx ≡ suc (length pre)
      → (if false || st.idx == start then st.prev_terminals else get_or ids (st.idx - 1) "" ∷ [])
        ≡ x ∷ []
  chain_deps ids pre x post start st e h p =
      let at : st.idx - 1 ≡ length pre = omega arith in
      let found : get_or ids (st.idx - 1) "" ≡ x = rw (e, at) (get_or-middle pre x post "") in
      ground (arith, found)

  pub visit_steps-chain :
      (ids pre : List String) (x : String) (post : List String) (start : ℕ) (path : List ℕ) (j : ℕ)
      (ss : List Step) (st : EdgeState)
      → ids ≡ pre ++ x ∷ (step_keys path j ss ++ post)
      → start < st.idx
      → st.idx ≡ suc (length pre)
      → visit_steps false ids start ss st
        ≡ advance st (deps_of (chain_edges key (x ∷ []) (step_refs path j ss))) (length ss)
  visit_steps-chain ids pre x post start path j [] st e h p = advance-nil st
  visit_steps-chain ids pre x post start path j (s ∷ ss) st e h p =
      ap (λ D. visit_steps false ids start ss (push st D)) (chain_deps ids pre x _ start st e h p)
      ∙ visit_steps-chain ids (pre ++ x ∷ []) (key (record { group_path = path; index = j }, s))
          post start path (suc j) ss (push st (x ∷ [])) (e ∙ sym (append_assoc pre (x ∷ []) _))
          (omega arith) (omega (arith, length-append pre (x ∷ [])))
      ∙ advance-push st (x ∷ []) _ (length ss)
