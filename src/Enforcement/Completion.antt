-- ===== src/Enforcement/Completion.antt =====
-- When `Evaluate` of internal/enforcement/policy.go answers COMPLETE.
use radioactive_ralph.Prelude.{
  ℕ, ◌≡◌, refl, ap, ◌∙◌, ◌↔◌, ◌⊎◌, ◌≢◌, &&_intro, String, true, &&_true, Bool-cases, Option, none,
  some, Option-cases, List, [], ◌∷◌, Memᴰ, find?, find?-some, inl, inr, arith, text_eq,
  text_eq_sound,
}
use radioactive_ralph.Prelude.Int.{ltb_ℤ, succ_ℤ}
use radioactive_ralph.Enforcement.Vocabulary.{
  State, Action, Policy, Predicate, PredicateResult, Snapshot, Event, Request, Decision, Clock,
  ReasonCode, retry_scheduled, acceptance_failed,
}
use radioactive_ralph.Enforcement.Validation.{parse_wait, valid_request}
use radioactive_ralph.Enforcement.Evaluation.{
  result_of, is_satisfied_in, acceptance_satisfied, results_or_nil, retry_or_block, evaluate_active,
  recheck_at_time, evaluate_verify, step, evaluate, live_step-cases, evaluate_wait-cases,
}

-- Every predicate of the policy has a result of its own that was observed and is satisfied.
abbrev pub AllSatisfied : List Predicate → List (String × PredicateResult) → Type 0
AllSatisfied ps results =
    (p : Predicate)
    → Memᴰ p ps
    → (r : PredicateResult) × (find? (λ x. text_eq x.0 p.id) results ≡ some (p.id, r))
      × (r.observed ≡ true)
      × (r.satisfied ≡ true)

is_satisfied_in-result :
    (results : List (String × PredicateResult)) (p : Predicate)
    → is_satisfied_in results p ≡ true
    → (r : PredicateResult) × (find? (λ x. text_eq x.0 p.id) results ≡ some (p.id, r))
      × (r.observed ≡ true)
      × (r.satisfied ≡ true)
is_satisfied_in-result results p h = elim (Option-cases (find? (λ x. text_eq x.0 p.id) results)) [
  | inl none_there ↦ absurd (ground (arith, none_there))
  | inr ((id, r), there) ↦
      let (_, named) = find?-some (λ x. text_eq x.0 p.id) results there in
      (
        r,
        there ∙ ap (λ (i : String). some (i, r)) (text_eq_sound named),
        ground (arith, there),
        ground (arith, there),
      )
]

is_satisfied_in_complete :
    (results : List (String × PredicateResult)) (p : Predicate) (r : PredicateResult)
    → find? (λ x. text_eq x.0 p.id) results ≡ some (p.id, r)
    → r.observed ≡ true
    → r.satisfied ≡ true
    → is_satisfied_in results p ≡ true
is_satisfied_in_complete results p r there o s = ap result_of there ∙ ground arith

acceptance_satisfied_sound :
    (ps : List Predicate) (results : List (String × PredicateResult))
    → acceptance_satisfied ps results ≡ true
    → AllSatisfied ps results
unfolding acceptance_satisfied
acceptance_satisfied_sound [] results h q m = elim m [ ]
acceptance_satisfied_sound (p ∷ ps) results h q (Memᴰ.head e) =
    is_satisfied_in-result results q
      (ap (is_satisfied_in results) e ∙ (&&_true (is_satisfied_in results p) _ h).0)
acceptance_satisfied_sound (p ∷ ps) results h q (Memᴰ.tail m) =
    acceptance_satisfied_sound ps results (&&_true (is_satisfied_in results p) _ h).1 q m

acceptance_satisfied_complete :
    (ps : List Predicate) (results : List (String × PredicateResult))
    → AllSatisfied ps results
    → acceptance_satisfied ps results ≡ true
unfolding acceptance_satisfied
acceptance_satisfied_complete [] results h = refl
acceptance_satisfied_complete (p ∷ ps) results h =
    let (r, there, o, s) = h p (Memᴰ.head refl) in
    &&_intro (is_satisfied_in_complete results p r there o s)
      (acceptance_satisfied_complete ps results (λ q m. h q (Memᴰ.tail m)))

module _ (clock : Clock) (p : Policy) (s : Snapshot) (e : Event) where
  abbrev Unfinished : Decision → Type 0
  Unfinished d = d.state ≢ State.complete

  retry-Unfinished :
      (t : Snapshot) (reason : ReasonCode)
      → t.state ≢ State.complete
      → Unfinished (retry_or_block clock p t reason)
  retry-Unfinished t reason h = elim (Bool-cases (ltb_ℤ p.retry_budget (succ_ℤ t.retry_count))) [
    | inl spent ↦ rw spent (λ q. cc)
    | inr left ↦ rw left h
  ]

  active-Unfinished :
      (a : Action) → s.state ≡ State.active → Unfinished (evaluate_active clock a p s e)
  active-Unfinished Action.progress at h = ground arith
  active-Unfinished Action.no_progress at h = ground arith
  active-Unfinished Action.retryable_failure at h =
      retry-Unfinished s retry_scheduled (λ q. ground arith) h
  active-Unfinished Action.wait_external at h = ground arith
  active-Unfinished Action.request_verify at h = ground arith
  active-Unfinished Action.recheck at h = ground arith
  active-Unfinished Action.verify at h = ground arith
  active-Unfinished Action.terminal_failure at h = ground arith
  active-Unfinished (Action.unknown n) at h = ground arith

  recheck-Unfinished :
      (now : Option ℕ) (window : Option (ℕ × ℕ))
      → s.state ≡ State.wait_external
      → Unfinished (recheck_at_time clock now window s)
  recheck-Unfinished none window at h = ground arith
  recheck-Unfinished (some now) none at h = ground arith
  recheck-Unfinished (some now) (some (a, b)) at h = ground arith

  abbrev Passed : Action → Type 0
  Passed a = (a ≡ Action.verify) × AllSatisfied p.acceptance (results_or_nil e.results)

  verify-Passed : (a : Action) → (evaluate_verify clock a p s e).state ≡ State.complete → Passed a
  verify-Passed Action.verify h =
      elim (Bool-cases (acceptance_satisfied p.acceptance (results_or_nil e.results))) [
        | inl met ↦ (refl, acceptance_satisfied_sound p.acceptance (results_or_nil e.results) met)
        | inr open_still ↦ absurd (
            retry-Unfinished (record s { state = State.active }) acceptance_failed (λ q. cc)
              (rw open_still at h))
      ]
  verify-Passed Action.retryable_failure h =
      absurd (retry-Unfinished (record s { state = State.active }) retry_scheduled (λ q. cc) h)
  verify-Passed Action.wait_external h = absurd (ground arith)
  verify-Passed Action.progress h = absurd (ground arith)
  verify-Passed Action.no_progress h = absurd (ground arith)
  verify-Passed Action.request_verify h = absurd (ground arith)
  verify-Passed Action.recheck h = absurd (ground arith)
  verify-Passed Action.terminal_failure h = absurd (ground arith)
  verify-Passed (Action.unknown n) h = absurd (ground arith)

  abbrev Finishes : State → Action → Type 0
  Finishes st a =
      (st ≡ State.complete)
      ⊎ ((st ≡ State.verify)
          × (a ≡ Action.verify)
          × AllSatisfied p.acceptance (results_or_nil e.results))

  step-Finishes :
      (st : State) (a : Action)
      → s.state ≡ st
      → (step clock st a p s e).state ≡ State.complete
      → Finishes st a
  step-Finishes State.complete a at h = inl refl
  step-Finishes State.blocked a at h = absurd (ground arith)
  step-Finishes (State.unknown n) a at h = elim (live_step-cases clock (State.unknown n) a p s e) [
    | inl stop ↦ absurd (ground (arith, stop))
    | inr (same, _) ↦ absurd (ground (arith, same))
  ]
  step-Finishes State.active a at h = elim (live_step-cases clock State.active a p s e) [
    | inl stop ↦ absurd (ground (arith, stop))
    | inr (same, _) ↦ absurd (active-Unfinished a at (rw same at h))
  ]
  step-Finishes State.verify a at h = elim (live_step-cases clock State.verify a p s e) [
    | inl stop ↦ absurd (ground (arith, stop))
    | inr (same, _) ↦ let (verb, all) = verify-Passed a (rw same at h) in inr (refl, verb, all)
  ]
  step-Finishes State.wait_external a at h =
      elim (live_step-cases clock State.wait_external a p s e) [
        | inl stop ↦ absurd (ground (arith, stop))
        | inr (same, _) ↦ elim (evaluate_wait-cases clock a s e) [
          | inl bad ↦ absurd (ground (arith, same, bad))
          | inr due ↦ absurd (
              recheck-Unfinished (clock.parse e.now) (parse_wait clock s.wait) at
                (rw due at (rw same at h)))
        ]
      ]

  step-Finishes_back :
      (st : State) (a : Action)
      → s.state ≡ st
      → Finishes st a
      → (step clock st a p s e).state ≡ State.complete
  step-Finishes_back st a at (inl ended) = ap (λ q. (step clock q a p s e).state) ended ∙ at ∙ ended
  step-Finishes_back st a at (inr (v, verb, all)) =
      ap (λ q. (step clock q a p s e).state) v
      ∙ ap (λ b. (step clock State.verify b p s e).state) verb
      ∙ rw (acceptance_satisfied_complete p.acceptance (results_or_nil e.results) all) refl

-- The answer is COMPLETE exactly for a valid request whose snapshot is complete already, or whose
-- snapshot is under verification and whose event is the verification with, for every predicate of the
-- policy, a result that was observed and is satisfied.
pub evaluate-complete_iff :
    (clock : Clock) (r : Request)
    → ((evaluate clock r).state ≡ State.complete) ↔ (
        (valid_request clock r ≡ true)
        × ((r.snapshot.state ≡ State.complete)
            ⊎ ((r.snapshot.state ≡ State.verify)
                × (r.event.action ≡ Action.verify)
                × AllSatisfied r.policy.acceptance (results_or_nil r.event.results))))
unfolding evaluate
evaluate-complete_iff clock r = elim (Bool-cases (valid_request clock r)) [
  | inr refused ↦
      (λ h. absurd (ground (arith, refused)), λ h. absurd (ground (arith, refused, h.0)))
  | inl accepted ↦ (
    λ h. (
      accepted,
      step-Finishes clock r.policy r.snapshot r.event r.snapshot.state r.event.action refl
          (rw accepted at h),
    ),
    λ h. rw accepted (
        step-Finishes_back clock r.policy r.snapshot r.event r.snapshot.state r.event.action refl
          h.1),
  )
]
