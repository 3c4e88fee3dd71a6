-- ===== src/Enforcement/Evaluation.antt =====
-- `Evaluate` of internal/enforcement/policy.go: exactly one transition.
use radioactive_ralph.Prelude.{
  ℕ, ◌≡◌, ◌≢◌, refl, ◌⊎◌, inl, inr, String, Bool, true, false, ◌&&◌, Option, none, some, List, [],
  ◌∷◌, find?, ltb, text_eq, if◌then◌else◌,
}
use radioactive_ralph.Prelude.Int.{pos, ltb_ℤ, succ_ℤ}
use radioactive_ralph.Enforcement.Vocabulary.{
  State, Action, ReasonCode, malformed_input, invalid_transition, progress_recorded,
  no_progress_recorded, no_progress_exhausted, retry_scheduled, retry_exhausted, waiting_external,
  wait_not_due, wait_recheck_due, wait_deadline_exceeded, verification_requested, acceptance_passed,
  acceptance_failed, terminal_failed, terminal_state, Predicate, Policy, WaitWindow, Snapshot,
  PredicateResult, Event, Request, Decision, Clock,
}
use radioactive_ralph.Enforcement.Validation.{parse_window, parse_wait, valid_request}

abbrev pub blocked_malformed : Decision
blocked_malformed = record {
  schema_version = 1;
  state = State.blocked;
  retry_count = pos 0;
  no_progress_count = pos 0;
  wait = none;
  reason = malformed_input;
}

abbrev pub result_of : Option (String × PredicateResult) → Bool
result_of none = false
result_of (some (id, r)) = r.observed && r.satisfied

-- `results[predicate.ID]`, observed and satisfied.
abbrev pub is_satisfied_in : List (String × PredicateResult) → Predicate → Bool
is_satisfied_in results p = result_of (find? (λ r. text_eq r.0 p.id) results)

abbrev pub results_or_nil :
    Option (List (String × PredicateResult)) → List (String × PredicateResult)
results_or_nil none = []
results_or_nil (some results) = results

unfoldable pub acceptance_satisfied : List Predicate → List (String × PredicateResult) → Bool
acceptance_satisfied [] results = true
acceptance_satisfied (p ∷ ps) results = is_satisfied_in results p && acceptance_satisfied ps results

module _ (clock : Clock) where
  abbrev pub window_of : WaitWindow → Option (ℕ × ℕ) → Option WaitWindow
  window_of w none = none
  window_of w (some (recheck, deadline)) = some (record {
    owner = w.owner;
    recheck_at = clock.format recheck;
    deadline = clock.format deadline;
  })

  abbrev pub normalized_wait : Option WaitWindow → Option WaitWindow
  normalized_wait none = none
  normalized_wait (some w) = window_of w (parse_window clock w)

  abbrev pub decision_from_snapshot : Snapshot → ReasonCode → Decision
  decision_from_snapshot s reason = record {
    schema_version = 1;
    state = s.state;
    retry_count = s.retry_count;
    no_progress_count = s.no_progress_count;
    wait = normalized_wait s.wait;
    reason = reason;
  }

  abbrev pub blocked_from : Snapshot → ReasonCode → Decision
  blocked_from s reason =
      decision_from_snapshot (record s { state = State.blocked; wait = none }) reason

  abbrev pub retry_or_block : Policy → Snapshot → ReasonCode → Decision
  retry_or_block p s reason =
      let s' = record s { retry_count = succ_ℤ s.retry_count } in
      if ltb_ℤ p.retry_budget s'.retry_count
      then blocked_from s' retry_exhausted
      else decision_from_snapshot s' reason

  abbrev pub waiting : Snapshot → Option WaitWindow → Decision
  waiting s wait =
      decision_from_snapshot (record s { state = State.wait_external; wait = normalized_wait wait })
        waiting_external

  abbrev pub evaluate_active : Action → Policy → Snapshot → Event → Decision
  evaluate_active Action.progress p s e =
      decision_from_snapshot (record s { no_progress_count = pos 0 }) progress_recorded
  evaluate_active Action.no_progress p s e =
      let s' = record s { no_progress_count = succ_ℤ s.no_progress_count } in
      if ltb_ℤ p.no_progress_budget s'.no_progress_count
      then blocked_from s' no_progress_exhausted
      else decision_from_snapshot s' no_progress_recorded
  evaluate_active Action.retryable_failure p s e = retry_or_block p s retry_scheduled
  evaluate_active Action.wait_external p s e = waiting s e.wait
  evaluate_active Action.request_verify p s e =
      decision_from_snapshot (record s { state = State.verify }) verification_requested
  evaluate_active _ p s e = blocked_from s invalid_transition

  -- The comparisons of `evaluateWait`, after both parses.
  abbrev pub recheck_at_time : Option ℕ → Option (ℕ × ℕ) → Snapshot → Decision
  recheck_at_time none window s = blocked_malformed
  recheck_at_time (some now) none s = blocked_malformed
  recheck_at_time (some now) (some (recheck, deadline)) s =
      if ltb now deadline
      then (if ltb now recheck
          then decision_from_snapshot s wait_not_due
          else decision_from_snapshot (record s { state = State.active; wait = none })
              wait_recheck_due)
      else blocked_from s wait_deadline_exceeded

  abbrev pub evaluate_wait : Action → Snapshot → Event → Decision
  evaluate_wait Action.recheck s e = recheck_at_time (clock.parse e.now) (parse_wait clock s.wait) s
  evaluate_wait _ s e = blocked_from s invalid_transition

  abbrev pub evaluate_verify : Action → Policy → Snapshot → Event → Decision
  evaluate_verify Action.verify p s e =
      if acceptance_satisfied p.acceptance (results_or_nil e.results)
      then decision_from_snapshot (record s { state = State.complete; wait = none })
          acceptance_passed
      else retry_or_block p (record s { state = State.active }) acceptance_failed
  evaluate_verify Action.wait_external p s e = waiting s e.wait
  evaluate_verify Action.retryable_failure p s e =
      retry_or_block p (record s { state = State.active }) retry_scheduled
  evaluate_verify _ p s e = blocked_from s invalid_transition

  abbrev pub in_state : State → Action → Policy → Snapshot → Event → Decision
  in_state State.active a p s e = evaluate_active a p s e
  in_state State.wait_external a p s e = evaluate_wait a s e
  in_state State.verify a p s e = evaluate_verify a p s e
  in_state _ a p s e = blocked_from s invalid_transition

  -- `Evaluate` after the checks of the request and of the terminal states.
  abbrev pub live_step : State → Action → Policy → Snapshot → Event → Decision
  live_step st Action.terminal_failure p s e = blocked_from s terminal_failed
  live_step st a p s e = in_state st a p s e

  pub live_step-cases :
      (st : State) (a : Action) (p : Policy) (s : Snapshot) (e : Event)
      → (live_step st a p s e ≡ blocked_from s terminal_failed)
        ⊎ ((live_step st a p s e ≡ in_state st a p s e) × (a ≢ Action.terminal_failure))
  live_step-cases st Action.terminal_failure p s e = inl refl
  live_step-cases st Action.progress p s e = inr (refl, λ h. cc)
  live_step-cases st Action.no_progress p s e = inr (refl, λ h. cc)
  live_step-cases st Action.wait_external p s e = inr (refl, λ h. cc)
  live_step-cases st Action.recheck p s e = inr (refl, λ h. cc)
  live_step-cases st Action.request_verify p s e = inr (refl, λ h. cc)
  live_step-cases st Action.verify p s e = inr (refl, λ h. cc)
  live_step-cases st Action.retryable_failure p s e = inr (refl, λ h. cc)
  live_step-cases st (Action.unknown n) p s e = inr (refl, λ h. cc)

  pub evaluate_wait-cases :
      (a : Action) (s : Snapshot) (e : Event)
      → (evaluate_wait a s e ≡ blocked_from s invalid_transition)
        ⊎ (evaluate_wait a s e ≡ recheck_at_time (clock.parse e.now) (parse_wait clock s.wait) s)
  evaluate_wait-cases Action.recheck s e = inr refl
  evaluate_wait-cases Action.progress s e = inl refl
  evaluate_wait-cases Action.no_progress s e = inl refl
  evaluate_wait-cases Action.wait_external s e = inl refl
  evaluate_wait-cases Action.request_verify s e = inl refl
  evaluate_wait-cases Action.verify s e = inl refl
  evaluate_wait-cases Action.retryable_failure s e = inl refl
  evaluate_wait-cases Action.terminal_failure s e = inl refl
  evaluate_wait-cases (Action.unknown n) s e = inl refl

  abbrev pub step : State → Action → Policy → Snapshot → Event → Decision
  step State.complete a p s e = decision_from_snapshot s terminal_state
  step State.blocked a p s e = decision_from_snapshot s terminal_state
  step st a p s e = live_step st a p s e

  unfoldable pub evaluate : Request → Decision
  unfolding acceptance_satisfied
  evaluate r =
      if valid_request clock r
      then step r.snapshot.state r.event.action r.policy r.snapshot r.event
      else blocked_malformed
