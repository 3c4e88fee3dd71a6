-- ===== src/Enforcement/Accepted.antt =====
-- Each transition of internal/enforcement/policy.go leads to a snapshot that the next request may
-- carry.
use radioactive_ralph.Prelude.{
  ℕ, ◌≡◌, refl, sym, subst, true, false, not, &&_true, &&_intro, Bool-cases, Option, none, some,
  Option-cases, inl, inr, ltb, arith,
}
use radioactive_ralph.Prelude.Int.{ℤ, pos, ltb_ℤ, succ_ℤ}
use radioactive_ralph.Enforcement.Vocabulary.{
  State, Action, ReasonCode, Policy, WaitWindow, Snapshot, Event, Request, Decision, Clock,
  terminal_state, waiting_external, invalid_transition, progress_recorded, no_progress_recorded,
  no_progress_exhausted, retry_scheduled, verification_requested, acceptance_passed,
  acceptance_failed, wait_not_due, wait_recheck_due, wait_deadline_exceeded, terminal_failed,
}
use radioactive_ralph.Enforcement.Validation.{
  valid_state, valid_wait, parse_window, parse_wait, valid_wait_in, valid_policy, valid_snapshot,
  valid_event, valid_event_for, valid_request,
}
use radioactive_ralph.Enforcement.Evaluation.{
  normalized_wait, decision_from_snapshot, blocked_from, retry_or_block, waiting, evaluate_active,
  recheck_at_time, evaluate_verify, step, evaluate, results_or_nil, acceptance_satisfied,
  live_step-cases, evaluate_wait-cases,
}
use radioactive_ralph.Enforcement.Closed.{
  persisted, PrintsWindow, Prints, Live, Live-intro, Live-valid, is_live, succ_bounds, kept_wait,
  malformed-valid, valid_snapshot-parts, blocked_from-valid, decision-valid, retry-valid,
}

pub valid_request-parts :
    (clock : Clock) (r : Request)
    → valid_request clock r ≡ true
    → (valid_policy r.policy ≡ true)
      × (valid_snapshot clock r.policy r.snapshot ≡ true)
      × (valid_event clock r.policy r.event ≡ true)
unfolding valid_request
valid_request-parts clock r h =
    let (rest, c) = &&_true _ _ h in let (a, b) = &&_true _ _ rest in (a, b, c)

valid_event-parts :
    (clock : Clock) (p : Policy) (e : Event)
    → valid_event clock p e ≡ true
    → valid_event_for clock e.action p.acceptance e.now e.wait e.results ≡ true
unfolding valid_event
valid_event-parts clock p e h = (&&_true _ _ h).1

module _ (clock : Clock) where
  normalized-Prints :
      (wait : Option WaitWindow) → Prints clock wait → Prints clock (normalized_wait clock wait)
  normalized-Prints none prints = prints
  normalized-Prints (some w) prints = elim (Option-cases (parse_window clock w)) [
    | inl bad ↦ rw bad tt
    | inr ((a, b), good) ↦
        let (pa, pb) = subst (PrintsWindow clock) good prints in
        let again : parse_wait clock (normalized_wait clock (some w)) ≡ some (a, b) =
          ground (arith, good, pa, pb) in
        subst (PrintsWindow clock) (sym again) (pa, pb)
  ]

  module _ (p : Policy) (s : Snapshot) (l : Live p s) where
    abbrev Lands : Decision → Type 0
    Lands d = valid_snapshot clock p (persisted d) ≡ true

    blocked-Lands : (reason : ReasonCode) → Lands (blocked_from clock s reason)
    blocked-Lands reason =
        let (_, _, b) = succ_bounds p.retry_budget s.retry_count l.retries l.few l.small in
        let (_, _, c) = succ_bounds p.no_progress_budget s.no_progress_count l.idle l.calm l.low in
        blocked_from-valid clock p s reason l.retries l.idle b c

    -- The same counts in another live state.
    moved-Lands :
        (st : State) (wait : Option WaitWindow) (reason : ReasonCode)
        → Prints clock wait
        → is_live st ≡ true
        → valid_wait_in clock st wait ≡ true
        → Lands (decision_from_snapshot clock (record s { state = st; wait = wait }) reason)
    moved-Lands st wait reason prints live w =
        let s' = record s { state = st; wait = wait } in
        decision-valid clock p s' reason prints (
          Live-valid clock p s'
            (record {
              retries = l.retries;
              idle = l.idle;
              few = l.few;
              calm = l.calm;
              small = l.small;
              low = l.low;
            })
            live w)

    waiting-Lands :
        (wait : Option WaitWindow)
        → Prints clock wait
        → valid_wait clock wait ≡ true
        → Lands (waiting clock s wait)
    waiting-Lands wait prints w =
        moved-Lands State.wait_external (normalized_wait clock wait) waiting_external
          (normalized-Prints wait prints) refl (kept_wait clock State.wait_external wait prints w)

    module _ (live : is_live s.state ≡ true) (w : valid_wait_in clock s.state s.wait ≡ true)
        (prints : Prints clock s.wait) where
      same-Lands : (reason : ReasonCode) → Lands (decision_from_snapshot clock s reason)
      same-Lands reason = moved-Lands s.state s.wait reason prints live w

      progress-Lands :
          Lands (
            decision_from_snapshot clock (record s { no_progress_count = pos 0 }) progress_recorded)
      progress-Lands =
          decision-valid clock p (record s { no_progress_count = pos 0 }) progress_recorded prints
            (Live-valid clock p (record s { no_progress_count = pos 0 })
              (record {
                retries = l.retries;
                idle = refl;
                few = l.few;
                calm = reset p.no_progress_budget s.no_progress_count l.idle l.calm;
                small = l.small;
                low = l.low;
              })
              live w)
        where
          reset :
              (b z : ℤ)
              → not (ltb_ℤ z (pos 0)) ≡ true
              → not (ltb_ℤ b z) ≡ true
              → not (ltb_ℤ b (pos 0)) ≡ true
          reset b z h k = ground arith

      no_progress-Lands : (e : Event) → Lands (evaluate_active clock Action.no_progress p s e)
      no_progress-Lands e =
          let s' = record s { no_progress_count = succ_ℤ s.no_progress_count } in
          let (_, _, b) = succ_bounds p.retry_budget s.retry_count l.retries l.few l.small in
          let (a, c, _) =
            succ_bounds p.no_progress_budget s.no_progress_count l.idle l.calm l.low in
          elim (Bool-cases (ltb_ℤ p.no_progress_budget (succ_ℤ s.no_progress_count))) [
            | inl spent ↦
                rw spent (blocked_from-valid clock p s' no_progress_exhausted l.retries a b c)
            | inr left ↦ rw left (
                decision-valid clock p s' no_progress_recorded prints (
                  Live-valid clock p s'
                    (record {
                      retries = l.retries;
                      idle = a;
                      few = l.few;
                      calm = ground arith;
                      small = l.small;
                      low = l.low;
                    })
                    live w))
          ]

      active-Lands :
          (a : Action) (e : Event)
          → s.state ≡ State.active
          → Prints clock e.wait
          → valid_event_for clock a p.acceptance e.now e.wait e.results ≡ true
          → Lands (evaluate_active clock a p s e)
      active-Lands Action.progress e at _ _ = progress-Lands
      active-Lands Action.no_progress e at _ _ = no_progress-Lands e
      active-Lands Action.retryable_failure e at _ _ =
          retry-valid clock p s retry_scheduled l prints live w
      active-Lands Action.wait_external e at pe h = waiting-Lands e.wait pe (ground arith)
      active-Lands Action.request_verify e at _ _ =
          moved-Lands State.verify s.wait verification_requested prints refl
            (subst (λ st. valid_wait_in clock st s.wait ≡ true) at w)
      active-Lands Action.recheck e at _ _ = blocked-Lands invalid_transition
      active-Lands Action.verify e at _ _ = blocked-Lands invalid_transition
      active-Lands Action.terminal_failure e at _ _ = blocked-Lands invalid_transition
      active-Lands (Action.unknown n) e at _ _ = blocked-Lands invalid_transition

      recheck-Lands :
          (now : Option ℕ) (window : Option (ℕ × ℕ)) → Lands (recheck_at_time clock now window s)
      recheck-Lands none window = malformed-valid clock p
      recheck-Lands (some now) none = malformed-valid clock p
      recheck-Lands (some now) (some (a, b)) = elim (Bool-cases (ltb now b)) [
        | inr late ↦ rw late (blocked-Lands wait_deadline_exceeded)
        | inl early ↦ elim (Bool-cases (ltb now a)) [
          | inl soon ↦ rw (early, soon) (same-Lands wait_not_due)
          | inr due ↦ rw (early, due) (moved-Lands State.active none wait_recheck_due tt refl refl)
        ]
      ]

      again-Lands :
          (reason : ReasonCode)
          → s.state ≡ State.verify
          → Lands (retry_or_block clock p (record s { state = State.active }) reason)
      again-Lands reason at =
          retry-valid clock p (record s { state = State.active }) reason
            (record {
              retries = l.retries;
              idle = l.idle;
              few = l.few;
              calm = l.calm;
              small = l.small;
              low = l.low;
            })
            prints refl (subst (λ st. valid_wait_in clock st s.wait ≡ true) at w)

      verify-Lands :
          (a : Action) (e : Event)
          → s.state ≡ State.verify
          → Prints clock e.wait
          → valid_event_for clock a p.acceptance e.now e.wait e.results ≡ true
          → Lands (evaluate_verify clock a p s e)
      verify-Lands Action.verify e at _ _ =
          elim (Bool-cases (acceptance_satisfied p.acceptance (results_or_nil e.results))) [
            | inl met ↦ rw met (moved-Lands State.complete none acceptance_passed tt refl refl)
            | inr open_still ↦ rw open_still (again-Lands acceptance_failed at)
          ]
      verify-Lands Action.retryable_failure e at _ _ = again-Lands retry_scheduled at
      verify-Lands Action.wait_external e at pe h = waiting-Lands e.wait pe (ground arith)
      verify-Lands Action.progress e at _ _ = blocked-Lands invalid_transition
      verify-Lands Action.no_progress e at _ _ = blocked-Lands invalid_transition
      verify-Lands Action.request_verify e at _ _ = blocked-Lands invalid_transition
      verify-Lands Action.recheck e at _ _ = blocked-Lands invalid_transition
      verify-Lands Action.terminal_failure e at _ _ = blocked-Lands invalid_transition
      verify-Lands (Action.unknown n) e at _ _ = blocked-Lands invalid_transition

      in_state-Lands :
          (st : State) (a : Action) (e : Event)
          → s.state ≡ st
          → is_live st ≡ true
          → Prints clock e.wait
          → valid_event_for clock a p.acceptance e.now e.wait e.results ≡ true
          → Lands (step clock st a p s e)
      in_state-Lands State.complete a e at h pe ok = same-Lands terminal_state
      in_state-Lands State.blocked a e at h pe ok = absurd (ground arith)
      in_state-Lands (State.unknown n) a e at h pe ok = absurd (ground arith)
      in_state-Lands State.active a e at h pe ok =
          elim (live_step-cases clock State.active a p s e) [
            | inl stop ↦ rw stop (blocked-Lands terminal_failed)
            | inr (same, _) ↦ rw same (active-Lands a e at pe ok)
          ]
      in_state-Lands State.verify a e at h pe ok =
          elim (live_step-cases clock State.verify a p s e) [
            | inl stop ↦ rw stop (blocked-Lands terminal_failed)
            | inr (same, _) ↦ rw same (verify-Lands a e at pe ok)
          ]
      in_state-Lands State.wait_external a e at h pe ok =
          elim (live_step-cases clock State.wait_external a p s e) [
            | inl stop ↦ rw stop (blocked-Lands terminal_failed)
            | inr (same, _) ↦ rw same (elim (evaluate_wait-cases clock a s e) [
              | inl bad ↦ rw bad (blocked-Lands invalid_transition)
              | inr due ↦ rw due (recheck-Lands (clock.parse e.now) (parse_wait clock s.wait))
            ])
          ]

  -- A blocked snapshot stays as it is.
  stopped_valid :
      (p : Policy) (s : Snapshot) (a : Action) (e : Event)
      → Prints clock s.wait
      → valid_snapshot clock p s ≡ true
      → (st : State) → s.state ≡ st
      → is_live st ≡ false
      → valid_snapshot clock p (persisted (step clock st a p s e)) ≡ true
  stopped_valid p s a e prints ok State.blocked at h =
      decision-valid clock p s terminal_state prints ok
  stopped_valid p s a e prints ok (State.unknown n) at h =
      absurd
        (ground (arith, subst (λ q. valid_state q ≡ true) at (valid_snapshot-parts clock p s ok).0))
  stopped_valid p s a e prints ok State.active at h = absurd (ground arith)
  stopped_valid p s a e prints ok State.wait_external at h = absurd (ground arith)
  stopped_valid p s a e prints ok State.verify at h = absurd (ground arith)
  stopped_valid p s a e prints ok State.complete at h = absurd (ground arith)

  evaluate_valid :
      (r : Request)
      → valid_policy r.policy ≡ true
      → Prints clock r.snapshot.wait
      → Prints clock r.event.wait
      → valid_snapshot clock r.policy (persisted (evaluate clock r)) ≡ true
  unfolding evaluate
  evaluate_valid r hp ps pe = elim (Bool-cases (valid_request clock r)) [
    | inr refused ↦ rw refused (malformed-valid clock r.policy)
    | inl accepted ↦
        let (_, snap, event) = valid_request-parts clock r accepted in
        rw accepted (elim (Bool-cases (is_live r.snapshot.state)) [
          | inr dead ↦
              stopped_valid r.policy r.snapshot r.event.action r.event ps snap r.snapshot.state refl
                dead
          | inl live ↦
              in_state-Lands r.policy r.snapshot (Live-intro clock r.policy r.snapshot hp snap live)
                live (valid_snapshot-parts clock r.policy r.snapshot snap).1 ps r.snapshot.state
                r.event.action r.event refl live pe (valid_event-parts clock r.policy r.event event)
        ])
  ]

  -- No decision under a valid policy leads to a snapshot that is refused: together with the policy and
  -- any event that is valid by itself it makes a valid request, where the times of the waits in the
  -- request can be read back after they are printed.
  pub evaluate-accepted :
      (r : Request) (e : Event)
      → valid_policy r.policy ≡ true
      → Prints clock r.snapshot.wait
      → Prints clock r.event.wait
      → valid_event clock r.policy e ≡ true
      → valid_request clock
          (record { policy = r.policy; snapshot = persisted (evaluate clock r); event = e })
        ≡ true
  unfolding valid_request
  evaluate-accepted r e hp ps pe ok = &&_intro (&&_intro hp (evaluate_valid r hp ps pe)) ok
