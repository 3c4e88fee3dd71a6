-- ===== src/Enforcement/Budgets.antt =====
-- The budgets of internal/enforcement/policy.go over a whole session of an adapter.
use radioactive_ralph.Prelude.{
  ℕ, suc, ◌+◌, ◌<◌, ◌≡◌, refl, sym, ap, subst, ◌∙◌, ◌⊎◌, Bool, true, false, not, &&_true,
  Bool-cases, List, [], ◌∷◌, all, length, inl, inr, arith,
}
use radioactive_ralph.Prelude.Int.{ℤ, pos, negsuc, pos_part, ltb_ℤ, succ_ℤ}
use radioactive_ralph.Enforcement.Vocabulary.{
  State, Action, Policy, Snapshot, Event, Request, Decision, Clock,
}
use radioactive_ralph.Enforcement.Validation.{valid_policy, valid_snapshot, valid_request}
use radioactive_ralph.Enforcement.Evaluation.{evaluate_active, evaluate, live_step-cases, step}
use radioactive_ralph.Enforcement.Closed.{persisted, Live, Live-intro, succ_bounds}

-- A session: each event is evaluated, and the adapter persists the decision.
unfoldable pub after_events : Clock → Policy → Snapshot → List Event → Snapshot
after_events clock p s [] = s
after_events clock p s (e ∷ es) =
    after_events clock p
      (persisted (evaluate clock (record { policy = p; snapshot = s; event = e }))) es

-- The events that report a turn without progress or a failure worth a retry.
abbrev is_setback_action : Action → Bool
is_setback_action Action.no_progress = true
is_setback_action Action.retryable_failure = true
is_setback_action _ = false

abbrev pub is_setback : Event → Bool
is_setback e = is_setback_action e.action

module _ (clock : Clock) (p : Policy) where
  blocked-stays :
      (s : Snapshot) (es : List Event)
      → s.state ≡ State.blocked
      → (after_events clock p s es).state ≡ State.blocked
  unfolding after_events evaluate
  blocked-stays s [] at = at
  blocked-stays s (e ∷ es) at =
      let r : Request = record { policy = p; snapshot = s; event = e } in
      blocked-stays (persisted (evaluate clock r)) es (elim (Bool-cases (valid_request clock r)) [
        | inr refused ↦ rw refused refl
        | inl accepted ↦ rw accepted (ap (λ q. (step clock q e.action p s e).state) at ∙ at)
      ])

  -- The budgets spent so far.
  abbrev spent : Snapshot → ℕ
  spent s = pos_part s.retry_count + pos_part s.no_progress_count

  -- One more setback blocks, or spends one unit of a budget.
  abbrev Costs : Snapshot → Decision → Type 0
  Costs s d =
      (d.state ≡ State.blocked)
      ⊎ ((d.state ≡ State.active) × Live p (persisted d) × (spent (persisted d) ≡ suc (spent s)))

  succ_part : (z : ℤ) → not (ltb_ℤ z (pos 0)) ≡ true → pos_part (succ_ℤ z) ≡ suc (pos_part z)
  succ_part (pos n) h = refl
  succ_part (negsuc n) h = absurd (ground arith)

  setback-Costs :
      (s : Snapshot) (a : Action) (e : Event)
      → Live p s
      → s.state ≡ State.active
      → is_setback_action a ≡ true
      → Costs s (evaluate_active clock a p s e)
  setback-Costs s Action.no_progress e l at h =
      let (a, c, _) = succ_bounds p.no_progress_budget s.no_progress_count l.idle l.calm l.low in
      elim (Bool-cases (ltb_ℤ p.no_progress_budget (succ_ℤ s.no_progress_count))) [
        | inl over ↦ inl (rw over refl)
        | inr left ↦ inr (
          rw left at,
          rw left (record {
            retries = l.retries;
            idle = a;
            few = l.few;
            calm = ground arith;
            small = l.small;
            low = l.low;
          }),
          rw left (omega (arith, succ_part s.no_progress_count l.idle)),
        )
      ]
  setback-Costs s Action.retryable_failure e l at h =
      let (a, c, _) = succ_bounds p.retry_budget s.retry_count l.retries l.few l.small in
      elim (Bool-cases (ltb_ℤ p.retry_budget (succ_ℤ s.retry_count))) [
        | inl over ↦ inl (rw over refl)
        | inr left ↦ inr (
          rw left at,
          rw left (record {
            retries = a;
            idle = l.idle;
            few = ground arith;
            calm = l.calm;
            small = l.small;
            low = l.low;
          }),
          rw left (omega (arith, succ_part s.retry_count l.retries)),
        )
      ]
  setback-Costs s Action.progress e l at h = absurd (ground arith)
  setback-Costs s Action.wait_external e l at h = absurd (ground arith)
  setback-Costs s Action.request_verify e l at h = absurd (ground arith)
  setback-Costs s Action.recheck e l at h = absurd (ground arith)
  setback-Costs s Action.verify e l at h = absurd (ground arith)
  setback-Costs s Action.terminal_failure e l at h = absurd (ground arith)
  setback-Costs s (Action.unknown n) e l at h = absurd (ground arith)

  evaluate-Costs :
      (s : Snapshot) (e : Event)
      → Live p s
      → s.state ≡ State.active
      → is_setback e ≡ true
      → Costs s (evaluate clock (record { policy = p; snapshot = s; event = e }))
  unfolding evaluate
  evaluate-Costs s e l at h =
      elim (Bool-cases (valid_request clock (record { policy = p; snapshot = s; event = e }))) [
        | inr refused ↦ inl (rw refused refl)
        | inl accepted ↦ rw accepted (
            subst (λ q. Costs s (step clock q e.action p s e)) (sym at)
              (elim (live_step-cases clock State.active e.action p s e) [
                | inl stop ↦ inl (rw stop refl)
                | inr (same, _) ↦ rw same (setback-Costs s e.action e l at h)
              ]))
      ]

  within_budgets :
      (s : Snapshot)
      → Live p s
      → pos_part s.retry_count + pos_part s.no_progress_count
        < suc (pos_part p.retry_budget + pos_part p.no_progress_budget)
  within_budgets s l = ground arith

  setbacks-blocked :
      (s : Snapshot) (es : List Event)
      → Live p s
      → s.state ≡ State.active
      → all is_setback es ≡ true
      → pos_part p.retry_budget + pos_part p.no_progress_budget < spent s + length es
      → (after_events clock p s es).state ≡ State.blocked
  unfolding after_events
  setbacks-blocked s [] l at h more = absurd (omega (arith, within_budgets s l))
  setbacks-blocked s (e ∷ es) l at h more =
      elim (evaluate-Costs s e l at (&&_true (is_setback e) _ h).0) [
        | inl stop ↦ blocked-stays _ es stop
        | inr (still, l', cost) ↦
            setbacks-blocked
              (persisted (evaluate clock (record { policy = p; snapshot = s; event = e }))) es l'
              still (&&_true (is_setback e) _ h).1 (omega (arith, cost))
      ]

-- From a valid active snapshot under a valid policy, more setbacks in a row (turns without progress and
-- failures worth a retry, in any order) than the two budgets have left lead to BLOCKED.
pub setbacks-end :
    (clock : Clock) (p : Policy) (s : Snapshot) (es : List Event)
    → valid_policy p ≡ true
    → valid_snapshot clock p s ≡ true
    → s.state ≡ State.active
    → all is_setback es ≡ true
    → pos_part p.retry_budget + pos_part p.no_progress_budget
      < pos_part s.retry_count + pos_part s.no_progress_count + length es
    → (after_events clock p s es).state ≡ State.blocked
setbacks-end clock p s es hp hs at h more =
    setbacks-blocked clock p s es (Live-intro clock p s hp hs (rw at refl)) at h more
