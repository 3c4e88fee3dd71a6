-- ===== src/Enforcement/Closed.antt =====
-- What `Evaluate` of internal/enforcement/policy.go answers is a snapshot that it accepts again.
use radioactive_ralph.Prelude.{
  ℕ, ◌≡◌, refl, subst, Bool, true, false, not, Bool-cases, Option, none, some, Option-cases, inl,
  inr, arith,
}
use radioactive_ralph.Prelude.Int.{ℤ, pos, negsuc, ltb_ℤ, succ_ℤ}
use radioactive_ralph.Enforcement.Vocabulary.{
  State, ReasonCode, Policy, WaitWindow, Snapshot, Decision, Clock, retry_exhausted,
}
use radioactive_ralph.Enforcement.Validation.{
  max_budget, valid_wait, parse_window, parse_wait, valid_state, valid_wait_in, valid_policy,
  valid_snapshot,
}
use radioactive_ralph.Enforcement.Evaluation.{
  blocked_malformed, normalized_wait, decision_from_snapshot, blocked_from, retry_or_block,
}

-- The snapshot that an adapter persists after a decision.
abbrev pub persisted : Decision → Snapshot
persisted d = record {
  state = d.state;
  retry_count = d.retry_count;
  no_progress_count = d.no_progress_count;
  wait = d.wait;
}

-- The parts of a valid snapshot that a transition reads.
pub record Live (p : Policy) (s : Snapshot) : Type 0 where
  pub retries : not (ltb_ℤ s.retry_count (pos 0)) ≡ true
  pub idle : not (ltb_ℤ s.no_progress_count (pos 0)) ≡ true
  pub few : not (ltb_ℤ p.retry_budget s.retry_count) ≡ true
  pub calm : not (ltb_ℤ p.no_progress_budget s.no_progress_count) ≡ true
  pub small : not (ltb_ℤ (pos max_budget) p.retry_budget) ≡ true
  pub low : not (ltb_ℤ (pos max_budget) p.no_progress_budget) ≡ true

abbrev pub is_live : State → Bool
is_live State.active = true
is_live State.wait_external = true
is_live State.verify = true
is_live State.complete = true
is_live _ = false

-- One more of a count that a budget bounds.
pub succ_bounds :
    (b z : ℤ)
    → not (ltb_ℤ z (pos 0)) ≡ true
    → not (ltb_ℤ b z) ≡ true
    → not (ltb_ℤ (pos max_budget) b) ≡ true
    → (not (ltb_ℤ (succ_ℤ z) (pos 0)) ≡ true)
      × (not (ltb_ℤ (pos 1001) (succ_ℤ z)) ≡ true)
      × (not (ltb_ℤ (pos 1001) z) ≡ true)
succ_bounds (pos b) (pos n) h k l = ground arith
succ_bounds (negsuc b) (pos n) h k l = ground arith
succ_bounds b (negsuc n) h k l = absurd (ground arith)

pub natural : (z : ℤ) → not (ltb_ℤ z (pos 0)) ≡ true → (n : ℕ) × (z ≡ pos n)
natural (pos n) h = (n, refl)
natural (negsuc n) h = absurd (ground arith)

module _ (clock : Clock) where
  -- The two times of a wait can be read back after they are printed.
  abbrev pub PrintsWindow : Option (ℕ × ℕ) → Type 0
  PrintsWindow none = Unit
  PrintsWindow (some (recheck, deadline)) =
      (clock.parse (clock.format recheck) ≡ some recheck)
      × (clock.parse (clock.format deadline) ≡ some deadline)

  abbrev pub Prints : Option WaitWindow → Type 0
  Prints wait = PrintsWindow (parse_wait clock wait)

  normalized-valid_wait :
      (w : WaitWindow)
      → Prints (some w)
      → valid_wait clock (some w) ≡ true
      → valid_wait clock (normalized_wait clock (some w)) ≡ true
  normalized-valid_wait w prints ok = elim (Option-cases (parse_window clock w)) [
    | inl bad ↦ absurd (ground (arith, bad))
    | inr ((a, b), good) ↦
        let (pa, pb) = subst PrintsWindow good prints in ground (arith, good, pa, pb)
  ]

  pub blocked_from-valid :
      (p : Policy) (s : Snapshot) (reason : ReasonCode)
      → not (ltb_ℤ s.retry_count (pos 0)) ≡ true
      → not (ltb_ℤ s.no_progress_count (pos 0)) ≡ true
      → not (ltb_ℤ (pos 1001) s.retry_count) ≡ true
      → not (ltb_ℤ (pos 1001) s.no_progress_count) ≡ true
      → valid_snapshot clock p (persisted (blocked_from clock s reason)) ≡ true
  unfolding valid_snapshot
  blocked_from-valid p s reason a b c d = ground arith

  pub malformed-valid : (p : Policy) → valid_snapshot clock p (persisted blocked_malformed) ≡ true
  unfolding valid_snapshot
  malformed-valid p = refl

  pub kept_wait :
      (st : State) (wait : Option WaitWindow)
      → Prints wait
      → valid_wait_in clock st wait ≡ true
      → valid_wait_in clock st (normalized_wait clock wait) ≡ true
  kept_wait State.wait_external none prints h = h
  kept_wait State.wait_external (some w) prints h = normalized-valid_wait w prints h
  kept_wait State.active none prints h = h
  kept_wait State.verify none prints h = h
  kept_wait State.complete none prints h = h
  kept_wait State.blocked none prints h = h
  kept_wait (State.unknown n) none prints h = h
  kept_wait State.active (some w) prints h = absurd (ground arith)
  kept_wait State.verify (some w) prints h = absurd (ground arith)
  kept_wait State.complete (some w) prints h = absurd (ground arith)
  kept_wait State.blocked (some w) prints h = absurd (ground arith)
  kept_wait (State.unknown n) (some w) prints h = absurd (ground arith)

  pub decision-valid :
      (p : Policy) (s : Snapshot) (reason : ReasonCode)
      → Prints s.wait
      → valid_snapshot clock p s ≡ true
      → valid_snapshot clock p (persisted (decision_from_snapshot clock s reason)) ≡ true
  unfolding valid_snapshot
  decision-valid p s reason prints h =
      let kept = kept_wait s.state s.wait prints (ground arith) in ground arith

  pub valid_snapshot-parts :
      (p : Policy) (s : Snapshot)
      → valid_snapshot clock p s ≡ true
      → (valid_state s.state ≡ true) × (valid_wait_in clock s.state s.wait ≡ true)
  unfolding valid_snapshot
  valid_snapshot-parts p s h = (ground arith, ground arith)

  pub Live-intro :
      (p : Policy) (s : Snapshot)
      → valid_policy p ≡ true
      → valid_snapshot clock p s ≡ true
      → is_live s.state ≡ true
      → Live p s
  unfolding valid_policy valid_snapshot
  Live-intro p s hp hs live = ground arith

  pub Live-valid :
      (p : Policy) (s : Snapshot)
      → Live p s
      → is_live s.state ≡ true
      → valid_wait_in clock s.state s.wait ≡ true
      → valid_snapshot clock p s ≡ true
  unfolding valid_snapshot
  Live-valid p s l live w = ground arith

  pub retry-valid :
      (p : Policy) (s : Snapshot) (reason : ReasonCode)
      → Live p s
      → Prints s.wait
      → is_live s.state ≡ true
      → valid_wait_in clock s.state s.wait ≡ true
      → valid_snapshot clock p (persisted (retry_or_block clock p s reason)) ≡ true
  retry-valid p s reason l prints live w =
      let s' = record s { retry_count = succ_ℤ s.retry_count } in
      let (a, b, _) = succ_bounds p.retry_budget s.retry_count l.retries l.few l.small in
      let (_, _, c) = succ_bounds p.no_progress_budget s.no_progress_count l.idle l.calm l.low in
      elim (Bool-cases (ltb_ℤ p.retry_budget s'.retry_count)) [
        | inl spent ↦ rw spent (blocked_from-valid p s' retry_exhausted a l.idle b c)
        | inr left ↦ rw left (
            decision-valid p s' reason prints (
              Live-valid p s'
                (record {
                  retries = a;
                  idle = l.idle;
                  few = ground arith;
                  calm = l.calm;
                  small = l.small;
                  low = l.low;
                })
                live w))
      ]
