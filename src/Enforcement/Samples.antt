-- ===== src/Enforcement/Samples.antt =====
-- A policy of internal/enforcement with one predicate and budgets of one, and requests under it.
use radioactive_ralph.Prelude.{
  ◌≡◌, refl, ◌↔◌, ◌⊎◌, true, none, some, [], ◌∷◌, arith, if◌then◌else◌, text_eq, itoa,
}
use radioactive_ralph.Prelude.Int.{pos}
use radioactive_ralph.Enforcement.Vocabulary.{
  State, Action, github, command_exit_zero, Policy, WaitWindow, Snapshot, Event, Request, Clock,
  wait_not_due,
}
use radioactive_ralph.Enforcement.Validation.{
  valid_policy, valid_snapshot, valid_event, valid_request,
}
use radioactive_ralph.Enforcement.Evaluation.{evaluate, results_or_nil}
use radioactive_ralph.Enforcement.Closed.{persisted}
use radioactive_ralph.Enforcement.Accepted.{evaluate-accepted}
use radioactive_ralph.Enforcement.Completion.{AllSatisfied, evaluate-complete_iff}
use radioactive_ralph.Enforcement.Budgets.{after_events, setbacks-end}

-- Three instants, as decimal numbers.
abbrev clock : Clock
clock = record {
  parse = λ s.
      if text_eq s "5"
      then some 5
      else (if text_eq s "10" then some 10 else (if text_eq s "20" then some 20 else none));
  format = itoa;
}

abbrev policy : Policy
policy = record {
  schema_version = pos 1;
  policy_id = "default";
  retry_budget = pos 1;
  no_progress_budget = pos 1;
  acceptance = record { id = "tests"; kind = command_exit_zero } ∷ [];
}

abbrev window : WaitWindow
window = record { owner = github; recheck_at = "10"; deadline = "20" }

abbrev start : Snapshot
start = record { state = State.active; retry_count = pos 0; no_progress_count = pos 0; wait = none }

abbrev checking : Snapshot
checking = record start { state = State.verify }

abbrev bare : Action → Event
bare a = record { action = a; now = ""; wait = none; results = none }

abbrev pause : Request
pause = record {
  policy = policy;
  snapshot = start;
  event = record { action = Action.wait_external; now = "5"; wait = some window; results = none };
}

abbrev look : Event
look = record { action = Action.recheck; now = "5"; wait = none; results = none }

abbrev pass : Request
pass = record {
  policy = policy;
  snapshot = checking;
  event = record {
    action = Action.verify;
    now = "";
    wait = none;
    results = some (("tests", record { observed = true; satisfied = true }) ∷ []);
  };
}

rules : Unit {0}
unfolding valid_policy valid_snapshot valid_event valid_request evaluate after_events itoa
rules = tt

policy_valid : valid_policy policy ≡ true
unfolding rules
policy_valid = refl

-- Before the time of the recheck the wait stands.
waits :
    (evaluate clock (record {
      policy = policy;
      snapshot = persisted (evaluate clock pause);
      event = look;
    })).reason
    ≡ wait_not_due
unfolding rules
waits = refl

look_valid : valid_event clock policy look ≡ true
unfolding rules
look_valid = refl

readable : (clock.parse (itoa 10) ≡ some 10) × (clock.parse (itoa 20) ≡ some 20)
unfolding rules
readable = (refl, refl)

evaluate-accepted_example :
    valid_request clock
      (record { policy = policy; snapshot = persisted (evaluate clock pause); event = look })
    ≡ true
evaluate-accepted_example = evaluate-accepted clock pause look policy_valid tt readable look_valid

evaluate-complete_iff_example : ((evaluate clock pass).state ≡ State.complete) ↔ (
    (valid_request clock pass ≡ true)
    × ((checking.state ≡ State.complete)
        ⊎ ((checking.state ≡ State.verify)
            × (pass.event.action ≡ Action.verify)
            × AllSatisfied policy.acceptance (results_or_nil pass.event.results))))
evaluate-complete_iff_example = evaluate-complete_iff clock pass

passes : (evaluate clock pass).state ≡ State.complete
unfolding rules
passes = refl

start_valid : valid_snapshot clock policy start ≡ true
unfolding rules
start_valid = refl

setbacks-end_example :
    (after_events clock policy start (
      bare Action.no_progress ∷ bare Action.retryable_failure ∷ bare Action.no_progress ∷ [])).state
    ≡ State.blocked
setbacks-end_example =
    setbacks-end clock policy start
      (bare Action.no_progress ∷ bare Action.retryable_failure ∷ bare Action.no_progress ∷ [])
      policy_valid start_valid refl refl (omega arith)
