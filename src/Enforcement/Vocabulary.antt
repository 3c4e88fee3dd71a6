-- ===== src/Enforcement/Vocabulary.antt =====
-- The vocabulary and the records of internal/enforcement/policy.go.
use radioactive_ralph.Prelude.{ℕ, String, Bool, Option, List}
use radioactive_ralph.Prelude.Int.{ℤ}

-- `State`. A request may carry any string: `unknown` is one outside the vocabulary.
pub data State : Type 0 where
  active wait_external verify complete blocked : State
  unknown : String → State

pub data Action : Type 0 where
  progress no_progress wait_external recheck request_verify verify : Action
  retryable_failure terminal_failure : Action
  unknown : String → Action

pub data PredicateKind : Type 0 where
  command_exit_zero file_exists checks_green review_approved exact_artifact : PredicateKind
  unknown : String → PredicateKind

pub data WaitOwner : Type 0 where
  operator github gitea claude codex opencode ralph coderabbit ai_git_bot external : WaitOwner
  unknown : String → WaitOwner

pub data ReasonCode : Type 0 where
  malformed_input invalid_transition progress_recorded no_progress_recorded : ReasonCode
  no_progress_exhausted retry_scheduled retry_exhausted waiting_external wait_not_due : ReasonCode
  wait_recheck_due wait_deadline_exceeded verification_requested acceptance_passed : ReasonCode
  acceptance_failed terminal_failed terminal_state : ReasonCode

pub record Predicate : Type 0 where
  pub id : String
  pub kind : PredicateKind

pub record Policy : Type 0 where
  pub schema_version : ℤ
  pub policy_id : String
  pub retry_budget : ℤ
  pub no_progress_budget : ℤ
  pub acceptance : List Predicate

pub record WaitWindow : Type 0 where
  pub owner : WaitOwner
  pub recheck_at : String
  pub deadline : String

pub record Snapshot : Type 0 where
  pub state : State
  pub retry_count : ℤ
  pub no_progress_count : ℤ
  pub wait : Option WaitWindow

pub record PredicateResult : Type 0 where
  pub observed : Bool
  pub satisfied : Bool

-- `now` is empty where the field is absent. A nil map of results is `none`.
pub record Event : Type 0 where
  pub action : Action
  pub now : String
  pub wait : Option WaitWindow
  pub results : Option (List (String × PredicateResult))

pub record Request : Type 0 where
  pub policy : Policy
  pub snapshot : Snapshot
  pub event : Event

pub record Decision : Type 0 where
  pub schema_version : ℕ
  pub state : State
  pub retry_count : ℤ
  pub no_progress_count : ℤ
  pub wait : Option WaitWindow
  pub reason : ReasonCode

-- `time.Parse(time.RFC3339, s)` and `t.UTC().Format(time.RFC3339Nano)`. An instant counts
-- nanoseconds from an origin before every instant that can be written.
pub record Clock : Type 0 where
  pub parse : String → Option ℕ
  pub format : ℕ → String
