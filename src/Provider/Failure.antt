-- ===== src/Provider/Failure.antt =====
-- internal/provider/failure.go: the closed set of failure categories, the classification of an error,
-- and which failures are worth another turn.
use radioactive_ralph.Prelude.{
  ℕ, String, Bool, true, false, Option, none, some, List, [], ◌∷◌, any, if◌then◌else◌,
}

-- `FailureCategory`; `unset` is the empty category of no failure.
pub data FailureCategory : Type 0 where
  unset process_cleanup output_limit interactive_prompt : FailureCategory
  interactive_prompt_permission interactive_prompt_confirm : FailureCategory
  interactive_prompt_clarification stall_timeout turn_deadline canceled : FailureCategory
  provider_rejected provider_auth provider_throttled provider_unavailable : FailureCategory
  provider_runtime : FailureCategory

abbrev pub category_name : FailureCategory → String
category_name unset = ""
category_name process_cleanup = "process_cleanup"
category_name output_limit = "output_limit"
category_name interactive_prompt = "interactive_prompt"
category_name interactive_prompt_permission = "interactive_prompt_permission"
category_name interactive_prompt_confirm = "interactive_prompt_confirm"
category_name interactive_prompt_clarification = "interactive_prompt_clarification"
category_name stall_timeout = "stall_timeout"
category_name turn_deadline = "turn_deadline"
category_name canceled = "canceled"
category_name provider_rejected = "provider_rejected"
category_name provider_auth = "provider_auth"
category_name provider_throttled = "provider_throttled"
category_name provider_unavailable = "provider_unavailable"
category_name provider_runtime = "provider_runtime"

-- The errors that the classification asks for with `errors.Is`.
pub data Sentinel : Type 0 where
  process_session_cleanup process_termination process_exit_observation : Sentinel
  observed_output_too_large output_line_too_long authoritative_result_too_large : Sentinel
  structured_evidence_too_large provider_output_too_large stream_json_line_too_long : Sentinel
  provider_stalled deadline_exceeded context_canceled : Sentinel
  claude_authentication claude_model_access claude_rate_limit : Sentinel
  claude_service_unavailable claude_result_failed claude_api_failure : Sentinel
  claude_maximum_turns claude_invalid_request claude_missing_result : Sentinel
  codex_turn_failed codex_oversize_schema opencode_reported_error : Sentinel
  opencode_final_reason opencode_missing_finish opencode_invalid_usage : Sentinel

pub data BlockReason : Type 0 where
  prompt stall other_reason : BlockReason

pub data PromptKind : Type 0 where
  permission confirm clarification unknown : PromptKind

pub record BlockedError : Type 0 where
  pub reason : BlockReason
  pub kind : PromptKind

-- An error as its wrapped chain answers: which sentinels `errors.Is` finds in it, and which
-- `BlockedError` `errors.As` does.
pub record Chain : Type 0 where
  pub holds : Sentinel → Bool
  pub blocked : Option BlockedError

pub record Failure : Type 0 where
  pub category : FailureCategory
  pub summary : String
  pub cause : Option Chain

-- `promptBlockFailure`
abbrev pub prompt_block_failure : PromptKind → FailureCategory × String
prompt_block_failure permission = (
  interactive_prompt_permission,
  "provider requested permission to act (usually a write-path or binding grant, not a keystroke)",
)
prompt_block_failure confirm = (
  interactive_prompt_confirm,
  "provider requested confirmation of an action it already intended (usually suppressible with a flag)",
)
prompt_block_failure clarification = (
  interactive_prompt_clarification,
  "provider requested clarification about the task (the step's scoped context was insufficient)",
)
prompt_block_failure unknown = (interactive_prompt, "provider requested interactive input")

abbrev pub is_any : Chain → List Sentinel → Bool
is_any e wanted = any (λ s. e.holds s) wanted

abbrev pub failure : FailureCategory → String → Chain → Failure
failure category summary e = record { category = category; summary = summary; cause = some e }

-- The last `switch`, for an error that no watchdog raised.
abbrev pub classify_plain : Chain → Failure
classify_plain e =
    if is_any e (provider_stalled ∷ [])
    then failure stall_timeout "provider made no progress before its stall timeout" e
    else (if is_any e (deadline_exceeded ∷ [])
        then failure turn_deadline "provider exceeded its total turn deadline" e
        else (if is_any e (context_canceled ∷ [])
            then failure canceled "provider turn was canceled" e
            else (if is_any e (claude_authentication ∷ claude_model_access ∷ [])
                then failure provider_auth "provider authentication or model access was denied" e
                else (if is_any e (claude_rate_limit ∷ [])
                    then failure provider_throttled "provider rate limited the turn" e
                    else (if is_any e (claude_service_unavailable ∷ [])
                        then failure provider_unavailable "provider service was unavailable" e
                        else (if is_any e (
                              claude_result_failed ∷ claude_api_failure ∷ claude_maximum_turns
                              ∷ claude_invalid_request ∷ claude_missing_result ∷ codex_turn_failed
                              ∷ codex_oversize_schema ∷ opencode_reported_error
                              ∷ opencode_final_reason ∷ opencode_missing_finish
                              ∷ opencode_invalid_usage ∷ [])
                            then failure provider_rejected "provider reported an unsuccessful turn"
                                e
                            else failure provider_runtime "provider execution failed" e))))))

abbrev pub classify_blocked : BlockedError → Chain → Failure
classify_blocked b e = elim b.reason [
  | prompt ↦ let named = prompt_block_failure b.kind in failure named.0 named.1 e
  | stall ↦ failure stall_timeout "provider made no progress before its stall timeout" e
  | other_reason ↦ failure stall_timeout "provider made no progress before its stall timeout" e
]

-- `ClassifyFailure`, of no error or of one.
unfoldable pub classify_failure : Option Chain → Failure
classify_failure none = record { category = unset; summary = ""; cause = none }
classify_failure (some e) =
    if is_any e (process_session_cleanup ∷ process_termination ∷ process_exit_observation ∷ [])
    then failure process_cleanup "provider process cleanup failed" e
    else (if is_any e (
          observed_output_too_large ∷ output_line_too_long ∷ authoritative_result_too_large
          ∷ structured_evidence_too_large ∷ provider_output_too_large ∷ stream_json_line_too_long
          ∷ [])
        then failure output_limit "provider output exceeded a safety limit" e
        else elim e.blocked [ some b ↦ classify_blocked b e | none ↦ classify_plain e ])

-- `Retryable`
abbrev pub retryable : FailureCategory → Bool
retryable provider_auth = false
retryable provider_rejected = false
retryable interactive_prompt = false
retryable interactive_prompt_permission = false
retryable interactive_prompt_confirm = false
retryable interactive_prompt_clarification = false
retryable output_limit = false
retryable process_cleanup = false
retryable canceled = false
retryable _ = true

-- `RetryBudget`
unfoldable pub retry_budget : Failure → ℕ → ℕ
retry_budget f configured = if retryable f.category then configured else 0
