-- ===== src/Store/Schema.antt =====
-- internal/store/schema: the tables that the task lifecycle reads and writes, with the row types of
-- internal/store/tasks.go, plans.go, workers.go and output_reservation.go.
use radioactive_ralph.Prelude.{
  ℕ, String, Bool, true, false, ◌&&◌, Option, List, [], ◌∷◌, map, if◌then◌else◌, ◌==◌, text_eq,
}

pub data TaskStatus : Type 0 where
  pending ready ready_pending_approval blocked running done failed skipped decomposed : TaskStatus
  blocked_capability blocked_input : TaskStatus

abbrev pub status_code : TaskStatus → ℕ
status_code pending = 0
status_code ready = 1
status_code ready_pending_approval = 2
status_code blocked = 3
status_code running = 4
status_code done = 5
status_code failed = 6
status_code skipped = 7
status_code decomposed = 8
status_code blocked_capability = 9
status_code blocked_input = 10

abbrev pub status_eq : TaskStatus → TaskStatus → Bool
status_eq a b = status_code a == status_code b

abbrev pub is_running : TaskStatus → Bool
is_running running = true
is_running _ = false

-- `status IN ('pending', 'ready')`
abbrev pub is_claimable : TaskStatus → Bool
is_claimable pending = true
is_claimable ready = true
is_claimable _ = false

-- `status IN ('done', 'skipped', 'decomposed')`
abbrev pub is_satisfied : TaskStatus → Bool
is_satisfied done = true
is_satisfied skipped = true
is_satisfied decomposed = true
is_satisfied _ = false

-- `status IN ('pending','ready','blocked_capability','blocked_input')`
abbrev pub is_pre_dispatch : TaskStatus → Bool
is_pre_dispatch pending = true
is_pre_dispatch ready = true
is_pre_dispatch blocked_capability = true
is_pre_dispatch blocked_input = true
is_pre_dispatch _ = false

pub data PlanStatus : Type 0 where
  draft active paused plan_done failed_partial archived abandoned : PlanStatus

-- Times are whole seconds, the resolution of the stored timestamps.
pub record Task : Type 0 where
  pub id : String
  pub plan_id : String
  pub description : String
  pub status : TaskStatus
  pub parallel_group : Option ℕ
  pub sequence_ordinal : Option ℕ
  pub acceptance_json : Option String
  pub claimed_by_session : Option String
  pub claimed_by_worker_id : Option String
  pub retry_count : ℕ
  pub reclaim_count : ℕ
  pub parent_task_id : Option String
  pub failure_category : Option String
  pub created_at : ℕ

pub record PlanRow : Type 0 where
  pub id : String
  pub project_id : String
  pub slug : String
  pub title : String
  pub status : PlanStatus
  pub source_markdown : String

pub record Dep : Type 0 where
  pub plan_id : String
  pub task_id : String
  pub depends_on : String

-- An exclusive output. `exclusive` is the only mode that the table admits, so the column is left out.
pub record Reservation : Type 0 where
  pub plan_id : String
  pub task_id : String
  pub path : String

pub record InputReservation : Type 0 where
  pub plan_id : String
  pub task_id : String
  pub path : String
  pub sha256 : String

pub record TaskMetadataRow : Type 0 where
  pub plan_id : String
  pub task_id : String
  pub group_path : String
  pub team_path : String
  pub metadata_json : String
  pub blocked_reason : Option String

pub record Session : Type 0 where
  pub id : String
  pub role : String
  pub last_heartbeat : ℕ

pub data WorkerStatus : Type 0 where
  worker_running idle terminated crashed : WorkerStatus

pub record Worker : Type 0 where
  pub id : String
  pub session_id : String
  pub provider : String
  pub native_fanout : Bool
  pub subprocess_pid : ℕ
  pub subprocess_start_time : String
  pub current_plan_id : Option String
  pub current_task_id : Option String
  pub last_heartbeat : ℕ
  pub status : WorkerStatus

pub record EventPayload : Type 0 where
  pub summary : String
  pub reason : String
  pub evidence : List String
  pub handoff_to : String
  pub retryable : Bool
  pub needs_context : List String
  pub approval_required : Bool
  pub provider : String
  pub provider_session_id : String
  pub failure_category : String
  pub operator_action : String

abbrev pub empty_payload : EventPayload
empty_payload = record {
  summary = "";
  reason = "";
  evidence = [];
  handoff_to = "";
  retryable = false;
  needs_context = [];
  approval_required = false;
  provider = "";
  provider_session_id = "";
  failure_category = "";
  operator_action = "";
}

-- What a payload column encodes: the structured payload, the raw evidence of a worker, or the
-- three fields of a reclaim.
pub data Content : Type 0 where
  payload : EventPayload → Content
  raw : String → Content
  reclaim : (reason : String) (reclaim_count concurrent_claims : ℕ) → Content

pub record Event : Type 0 where
  pub plan_id : String
  pub task_id : String
  pub kind : String
  pub actor : Option String
  pub stream : String
  pub content : Content

pub record Db : Type 0 where
  pub plans : List PlanRow
  pub tasks : List Task
  pub deps : List Dep
  pub metadata : List TaskMetadataRow
  pub inputs : List InputReservation
  pub outputs : List Reservation
  pub sessions : List Session
  pub workers : List Worker
  pub events : List Event

-- The errors that the store tells apart. `constraint` is a foreign key, uniqueness or CHECK
-- constraint that has no sentinel of its own.
pub data Error : Type 0 where
  required duplicate_task self_dep would_cycle constraint no_ready_task : Error
  output_reserved : String → Error
  not_owned_running not_running metadata_missing duplicate_metadata not_clearable : Error
  plan_not_found duplicate_slug task_not_found : Error

pub data Result {ℓ} (A : Type ℓ) : Type ℓ where
  ok : A → Result A
  err : Error → Result A

infixl 5 ◌>>=◌
abbrev pub ◌>>=◌ {ℓ κ} : {A : Type ℓ} {B : Type κ} → Result A → (A → Result B) → Result B
ok a >>= f = f a
err e >>= f = err e

-- `plan_id = ? AND id = ?`
abbrev pub is_task : String → String → Task → Bool
is_task plan id t = text_eq t.plan_id plan && text_eq t.id id

-- `UPDATE … SET change WHERE test`
abbrev pub update_where {ℓ} : {A : Type ℓ} → (A → Bool) → (A → A) → List A → List A
update_where test change xs = map (λ x. if test x then change x else x) xs

-- The newest event stands first.
abbrev pub log : Event → Db → Db
log e db = record db { events = e ∷ db.events }
