-- ===== src/Store/Blocks.antt =====
-- internal/store/task_metadata.go: the fail-closed blocks before dispatch.
pub mod Marks
pub mod RoundTrip
use radioactive_ralph.Prelude.{
  String, Bool, true, false, not, ◌&&◌, none, some, any, find?, if◌then◌else◌, text_eq,
}
use radioactive_ralph.Store.Schema.{
  TaskStatus, pending, blocked_capability, blocked_input, is_pre_dispatch, status_eq, Task,
  TaskMetadataRow, empty_payload, payload, Db, not_running, metadata_missing, not_clearable, Result,
  ok, err, is_task, update_where, log,
}

abbrev pub is_row : String → String → TaskMetadataRow → Bool
is_row plan id m = text_eq m.plan_id plan && text_eq m.task_id id

abbrev pub set_reason : String → String → String → Db → Db
set_reason plan id reason db = record db {
  metadata =
      update_where (is_row plan id) (λ m. record m { blocked_reason = some reason }) db.metadata;
}

abbrev pub is_blockable : String → String → Task → Bool
is_blockable plan id t = is_task plan id t && is_pre_dispatch t.status

-- The event kind is "task." and the status.
abbrev pub block_kind : TaskStatus → String
block_kind blocked_capability = "task.blocked_capability"
block_kind _ = "task.blocked_input"

abbrev pub with_status : TaskStatus → Task → Task
with_status status t = record t { status = status }

abbrev pub blocked_db : String → String → TaskStatus → String → Db → Db
blocked_db plan id status reason db =
    set_reason plan id reason
      (record db { tasks = update_where (is_blockable plan id) (with_status status) db.tasks })

-- `markMetadataBlocked`: the result tells whether this call was the transition.
unfoldable pub mark_metadata_blocked :
    String → String → TaskStatus → String → Db → Result (Bool × Db)
mark_metadata_blocked plan id status reason db = elim (find? (is_task plan id) db.tasks) [
  | none ↦ err not_running
  | some prior ↦
      if any (is_blockable plan id) db.tasks
      then (if any (is_row plan id) db.metadata
          then (if status_eq prior.status status
              then ok (false, blocked_db plan id status reason db)
              else ok (
                true,
                log
                    (record {
                      plan_id = plan;
                      task_id = id;
                      kind = block_kind status;
                      actor = none;
                      stream = "service";
                      content = payload (record empty_payload { reason = reason });
                    })
                    (blocked_db plan id status reason db),
              ))
          else err metadata_missing)
      else err not_running
]

unfoldable pub mark_blocked_capability : String → String → String → Db → Result (Bool × Db)
unfolding mark_metadata_blocked
mark_blocked_capability plan id reason db =
    mark_metadata_blocked plan id blocked_capability reason db

unfoldable pub mark_blocked_input : String → String → String → Db → Result (Bool × Db)
unfolding mark_metadata_blocked
mark_blocked_input plan id reason db = mark_metadata_blocked plan id blocked_input reason db

abbrev pub is_blocked_as : String → String → TaskStatus → Task → Bool
is_blocked_as plan id status t = is_task plan id t && status_eq t.status status

-- `ClearTaskBlock`: whether a row changed.
unfoldable pub clear_task_block : String → String → TaskStatus → Db → Result (Bool × Db)
clear_task_block plan id status db =
    if not (status_eq status blocked_capability) && not (status_eq status blocked_input)
    then err not_clearable
    else (if any (is_blocked_as plan id status) db.tasks
        then ok (
          true,
          set_reason plan id "" (record db {
            tasks = update_where (is_blocked_as plan id status) (with_status pending) db.tasks;
          }),
        )
        else ok (false, db))
