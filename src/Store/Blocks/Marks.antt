-- ===== src/Store/Blocks/Marks.antt =====
-- What a block before dispatch commits: `markMetadataBlocked` of internal/store/task_metadata.go.
use radioactive_ralph.Prelude.{
  ◌≡◌, String, Bool, true, Bool-cases, any, find?, Option-cases, inl, inr, arith,
}
use radioactive_ralph.Store.Schema.{TaskStatus, Db, ok, status_eq, is_task}
use radioactive_ralph.Store.Blocks.{is_row, is_blockable, blocked_db, mark_metadata_blocked}

-- A block that succeeds found a task before dispatch, and commits its new status.
pub mark_metadata_blocked-ok :
    (plan id : String) (status : TaskStatus) (reason : String) (changed : Bool) (db after : Db)
    → mark_metadata_blocked plan id status reason db ≡ ok (changed, after)
    → (any (is_blockable plan id) db.tasks ≡ true)
      × ((blocked_db plan id status reason db).tasks ≡ after.tasks)
      × (db.plans ≡ after.plans)
      × (db.outputs ≡ after.outputs)
unfolding mark_metadata_blocked
mark_metadata_blocked-ok plan id status reason changed db after e =
    elim (Option-cases (find? (is_task plan id) db.tasks)) [
      | inl missing ↦ absurd (ground (arith, missing))
      | inr (prior, there) ↦ elim (Bool-cases (any (is_blockable plan id) db.tasks)) [
        | inr spent ↦ absurd (ground (arith, there, spent))
        | inl early ↦ elim (Bool-cases (any (is_row plan id) db.metadata)) [
          | inr bare ↦ absurd (ground (arith, there, early, bare))
          | inl row ↦ elim (Bool-cases (status_eq prior.status status)) [
            | inl same ↦ (
              early,
              ground (arith, there, early, row, same),
              ground (arith, there, early, row, same),
              ground (arith, there, early, row, same),
            )
            | inr new ↦ (
              early,
              ground (arith, there, early, row, new),
              ground (arith, there, early, row, new),
              ground (arith, there, early, row, new),
            )
          ]
        ]
      ]
    ]
