-- ===== src/Store/Blocks/RoundTrip.antt =====
-- A block and the lifting of a block: `ClearTaskBlock` after `MarkBlockedInput` or
-- `MarkBlockedCapability` of internal/store/task_metadata.go.
use radioactive_ralph.Prelude.{
  ◌≡◌, refl, subst, String, Bool, true, false, not, ◌&&◌, Bool-cases, List, [], ◌∷◌, any, inl, inr,
  arith,
}
use radioactive_ralph.Store.Schema.{
  Task, TaskStatus, pending, blocked_capability, blocked_input, is_pre_dispatch, Db, ok, status_eq,
  update_where,
}
use radioactive_ralph.Store.Blocks.{
  is_blockable, is_blocked_as, with_status, set_reason, mark_metadata_blocked, clear_task_block,
}
use radioactive_ralph.Store.Blocks.Marks.{mark_metadata_blocked-ok}
use radioactive_ralph.Store.Lifecycle.{is_service_block}

service_block-pre_dispatch :
    (s u : TaskStatus) → is_service_block u ≡ true → status_eq s u ≡ true → is_pre_dispatch s ≡ true
service_block-pre_dispatch s u h e = ground arith

status_eq_refl : (s : TaskStatus) → status_eq s s ≡ true
status_eq_refl s = ground arith

-- After the update every task of the key that is blocked at all is blocked as `status`.
blocked-as :
    (plan id : String) (status : TaskStatus) (ts : List Task)
    → any (is_blockable plan id) ts ≡ true
    → any
        (is_blocked_as plan id status)
        (update_where (is_blockable plan id) (with_status status) ts)
      ≡ true
blocked-as plan id status [] h = h
blocked-as plan id status (t ∷ ts) h = elim (Bool-cases (is_blockable plan id t)) [
  | inl hit ↦ ground (arith, hit, status_eq_refl status)
  | inr miss ↦ ground (arith, miss, blocked-as plan id status ts)
]

blocked-not_as :
    (plan id : String) (status other : TaskStatus) (ts : List Task)
    → is_service_block other ≡ true
    → status_eq status other ≡ false
    → any
        (is_blocked_as plan id other)
        (update_where (is_blockable plan id) (with_status status) ts)
      ≡ false
blocked-not_as plan id status other [] block apart = refl
blocked-not_as plan id status other (t ∷ ts) block apart =
    elim (Bool-cases (is_blockable plan id t)) [
      | inl hit ↦ ground (arith, hit, apart, blocked-not_as plan id status other ts block apart)
      | inr miss ↦ ground (
        arith,
        miss,
        service_block-pre_dispatch t.status other block,
        blocked-not_as plan id status other ts block apart,
      )
    ]

service_block-clearable :
    (s : TaskStatus)
    → is_service_block s ≡ true
    → (not (status_eq s blocked_capability) && not (status_eq s blocked_input)) ≡ false
service_block-clearable s h = ground arith

-- After a task was blocked with one of the two service blocks, a clearing of the other kind changes
-- nothing, and one of the same kind reports a change and queues the task again.
pub clear_task_block-kind :
    (plan id : String) (status other : TaskStatus) (reason : String) (changed : Bool)
    (db after : Db)
    → is_service_block status ≡ true
    → is_service_block other ≡ true
    → status_eq status other ≡ false
    → mark_metadata_blocked plan id status reason db ≡ ok (changed, after)
    → (clear_task_block plan id other after ≡ ok (false, after))
      × (clear_task_block plan id status after
          ≡ ok (
            true,
            set_reason plan id "" (record after {
              tasks = update_where (is_blocked_as plan id status) (with_status pending) after.tasks;
            }),
          ))
unfolding clear_task_block
clear_task_block-kind plan id status other reason changed db after mine theirs apart e =
    let (early, same, _, _) = mark_metadata_blocked-ok plan id status reason changed db after e in
    let hit =
      subst (λ ts. any (is_blocked_as plan id status) ts ≡ true) {y = after.tasks} same
        (blocked-as plan id status db.tasks early) in
    let miss =
      subst (λ ts. any (is_blocked_as plan id other) ts ≡ false) {y = after.tasks} same
        (blocked-not_as plan id status other db.tasks theirs apart) in
    (
      ground (arith, service_block-clearable other theirs, miss),
      ground (arith, service_block-clearable status mine, hit),
    )
