-- ===== src/Store/Samples/Blocks.antt =====
-- A block that waits for input, and the kill of the worker that runs `deploy`, at the sample.
use radioactive_ralph.Prelude.{◌≡◌, refl, true, false, none, [], ◌∷◌, Memᴰ, any, ◌⊎◌}
use radioactive_ralph.Store.Schema.{
  pending, blocked_input, blocked_capability, Db, ok, update_where, empty_payload, payload, log,
}
use radioactive_ralph.Store.Blocks.{
  mark_metadata_blocked, clear_task_block, set_reason, is_blocked_as, with_status, blocked_db,
}
use radioactive_ralph.Store.Blocks.RoundTrip.{clear_task_block-kind}
use radioactive_ralph.Store.Workers.{is_held_by, reclaim_worker, clear_worker_task}
use radioactive_ralph.Store.Workers.Kill.{reclaim_worker-tasks}
use radioactive_ralph.Store.Samples.{sample, deploying}

abbrev described : Db
described = record sample {
  metadata =
      record {
        plan_id = "p";
        task_id = "build";
        group_path = "0";
        team_path = "";
        metadata_json = "{}";
        blocked_reason = none;
      }
      ∷ [];
}

abbrev asking : Db
asking =
    log
      (record {
        plan_id = "p";
        task_id = "build";
        kind = "task.blocked_input";
        actor = none;
        stream = "service";
        content = payload (record empty_payload { reason = "which key" });
      })
      (blocked_db "p" "build" blocked_input "which key" described)

ask : mark_metadata_blocked "p" "build" blocked_input "which key" described ≡ ok (true, asking)
unfolding mark_metadata_blocked
ask = refl

clear_task_block-kind_example :
    (clear_task_block "p" "build" blocked_capability asking ≡ ok (false, asking))
    × (clear_task_block "p" "build" blocked_input asking
        ≡ ok (
          true,
          set_reason "p" "build" "" (record asking {
            tasks =
                update_where
                  (is_blocked_as "p" "build" blocked_input)
                  (with_status pending)
                  asking.tasks;
          }),
        ))
clear_task_block-kind_example =
    clear_task_block-kind "p" "build" blocked_input blocked_capability "which key" true described
      asking refl refl refl ask

killed : (reclaim_worker 120 "w1" sample).0 ≡ true
unfolding reclaim_worker clear_worker_task
killed = refl

reclaim_worker-tasks_example :
    (any (is_held_by "w1") (reclaim_worker 120 "w1" sample).1.tasks ≡ false)
    × ((is_held_by "w1" deploying ≡ true) ⊎ Memᴰ deploying (reclaim_worker 120 "w1" sample).1.tasks)
reclaim_worker-tasks_example =
    reclaim_worker-tasks 120 "w1" deploying sample killed (Memᴰ.tail (Memᴰ.tail (Memᴰ.head refl)))
