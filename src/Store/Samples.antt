-- ===== src/Store/Samples.antt =====
-- A small database for the tests of internal/store: one project with two plans, three tasks of which
-- one runs, and a path that a waiting task shares with it.
mod Claims
mod Runs
mod Graphs
mod Failing
mod Waves
mod Blocks
use radioactive_ralph.Prelude.{
  ℕ, ◌≡◌, refl, String, Bool, true, false, none, some, List, [], ◌∷◌, Memᴰ, all, any, not, ◌&&◌,
  distinct_by, distinct_by_unique, text_eq, text_eq_sound, text_eq_complete, sym, &&_true, &&_intro,
  arith,
}
use radioactive_ralph.Store.Schema.{
  Task, TaskStatus, pending, running, active, PlanRow, Dep, Reservation, Session, Worker,
  worker_running, Db, is_task,
}
use radioactive_ralph.Store.Tasks.Claims.{Keyed}
use radioactive_ralph.Store.Reaper.Liveness.{WorkersKeyed}
use radioactive_ralph.Store.Exclusive.{Exclusive, is_exclusive, is_exclusive-Exclusive}

abbrev pub waiting : String → String → Task
waiting plan id = record {
  id = id;
  plan_id = plan;
  description = "do it";
  status = pending;
  parallel_group = none;
  sequence_ordinal = some 0;
  acceptance_json = none;
  claimed_by_session = none;
  claimed_by_worker_id = none;
  retry_count = 0;
  reclaim_count = 0;
  parent_task_id = none;
  failure_category = none;
  created_at = 7;
}

abbrev pub deploying : Task
deploying = record (waiting "q" "deploy") {
  status = running;
  claimed_by_session = some "night";
  claimed_by_worker_id = some "w1";
}

abbrev pub worker_1 : Worker
worker_1 = record {
  id = "w1";
  session_id = "night";
  provider = "claude";
  native_fanout = false;
  subprocess_pid = 41;
  subprocess_start_time = "t";
  current_plan_id = some "q";
  current_task_id = some "deploy";
  last_heartbeat = 100;
  status = worker_running;
}

abbrev plan_row : String → PlanRow
plan_row id = record {
  id = id;
  project_id = "home";
  slug = id;
  title = id;
  status = active;
  source_markdown = "";
}

abbrev reserves : String → String → String → Reservation
reserves plan id path = record { plan_id = plan; task_id = id; path = path }

abbrev pub sample : Db
sample = record {
  plans = plan_row "p" ∷ plan_row "q" ∷ [];
  tasks = waiting "p" "build" ∷ waiting "p" "pack" ∷ deploying ∷ [];
  deps = [];
  metadata = [];
  inputs = [];
  outputs =
      reserves "p" "build" "lib" ∷ reserves "p" "pack" "app" ∷ reserves "q" "deploy" "app" ∷ [];
  sessions = record { id = "night"; role = "service"; last_heartbeat = 100 } ∷ [];
  workers = worker_1 ∷ [];
  events = [];
}

abbrev same_key : Task → Task → Bool
same_key t u = text_eq t.plan_id u.plan_id && text_eq t.id u.id

same_key-sym : (t u : Task) → same_key t u ≡ true → same_key u t ≡ true
same_key-sym t u h =
    let (a, b) = &&_true _ _ h in
    &&_intro (text_eq_complete {s = u.plan_id} {t = t.plan_id} (sym (text_eq_sound a)))
      (text_eq_complete {s = u.id} {t = t.id} (sym (text_eq_sound b)))

distinct_rows : distinct_by same_key sample.tasks ≡ true
distinct_rows = refl

pub sample-Keyed : Keyed sample
sample-Keyed t u m n p q =
    distinct_by_unique same_key sample.tasks same_key-sym distinct_rows m n
      (&&_intro (text_eq_complete p) (text_eq_complete q))

pub sample-WorkersKeyed : WorkersKeyed sample
sample-WorkersKeyed v w m n p =
    distinct_by_unique (λ (x y : Worker). text_eq x.id y.id) sample.workers
      (λ x y h. text_eq_complete (sym (text_eq_sound h))) refl m n (text_eq_complete p)

sample_exclusive : is_exclusive sample ≡ true
sample_exclusive = refl

pub sample-Exclusive : Exclusive sample
sample-Exclusive = is_exclusive-Exclusive sample sample_exclusive
