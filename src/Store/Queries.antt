-- ===== src/Store/Queries.antt =====
-- The readiness and admission predicates of internal/store/tasks.go, claim.go and
-- output_reservation.go, which the claims share.
use radioactive_ralph.Prelude.{
  ℕ, String, Bool, true, false, not, ◌&&◌, ◌||◌, Option, none, some, List, any, find?, filterb,
  sort_by, first_by, leb, ltb, ◌==◌, text_eq, column_eq,
}
use radioactive_ralph.Store.Schema.{
  Task, Dep, Reservation, Db, Result, ok, err, task_not_found, is_running, is_claimable,
  is_satisfied, is_task,
}

-- An edge of the task whose target is a task of the plan that is not satisfied.
abbrev pub is_open_dep : Db → Task → Dep → Bool
is_open_dep db t d =
    text_eq d.plan_id t.plan_id
    && text_eq d.task_id t.id
    && any (λ u. is_task d.plan_id d.depends_on u && not (is_satisfied u.status)) db.tasks

abbrev pub has_open_dep : Db → Task → Bool
has_open_dep db t = any (is_open_dep db t) db.deps

abbrev pub is_ready : Db → String → Task → Bool
is_ready db plan t = text_eq t.plan_id plan && is_claimable t.status && not (has_open_dep db t)

-- `Ready`
unfoldable pub ready_tasks : String → Db → List Task
ready_tasks plan db =
    sort_by (λ (a b : Task). leb a.created_at b.created_at) (filterb (is_ready db plan) db.tasks)

-- Both plans belong to one project.
abbrev pub same_project : Db → String → String → Bool
same_project db p q =
    any
      (λ mp.
        text_eq mp.id p
        && any (λ tp. text_eq tp.id q && text_eq tp.project_id mp.project_id) db.plans)
      db.plans

abbrev pub is_held : Db → Reservation → Bool
is_held db r = any (λ t. is_task r.plan_id r.task_id t && is_running t.status) db.tasks

-- `theirs` reserves the path of `mine` for another task of the project, which runs.
abbrev pub conflicts : Db → Reservation → Reservation → Bool
conflicts db mine theirs =
    text_eq theirs.path mine.path
    && not (text_eq theirs.plan_id mine.plan_id && text_eq theirs.task_id mine.task_id)
    && same_project db mine.plan_id theirs.plan_id
    && is_held db theirs

abbrev pub is_conflict : Db → String → String → Reservation → Bool
is_conflict db plan id mine =
    text_eq mine.plan_id plan && text_eq mine.task_id id && any (conflicts db mine) db.outputs

-- `outputReservationConflict`: a path of the task that a running peer has reserved.
unfoldable pub output_reservation_conflict : Db → String → String → Option String
output_reservation_conflict db plan id = elim (find? (is_conflict db plan id) db.outputs) [
  | none ↦ none
  | some r ↦ some r.path
]

-- ORDER BY sequence_ordinal with NULL last, then created_at.
abbrev pub claim_le : Option ℕ → ℕ → Option ℕ → ℕ → Bool
claim_le none c none d = leb c d
claim_le none c (some n) d = false
claim_le (some m) c none d = true
claim_le (some m) c (some n) d = ltb m n || (m == n && leb c d)

abbrev pub claims_first : Task → Task → Bool
claims_first a b = claim_le a.sequence_ordinal a.created_at b.sequence_ordinal b.created_at

-- The SELECT of `ClaimNextReady`. Where the order leaves a tie, the earlier row is taken.
unfoldable pub next_ready : String → Db → Option Task
next_ready plan db =
    first_by claims_first (
      filterb (λ t. is_ready db plan t && not (any (is_conflict db plan t.id) db.outputs)) db.tasks)

-- The WHERE clause that guards every report of a worker.
abbrev pub is_owned : String → String → String → Task → Bool
is_owned plan id session t =
    is_task plan id t && is_running t.status && column_eq t.claimed_by_session session

unfoldable pub get_task : String → String → Db → Result Task
get_task plan id db = elim (find? (is_task plan id) db.tasks) [
  | none ↦ err task_not_found
  | some t ↦ ok t
]
