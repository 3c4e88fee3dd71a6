-- ===== src/Store/Tasks/Handover.antt =====
-- A claim of internal/store/tasks.go or claim.go, and the reports of sessions that do not hold it.
use radioactive_ralph.Prelude.{
  ℕ, ◌≡◌, sym, ap, ◌∙◌, subst, String, true, false, &&_true, Bool-cases, Memᴰ, mem-map_inv,
  any-intro, any-witness, inl, inr, arith, text_eq, text_eq_sound, text_eq_complete, text_eq_refl,
  column_eq_sound, find?-some, some, ◌&&◌,
}
use radioactive_ralph.Store.Schema.{
  Task, EventPayload, Db, not_owned_running, ok, err, is_task, is_running,
}
use radioactive_ralph.Store.Queries.{is_owned}
use radioactive_ralph.Store.Tasks.{
  claim_task, claim_next_ready, claim_row, claim_db, claimed_by, is_claimable_task, mark_done,
  mark_failed, release_claim, mark_blocked,
}
use radioactive_ralph.Store.Tasks.Reports.{owned}
use radioactive_ralph.Store.Tasks.Owner.{stale_report-refused}
use radioactive_ralph.Store.Exclusive.Claims.{
  claim_row-ok, claim_row-read, claim_task-ok, claim_next_ready-ok,
}
use radioactive_ralph.Store.Tasks.Claims.{
  Keyed, written_row, written_row-key, is_task-key, claim_row-row, claim_task_sound,
}

-- A claim of the task for the session, by name or as the next ready one.
pub data Claimed (plan id session : String) : Db → Db → Type 0 where
  by_name :
      (worker : String) {t : Task} {db after : Db}
      → claim_task plan id session worker db ≡ ok (t, after)
      → Claimed plan id session db after
  as_next :
      (worker : String) {t : Task} {db after : Db}
      → claim_next_ready plan session worker db ≡ ok (t, after)
      → t.id ≡ id
      → Claimed plan id session db after

-- What a claim leaves: one row under the key, which the session holds.
abbrev Held : String → String → String → Db → Type 0
Held plan id session after =
    (t : Task) × Memᴰ t after.tasks
    × (is_owned plan id session t ≡ true)
    × ((x : Task) → Memᴰ x after.tasks → is_task plan id x ≡ true → x ≡ t)

-- Every row that is left under the key of a claimed row is that row, claimed.
claim_row-only :
    (plan id session worker : String) (db after : Db) (t u x : Task)
    → Keyed db
    → Memᴰ u db.tasks
    → is_claimable_task plan id u ≡ true
    → claim_row plan id session worker db ≡ ok (t, after)
    → Memᴰ x after.tasks
    → is_task plan id x ≡ true
    → x ≡ claimed_by session worker u
claim_row-only plan id session worker db after t u x keyed m hit e x_in named =
    let listed =
      subst (λ (d : Db). Memᴰ x d.tasks) (claim_row-ok plan id session worker db after t e) x_in in
    let (y, y_in, written) = mem-map_inv (written_row plan id session worker) db.tasks listed in
    let (p, q) = written_row-key plan id session worker y in
    let (a, b) = is_task-key plan id x u named (&&_true (is_task plan id u) _ hit).0 in
    let same : y ≡ u =
      keyed y u y_in m (sym p ∙ (sym (ap (λ (z : Task). z.plan_id) written) ∙ a))
        (sym q ∙ (sym (ap (λ (z : Task). z.id) written) ∙ b)) in
    written ∙ (ap (written_row plan id session worker) same ∙ ground (arith, hit))

claim_row-Held :
    (plan id session worker : String) (t u : Task) (db after : Db)
    → Keyed db
    → Memᴰ u db.tasks
    → is_claimable_task plan id u ≡ true
    → claim_row plan id session worker db ≡ ok (t, after)
    → Held plan id session after
claim_row-Held plan id session worker t u db after keyed m hit e =
    let (same, there) = claim_row-row plan id session worker db after t u keyed m hit e in
    (
      claimed_by session worker u,
      subst (λ x. Memᴰ x after.tasks) same there,
      ground (arith, hit, text_eq_refl session),
      λ x x_in. claim_row-only plan id session worker db after t u x keyed m hit e x_in,
    )

Claimed-Held :
    (plan id session : String) (db after : Db)
    → Keyed db
    → Claimed plan id session db after
    → Held plan id session after
Claimed-Held plan id session db after keyed (Claimed.by_name worker {t} e) =
    let (u, m, ready, _, _, _) = claim_task_sound plan id session worker t db after keyed e in
    let (_, _, row) = claim_task-ok plan id session worker t db after e in
    claim_row-Held plan id session worker t u db after keyed m
      (&&_true (is_claimable_task plan id u) _ ready).0 row
Claimed-Held plan id session db after keyed (Claimed.as_next worker {t} e same) =
    let (u, m, ready, _, _, row) = claim_next_ready-ok plan session worker t db after e in
    let (_, named) =
      find?-some (is_task plan u.id) (claim_db plan u.id session worker db).tasks
        (claim_row-read plan u.id session worker db after t row) in
    let key : u.id ≡ id = sym (text_eq_sound (&&_true _ _ named).1) ∙ same in
    subst (λ i. Held plan i session after) key
      (claim_row-Held plan u.id session worker t u db after keyed m
        (ground (arith, ready, text_eq_refl u.id)) row)

-- After a session claims a task, by name or as the next ready one, it holds the task, and every report
-- of another session on that task is refused, whichever report it is, where task keys are unique: so a
-- worker that lost its task to a later claim cannot end, fail, release or stop it.
pub late_report-refused :
    (plan id session other evidence reason : String) (p : EventPayload) (max_retries : ℕ)
    (db after : Db)
    → Keyed db
    → Claimed plan id session db after
    → text_eq session other ≡ false
    → (owned plan id session after ≡ true)
      × (mark_done plan id other evidence after ≡ err not_owned_running)
      × (mark_failed plan id other p max_retries after ≡ err not_owned_running)
      × (release_claim plan id other reason after ≡ err not_owned_running)
      × (mark_blocked plan id other p after ≡ err not_owned_running)
late_report-refused plan id session other evidence reason p max_retries db after keyed claim
      differ =
    let (t, t_in, mine, only) = Claimed-Held plan id session db after keyed claim in
    let held : t.claimed_by_session ≡ some session =
      column_eq_sound (&&_true (is_task plan id t && is_running t.status) _ mine).1 in
    let refused : owned plan id other after ≡ false =
      elim (Bool-cases (owned plan id other after)) [
        | inr stale ↦ stale
        | inl fresh ↦
            let (x, x_in, theirs) = any-witness (is_owned plan id other) after.tasks fresh in
            let (key, held') = &&_true (is_task plan id x && is_running x.status) _ theirs in
            let same = only x x_in (&&_true (is_task plan id x) _ key).0 in
            let both : some other ≡ some session =
              sym (column_eq_sound held') ∙ (ap (λ (y : Task). y.claimed_by_session) same ∙ held) in
            absurd (
              ground (
                arith,
                differ,
                text_eq_complete {s = session} {t = other} (sym (ground (arith, both))),
              ))
      ] in
    let (a, b, c, d) =
      stale_report-refused plan id other evidence reason p max_retries after refused in
    (any-intro (is_owned plan id session) t_in mine, a, b, c, d)
