-- ===== src/Store/Reaper/Orphans.antt =====
-- `ReclaimStale` of internal/store/reaper.go, and the workers of the tasks that run after it.
use radioactive_ralph.Prelude.{
  ℕ, ◌≡◌, sym, ap, ◌∙◌, Bool, true, false, ◌&&◌, ◌||◌, Bool-cases, Memᴰ, mem-map_inv, any,
  any-witness, any-false, all, all-mem, is_none, some, inl, inr, arith, ltb, text_eq_refl,
  column_eq, column_eq_sound,
}
use radioactive_ralph.Store.Schema.{Task, Worker, Db, is_running}
use radioactive_ralph.Store.Reaper.{stale_cutoff, is_reclaimable, reclaim_stale}
use radioactive_ralph.Store.Reaper.Liveness.{
  WorkersKeyed, is_live, reclaim_stale-tasks, worker_stays, reap_1, reap_2, reap_3, reap_4,
  reap_2-named, reap_3-named,
}

-- The foreign key of the column: a worker that a task names has a row.
abbrev pub is_staffed : Db → Task → Bool
is_staffed db t =
    is_none t.claimed_by_worker_id || any (λ w. column_eq t.claimed_by_worker_id w.id) db.workers

named_worker :
    (db : Db) (t : Task)
    → is_staffed db t ≡ true
    → is_none t.claimed_by_worker_id ≡ false
    → (w : Worker) × Memᴰ w db.workers × (t.claimed_by_worker_id ≡ some w.id)
named_worker db t staffed named =
    let (w, m, q) =
      any-witness (λ w. column_eq t.claimed_by_worker_id w.id) db.workers
        (ground (arith, staffed, named)) in
    (w, m, column_eq_sound {c = t.claimed_by_worker_id} {v = w.id} q)

module _ (now stale_after : ℕ) (db : Db) where
  abbrev reap : Task → Task
  reap u =
      reap_4 now stale_after db
        (reap_3 now stale_after db (reap_2 now stale_after db (reap_1 now stale_after db u)))

  source :
      (t : Task)
      → Memᴰ t (reclaim_stale now stale_after db).1.tasks
      → (u : Task) × Memᴰ u db.tasks × (t ≡ reap u)
  source t m =
      let (t_3, m_3, e_4) =
        mem-map_inv (reap_4 now stale_after db) _
          (rw (reclaim_stale-tasks now stale_after db) at m) in
      let (t_2, m_2, e_3) = mem-map_inv (reap_3 now stale_after db) _ m_3 in
      let (t_1, m_1, e_2) = mem-map_inv (reap_2 now stale_after db) _ m_2 in
      let (u, u_in, e_1) = mem-map_inv (reap_1 now stale_after db) db.tasks m_1 in
      (
        u,
        u_in,
        e_4
            ∙ ap (reap_4 now stale_after db)
                (e_3 ∙ ap (reap_3 now stale_after db) (e_2 ∙ ap (reap_2 now stale_after db) e_1)),
      )

  -- The passes after the first keep the status.
  reap_2-status : (u : Task) → (reap_2 now stale_after db u).status ≡ u.status
  reap_2-status u = ground arith

  reap_3-status : (u : Task) → (reap_3 now stale_after db u).status ≡ u.status
  reap_3-status u = ground arith

  reap_4-status : (u : Task) → (reap_4 now stale_after db u).status ≡ u.status
  reap_4-status u = ground arith

  reap_4-worker :
      (u : Task) → (reap_4 now stale_after db u).claimed_by_worker_id ≡ u.claimed_by_worker_id
  reap_4-worker u = ground arith

  reap-status : (u : Task) → (reap u).status ≡ (reap_1 now stale_after db u).status
  reap-status u =
      let u_1 = reap_1 now stale_after db u in
      let u_2 = reap_2 now stale_after db u_1 in
      reap_4-status (reap_3 now stale_after db u_2) ∙ (reap_3-status u_2 ∙ reap_2-status u_1)

  -- A task that runs in the end was not reclaimed.
  reap_1-running :
      (u : Task)
      → is_running (reap_1 now stale_after db u).status ≡ true
      → (reap_1 now stale_after db u ≡ u)
        × (is_none u.claimed_by_worker_id ≡ false)
        × (any
              (λ w.
                ltb w.last_heartbeat (stale_cutoff now stale_after)
                && column_eq u.claimed_by_worker_id w.id)
              db.workers
            ≡ false)
  reap_1-running u runs = elim (Bool-cases (is_reclaimable (stale_cutoff now stale_after) db u)) [
    | inl taken ↦ absurd (ground (arith, taken))
    | inr spared ↦ (ground (arith, spared), ground (arith, spared), ground (arith, spared))
  ]

-- Every task that runs after a reap names a worker whose row is there and whose heartbeat is no older
-- than the cutoff, if tasks named only workers with rows before.
pub reclaim_stale-no_orphans :
    (now stale_after : ℕ) (t : Task) (db : Db)
    → WorkersKeyed db
    → all (is_staffed db) db.tasks ≡ true
    → Memᴰ t (reclaim_stale now stale_after db).1.tasks
    → is_running t.status ≡ true
    → (w : Worker) × Memᴰ w (reclaim_stale now stale_after db).1.workers
      × (is_live (stale_cutoff now stale_after) w ≡ true)
      × (t.claimed_by_worker_id ≡ some w.id)
reclaim_stale-no_orphans now stale_after t db keyed staffed m runs =
    let (u, u_in, made) = source now stale_after db t m in
    let status =
      ap (λ (x : Task). is_running x.status) made
      ∙ ap is_running (reap-status now stale_after db u) in
    let (same, claimed, fresh) = reap_1-running now stale_after db u (sym status ∙ runs) in
    let (w, w_in, named) = named_worker db u (all-mem (is_staffed db) staffed u_in) claimed in
    let live : is_live (stale_cutoff now stale_after) w ≡ true =
      ground (arith, any-false _ fresh w_in, named, text_eq_refl w.id) in
    let kept_2 =
      ap (reap_2 now stale_after db) same
      ∙ reap_2-named now stale_after db w keyed w_in live u named in
    let kept_3 =
      ap (reap_3 now stale_after db) kept_2
      ∙ reap_3-named now stale_after db w keyed w_in live u named in
    (
      w,
      worker_stays now stale_after db w keyed w_in live,
      live,
      ap (λ (x : Task). x.claimed_by_worker_id) made
          ∙ (reap_4-worker now stale_after db _
              ∙ (ap (λ (x : Task). x.claimed_by_worker_id) kept_3 ∙ named)),
    )
