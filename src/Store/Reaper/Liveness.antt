-- ===== src/Store/Reaper/Liveness.antt =====
-- `ReclaimStale` of internal/store/reaper.go, as passes over the task table, and live workers.
use radioactive_ralph.Prelude.{
  ℕ, ◌≡◌, refl, sym, ap, ◌∙◌, subst, String, Bool, true, false, not, ◌&&◌, &&_true, &&_intro,
  Bool-cases, List, Memᴰ, map, mem-map, any, any-intro, any-witness, filterb, mem-filterb,
  mem-filterb_intro, Option, some, inl, inr, arith, if◌then◌else◌, ltb, leb, text_eq, text_eq_sound,
  text_eq_complete, column_eq, column_eq_sound,
}
use radioactive_ralph.Store.Schema.{Task, Session, Worker, Db}
use radioactive_ralph.Store.Workers.{
  delete_workers, is_cascaded, unname_workers, unname_sessions, is_session,
}
use radioactive_ralph.Store.Reaper.{
  stale_cutoff, delete_cutoff, is_reclaimable, reclaimed, reclaim_tasks, is_dead_session,
  delete_dead, reclaim_stale,
}

-- The primary key of the worker table.
abbrev pub WorkersKeyed : Db → Type 0
WorkersKeyed db = (v w : Worker) → Memᴰ v db.workers → Memᴰ w db.workers → v.id ≡ w.id → v ≡ w

-- The worker's heartbeat is no older than the cutoff.
abbrev pub is_live : ℕ → Worker → Bool
is_live cutoff w = leb cutoff w.last_heartbeat

live-not_deleted :
    (now stale_after h : ℕ)
    → leb (stale_cutoff now stale_after) h ≡ true
    → ltb h (delete_cutoff now stale_after) ≡ false
live-not_deleted now stale_after h live = ground arith

-- A worker row whose key the column holds is the worker's own.
own_row :
    (db : Db) (v w : Worker) (name : Option String)
    → WorkersKeyed db
    → Memᴰ v db.workers
    → Memᴰ w db.workers
    → name ≡ some w.id
    → column_eq name v.id ≡ true
    → v ≡ w
own_row db v w name keyed v_in m named mine =
    keyed v w v_in m (ground (arith, column_eq_sound {c = name} {v = v.id} mine, named))

-- No row that a test refuses to the worker answers to its key.
none_named :
    (test : Worker → Bool) (db : Db) (w : Worker) (name : Option String) (rows : List Worker)
    → WorkersKeyed db
    → ((v : Worker) → Memᴰ v rows → Memᴰ v db.workers × (test v ≡ true))
    → Memᴰ w db.workers
    → test w ≡ false
    → name ≡ some w.id
    → any (λ v. column_eq name v.id) rows ≡ false
none_named test db w name rows keyed inside m spared named =
    elim (Bool-cases (any (λ v. column_eq name v.id) rows)) [
      | inr e ↦ e
      | inl e ↦
          let (v, v_in, mine) = any-witness _ rows e in
          let (v_in', tested) = inside v v_in in
          absurd
            (ground (arith, ap test (own_row db v w name keyed v_in' m named mine), tested, spared))
    ]

-- No row of the worker's key is stale.
live-no_stale :
    (limit : ℕ) (db : Db) (w : Worker) (name : Option String)
    → WorkersKeyed db
    → Memᴰ w db.workers
    → is_live limit w ≡ true
    → name ≡ some w.id
    → any (λ v. ltb v.last_heartbeat limit && column_eq name v.id) db.workers ≡ false
live-no_stale limit db w name keyed m live named =
    elim (Bool-cases (any (λ v. ltb v.last_heartbeat limit && column_eq name v.id) db.workers)) [
      | inr e ↦ e
      | inl e ↦
          let (v, v_in, q) = any-witness _ db.workers e in
          let (old, mine) = &&_true (ltb v.last_heartbeat limit) _ q in
          let same =
            ap (λ (x : Worker). x.last_heartbeat) (own_row db v w name keyed v_in m named mine) in
          absurd (ground (arith, old, live, same))
    ]

module _ (now stale_after : ℕ) (db : Db) where
  abbrev pub cutoff : ℕ
  cutoff = stale_cutoff now stale_after

  abbrev pub before : ℕ
  before = delete_cutoff now stale_after

  abbrev pub is_dead : Worker → Bool
  is_dead v = ltb v.last_heartbeat before

  abbrev pub thinned : Db
  thinned = delete_workers is_dead (reclaim_tasks cutoff db)

  abbrev pub gone : Session → Bool
  gone = is_dead_session before cutoff thinned

  -- The two steps on a task, and the two that a deleted session cascades to.
  abbrev pub reap_1 : Task → Task
  reap_1 t = if is_reclaimable cutoff db t then reclaimed t else t

  abbrev pub reap_2 : Task → Task
  reap_2 = unname_workers (filterb is_dead db.workers)

  abbrev pub reap_3 : Task → Task
  reap_3 = unname_workers (filterb (is_cascaded gone thinned) thinned.workers)

  abbrev pub reap_4 : Task → Task
  reap_4 = unname_sessions (filterb gone thinned.sessions)

  -- The passes over the task table, and the worker table that they leave.
  pub reclaim_stale-tasks :
      (reclaim_stale now stale_after db).1.tasks
      ≡ map reap_4 (map reap_3 (map reap_2 (map reap_1 db.tasks)))
  unfolding reclaim_stale reclaim_tasks delete_dead
  reclaim_stale-tasks = refl

  -- A live worker's row, which the two deletions keep, and the claim that names it.
  module _ (w : Worker) (keyed : WorkersKeyed db) (m : Memᴰ w db.workers)
      (live : is_live cutoff w ≡ true) where
    not_dead : is_dead w ≡ false
    not_dead = live-not_deleted now stale_after w.last_heartbeat live

    in_thinned : Memᴰ w thinned.workers
    unfolding reclaim_tasks
    in_thinned = mem-filterb_intro (λ v. not (is_dead v)) m (ground (arith, not_dead))

    session_kept : (s : Session) → s.id ≡ w.session_id → gone s ≡ false
    session_kept s owner =
        let owns =
          any-intro (λ v. leb cutoff v.last_heartbeat && text_eq v.session_id s.id) in_thinned
            (&&_intro live (text_eq_complete (sym owner))) in
        ground (arith, owns)

    not_cascaded : is_cascaded gone thinned w ≡ false
    not_cascaded = elim (Bool-cases (is_cascaded gone thinned w)) [
      | inr e ↦ e
      | inl e ↦
          let (s, s_in, owner) =
            any-witness (is_session w.session_id) (filterb gone thinned.sessions) e in
          let (_, dead) = mem-filterb gone thinned.sessions s_in in
          absurd (ground (arith, dead, session_kept s (text_eq_sound owner)))
    ]

    pub worker_stays : Memᴰ w (reclaim_stale now stale_after db).1.workers
    unfolding reclaim_stale reclaim_tasks delete_dead
    worker_stays =
        mem-filterb_intro (λ v. not (is_cascaded gone thinned v)) in_thinned
          (ground (arith, not_cascaded))

    pub reap_2-named : (t : Task) → t.claimed_by_worker_id ≡ some w.id → reap_2 t ≡ t
    reap_2-named t named =
        let free =
          none_named is_dead db w t.claimed_by_worker_id (filterb is_dead db.workers) keyed
            (λ v v_in. mem-filterb is_dead db.workers v_in) m not_dead named in
        ground (arith, free)

    pub reap_3-named : (t : Task) → t.claimed_by_worker_id ≡ some w.id → reap_3 t ≡ t
    unfolding reclaim_tasks
    reap_3-named t named =
        let free =
          none_named (is_cascaded gone thinned) db w t.claimed_by_worker_id
            (filterb (is_cascaded gone thinned) thinned.workers) keyed
            (λ v v_in.
              let (n, q) = mem-filterb (is_cascaded gone thinned) thinned.workers v_in in
              ((mem-filterb (λ x. not (is_dead x)) db.workers n).0, q))
            m not_cascaded named in
        ground (arith, free)

    reap_4-owned : (t : Task) → t.claimed_by_session ≡ some w.session_id → reap_4 t ≡ t
    reap_4-owned t owned =
        elim (Bool-cases
          (any (λ s. column_eq t.claimed_by_session s.id) (filterb gone thinned.sessions))) [
            | inr e ↦ ground (arith, e)
            | inl e ↦
                let (s, s_in, q) = any-witness _ (filterb gone thinned.sessions) e in
                let (_, dead) = mem-filterb gone thinned.sessions s_in in
                let owner = column_eq_sound {c = t.claimed_by_session} {v = s.id} q in
                absurd (ground (arith, dead, session_kept s (ground (arith, owner, owned))))
          ]

-- A reap leaves the claim of a live worker alone: a task that a worker with a fresh heartbeat holds, in
-- that worker's session, keeps its row, and the worker keeps its own.
pub reclaim_stale-live :
    (now stale_after : ℕ) (t : Task) (w : Worker) (db : Db)
    → WorkersKeyed db
    → Memᴰ t db.tasks
    → Memᴰ w db.workers
    → is_live (stale_cutoff now stale_after) w ≡ true
    → t.claimed_by_worker_id ≡ some w.id
    → t.claimed_by_session ≡ some w.session_id
    → Memᴰ t (reclaim_stale now stale_after db).1.tasks
      × Memᴰ w (reclaim_stale now stale_after db).1.workers
reclaim_stale-live now stale_after t w db keyed t_in w_in live named owned =
    let fresh =
      live-no_stale (stale_cutoff now stale_after) db w t.claimed_by_worker_id keyed w_in live
        named in
    let same_1 : reap_1 now stale_after db t ≡ t = ground (arith, fresh, named) in
    let same_2 = reap_2-named now stale_after db w keyed w_in live t named in
    let same_3 = reap_3-named now stale_after db w keyed w_in live t named in
    let same_4 = reap_4-owned now stale_after db w keyed w_in live t owned in
    let unchanged =
      ap (reap_4 now stale_after db)
        (ap (reap_3 now stale_after db) (ap (reap_2 now stale_after db) same_1 ∙ same_2) ∙ same_3)
      ∙ same_4 in
    (
      rw (reclaim_stale-tasks now stale_after db) (
          subst
            (λ u. Memᴰ u (
              map (reap_4 now stale_after db) (
                map (reap_3 now stale_after db)
                  (map (reap_2 now stale_after db) (map (reap_1 now stale_after db) db.tasks)))))
            unchanged
            (mem-map (reap_4 now stale_after db) (
              mem-map (reap_3 now stale_after db)
                (mem-map (reap_2 now stale_after db) (mem-map (reap_1 now stale_after db) t_in))))),
      worker_stays now stale_after db w keyed w_in live,
    )
