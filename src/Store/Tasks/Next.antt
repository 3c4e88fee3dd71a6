-- ===== src/Store/Tasks/Next.antt =====
-- `ClaimNextReady` of internal/store/tasks.go and the order of its query.
use radioactive_ralph.Prelude.{
  ℕ, ◌≡◌, refl, subst, String, Bool, true, false, not, ◌&&◌, Bool-cases, List, [], ◌∷◌, Memᴰ, any,
  text_eq_refl, first_by, mem-filterb_intro, Option, Option-cases, none, some, inl, inr, ◌⊎◌, arith,
  any-intro, any-witness, any-false, &&_true, text_eq, text_eq_sound, text_eq_complete, not-true,
  mem-filterb, mem-first_by,
}
use radioactive_ralph.Store.Schema.{
  Task, TaskStatus, pending, ready, done, skipped, decomposed, Dep, Db, ok, is_task, is_claimable,
  is_satisfied,
}
use radioactive_ralph.Store.Queries.{
  is_open_dep, has_open_dep, is_ready, next_ready, claims_first, claim_le, is_conflict,
}
use radioactive_ralph.Store.Tasks.{claim_next_ready, claimed_by}
use radioactive_ralph.Store.Exclusive.Claims.{Unopposed, claim_next_ready-ok}
use radioactive_ralph.Store.Tasks.Claims.{Keyed, claim_row-row}

claim_le_total :
    (s : Option ℕ) (c : ℕ) (t : Option ℕ) (d : ℕ)
    → claim_le s c t d ≡ false
    → claim_le t d s c ≡ true
claim_le_total none c none d h = ground arith
claim_le_total none c (some n) d h = refl
claim_le_total (some m) c none d h = ground arith
claim_le_total (some m) c (some n) d h = ground arith

claim_le_trans :
    (s : Option ℕ) (c : ℕ) (t : Option ℕ) (d : ℕ) (u : Option ℕ) (e : ℕ)
    → claim_le s c t d ≡ true
    → claim_le t d u e ≡ true
    → claim_le s c u e ≡ true
claim_le_trans none c none d none e h k = ground arith
claim_le_trans none c none d (some o) e h k = ground arith
claim_le_trans none c (some n) d u e h k = absurd (ground arith)
claim_le_trans (some m) c t d none e h k = refl
claim_le_trans (some m) c none d (some o) e h k = absurd (ground arith)
claim_le_trans (some m) c (some n) d (some o) e h k = ground arith

claims_first_refl : (t : Task) → claims_first t t ≡ true
claims_first_refl t = elim (Bool-cases (claims_first t t)) [
  | inl e ↦ e
  | inr e ↦ claim_le_total t.sequence_ordinal t.created_at t.sequence_ordinal t.created_at e
]

first_by-none_left :
    {A : Type 0} (le : A → A → Bool) {v : A} (xs : List A) → first_by le xs ≡ none → ¬ Memᴰ v xs
first_by-none_left le [] h m = elim m [ ]
first_by-none_left le (x ∷ xs) h m = elim (Option-cases (first_by le xs)) [
  | inl e ↦ absurd (ground (arith, e))
  | inr (y, e) ↦ elim (Bool-cases (le x y)) [
    | inl f ↦ absurd (ground (arith, e, f))
    | inr f ↦ absurd (ground (arith, e, f))
  ]
]

first_by-least :
    (first v : Task) (xs : List Task)
    → first_by claims_first xs ≡ some first
    → Memᴰ v xs
    → claims_first first v ≡ true
first_by-least first v [] h m = elim m [ ]
first_by-least first v (x ∷ xs) h m = elim (Option-cases (first_by claims_first xs)) [
  | inl e ↦
      let same : x ≡ first = ground (arith, e) in
      elim m [
        | Memᴰ.head q ↦ subst (λ y. claims_first y v ≡ true) same (rw q (claims_first_refl x))
        | Memᴰ.tail n ↦ absurd (first_by-none_left claims_first xs e n)
      ]
  | inr (y, e) ↦ elim (Bool-cases (claims_first x y)) [
    | inl f ↦
        let same : x ≡ first = ground (arith, e, f) in
        elim m [
          | Memᴰ.head q ↦ subst (λ z. claims_first z v ≡ true) same (rw q (claims_first_refl x))
          | Memᴰ.tail n ↦
              subst (λ z. claims_first z v ≡ true) same
                (claim_le_trans x.sequence_ordinal x.created_at y.sequence_ordinal y.created_at
                  v.sequence_ordinal v.created_at f (first_by-least y v xs e n))
        ]
    | inr f ↦
        let same : y ≡ first = ground (arith, e, f) in
        elim m [
          | Memᴰ.head q ↦
              subst (λ z. claims_first z v ≡ true) same
                (rw q (
                  claim_le_total x.sequence_ordinal x.created_at y.sequence_ordinal y.created_at f))
          | Memᴰ.tail n ↦ subst (λ z. claims_first z v ≡ true) same (first_by-least y v xs e n)
        ]
  ]
]

-- The test of the query: ready, and no running peer holds one of its outputs.
abbrev pub is_candidate : Db → String → Task → Bool
is_candidate db plan t = is_ready db plan t && not (any (is_conflict db plan t.id) db.outputs)

-- A claim of the next ready task returns the row, now running for the claimant, of a candidate that
-- comes no later than any other: ordinals first, in order, then the older row.
pub claim_next_ready-first :
    (plan session worker : String) (t v : Task) (db after : Db)
    → Keyed db
    → claim_next_ready plan session worker db ≡ ok (t, after)
    → Memᴰ v db.tasks
    → is_candidate db plan v ≡ true
    → (u : Task) × Memᴰ u db.tasks
      × (is_candidate db plan u ≡ true)
      × (claims_first u v ≡ true)
      × (t ≡ claimed_by session worker u)
      × Memᴰ t after.tasks
unfolding next_ready
claim_next_ready-first plan session worker t v db after keyed e m free =
    let (u, u_in, is_open, open_way, next, row) =
      claim_next_ready-ok plan session worker t db after e in
    let (same, there) =
      claim_row-row plan u.id session worker db after t u keyed u_in
        (ground (arith, is_open, text_eq_refl u.id)) row in
    (
      u,
      u_in,
      ground (arith, is_open, open_way),
      first_by-least u v _ next (mem-filterb_intro (is_candidate db plan) m free),
      same,
      there,
    )

-- Every task that an edge of `t` leads to is done, skipped or decomposed.
abbrev pub Unblocked : Db → Task → Type 0
Unblocked db t =
    (d : Dep)
    → Memᴰ d db.deps
    → d.plan_id ≡ t.plan_id
    → d.task_id ≡ t.id
    → (w : Task) → Memᴰ w db.tasks
    → w.plan_id ≡ d.plan_id
    → w.id ≡ d.depends_on
    → (w.status ≡ done) ⊎ ((w.status ≡ skipped) ⊎ (w.status ≡ decomposed))

-- A task of the plan that may be claimed: pending or ready, with nothing to wait for, and no running
-- peer of the project on its outputs.
abbrev pub Claimable : Db → String → Task → Type 0
Claimable db plan t =
    (t.plan_id ≡ plan)
    × ((t.status ≡ pending) ⊎ (t.status ≡ ready))
    × Unblocked db t
    × Unopposed db plan t.id

satisfied-cases :
    (s : TaskStatus) → is_satisfied s ≡ true → (s ≡ done) ⊎ ((s ≡ skipped) ⊎ (s ≡ decomposed))
satisfied-cases s h = ground arith

cases-satisfied :
    (s : TaskStatus) → (s ≡ done) ⊎ ((s ≡ skipped) ⊎ (s ≡ decomposed)) → is_satisfied s ≡ true
cases-satisfied s h = ground arith

claimable-cases : (s : TaskStatus) → is_claimable s ≡ true → (s ≡ pending) ⊎ (s ≡ ready)
claimable-cases s h = ground arith

cases-claimable : (s : TaskStatus) → (s ≡ pending) ⊎ (s ≡ ready) → is_claimable s ≡ true
cases-claimable s h = ground arith

has_open_dep-Unblocked : (db : Db) (t : Task) → has_open_dep db t ≡ false → Unblocked db t
has_open_dep-Unblocked db t h d d_in from_plan from_task w w_in to_plan to_task =
    satisfied-cases w.status (elim (Bool-cases (is_satisfied w.status)) [
      | inl met ↦ met
      | inr unmet ↦
          let hit =
            any-intro (λ u. is_task d.plan_id d.depends_on u && not (is_satisfied u.status)) w_in
              (ground (arith, text_eq_complete to_plan, text_eq_complete to_task, unmet)) in
          let edge = any-false (is_open_dep db t) h d_in in
          absurd (ground (arith, edge, hit, text_eq_complete from_plan, text_eq_complete from_task))
    ])

Unblocked-has_open_dep : (db : Db) (t : Task) → Unblocked db t → has_open_dep db t ≡ false
Unblocked-has_open_dep db t free = elim (Bool-cases (has_open_dep db t)) [
  | inr shut ↦ shut
  | inl opened ↦
      let (d, d_in, edge) = any-witness (is_open_dep db t) db.deps opened in
      let (ends, some_unmet) =
        &&_true (text_eq d.plan_id t.plan_id && text_eq d.task_id t.id) _ edge in
      let (p, q) = &&_true (text_eq d.plan_id t.plan_id) _ ends in
      let (w, w_in, unmet) =
        any-witness (λ u. is_task d.plan_id d.depends_on u && not (is_satisfied u.status)) db.tasks
          some_unmet in
      let (key, still) = &&_true (is_task d.plan_id d.depends_on w) _ unmet in
      let (a, b) = &&_true (text_eq w.plan_id d.plan_id) _ key in
      let met = cases-satisfied w.status (
        free d d_in (text_eq_sound p) (text_eq_sound q) w w_in (text_eq_sound a)
          (text_eq_sound b)) in
      absurd (ground (arith, met, still))
]

pub is_candidate-Claimable :
    (db : Db) (plan : String) (t : Task) → is_candidate db plan t ≡ true → Claimable db plan t
is_candidate-Claimable db plan t h =
    let (ready_t, free) = &&_true (is_ready db plan t) _ h in
    let (front, shut) = &&_true (text_eq t.plan_id plan && is_claimable t.status) _ ready_t in
    let (key, status) = &&_true (text_eq t.plan_id plan) _ front in
    (
      text_eq_sound key,
      claimable-cases t.status status,
      has_open_dep-Unblocked db t (not-true (has_open_dep db t) shut),
      not-true (any (is_conflict db plan t.id) db.outputs) free,
    )

Claimable-is_candidate :
    (db : Db) (plan : String) (t : Task) → Claimable db plan t → is_candidate db plan t ≡ true
Claimable-is_candidate db plan t (key, status, unblocked, free) = ground (
  arith,
  text_eq_complete key,
  cases-claimable t.status status,
  Unblocked-has_open_dep db t unblocked,
  free,
)

-- Where some task of the plan may be claimed, the query of the next claim finds a task of the table
-- that may be claimed too, and that comes no later.
pub next_ready-found :
    (plan : String) (v : Task) (db : Db)
    → Memᴰ v db.tasks
    → Claimable db plan v
    → (u : Task) × (next_ready plan db ≡ some u)
      × Memᴰ u db.tasks
      × Claimable db plan u
      × (claims_first u v ≡ true)
unfolding next_ready
next_ready-found plan v db m may =
    let free = Claimable-is_candidate db plan v may in
    let listed = mem-filterb_intro (is_candidate db plan) m free in
    elim (Option-cases (next_ready plan db)) [
      | inl idle ↦ absurd (first_by-none_left claims_first _ idle listed)
      | inr (u, next) ↦
          let (u_in, q) =
            mem-filterb (is_candidate db plan) db.tasks (mem-first_by claims_first _ next) in
          (u, next, u_in, is_candidate-Claimable db plan u q, first_by-least u v _ next listed)
    ]
