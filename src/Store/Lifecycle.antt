-- ===== src/Store/Lifecycle.antt =====
-- The life of one task as an abstract state machine, whose arrows are labelled with the calls of
-- internal/store, and lists of tasks that follow it row by row.
pub mod Effects
pub mod Service
pub mod Runs
use radioactive_ralph.Prelude.{
  ◌≡◌, refl, sym, subst, String, Bool, true, false, ◌&&◌, ◌||◌, Bool-cases, List, [], ◌∷◌, Memᴰ,
  inl, inr, arith, column_eq,
}
use radioactive_ralph.Store.Schema.{
  TaskStatus, pending, ready, ready_pending_approval, blocked, running, done, failed, skipped,
  decomposed, blocked_capability, blocked_input, is_running, is_claimable, is_satisfied, status_eq,
  Task, is_task, update_where,
}

abbrev pub is_final : TaskStatus → Bool
is_final failed = true
is_final s = is_satisfied s

-- The two blocks that the service may set and lift before dispatch.
abbrev pub is_service_block : TaskStatus → Bool
is_service_block blocked_capability = true
is_service_block blocked_input = true
is_service_block _ = false

-- The calls that move a task, with what they name: the task and the reporting session, the worker
-- that is killed. `rests` is a call that moves none.
pub data Move : Type 0 where
  claims approves lacks_capability lacks_input unblocks : (plan id : String) → Move
  completes fails releases stops : (plan id session : String) → Move
  kills : (worker : String) → Move
  reaps rests : Move

-- The running row of the task that the session holds.
abbrev is_reported : String → String → String → Task → Bool
is_reported plan id session t =
    is_task plan id t && status_eq t.status running && column_eq t.claimed_by_session session

-- A row on which a block before dispatch may fall.
abbrev is_undispatched : String → String → Task → Bool
is_undispatched plan id t =
    is_task plan id t
    && (status_eq t.status pending
        || status_eq t.status ready
        || status_eq t.status blocked_capability
        || status_eq t.status blocked_input)

-- The arrows of the diagram: which call takes which row where.
abbrev pub arrow : Move → Task → TaskStatus → Bool
arrow (claims plan id) t u =
    is_task plan id t
    && (status_eq t.status pending || status_eq t.status ready)
    && status_eq u running
arrow (completes plan id session) t u = is_reported plan id session t && status_eq u done
arrow (fails plan id session) t u =
    is_reported plan id session t && (status_eq u pending || status_eq u failed)
arrow (releases plan id session) t u = is_reported plan id session t && status_eq u pending
arrow (stops plan id session) t u = is_reported plan id session t && status_eq u blocked
arrow (approves plan id) t u =
    is_task plan id t && status_eq t.status ready_pending_approval && status_eq u ready
arrow (lacks_capability plan id) t u = is_undispatched plan id t && status_eq u blocked_capability
arrow (lacks_input plan id) t u = is_undispatched plan id t && status_eq u blocked_input
arrow (unblocks plan id) t u =
    is_task plan id t
    && (status_eq t.status blocked_capability || status_eq t.status blocked_input)
    && status_eq u pending
arrow (kills worker) t u =
    column_eq t.claimed_by_worker_id worker && status_eq t.status running && status_eq u pending
arrow reaps t u = status_eq t.status running && status_eq u pending
arrow rests t u = false

-- A call leaves the status of a row as it is, or takes its arrow.
abbrev pub may_move : Move → Task → TaskStatus → Bool
may_move m t u = status_eq t.status u || arrow m t u

-- One row, before and after a call.
abbrev pub Row : Move → Task → Task → Type 0
Row m t u =
    (t.plan_id ≡ u.plan_id)
    × (t.id ≡ u.id)
    × (t.description ≡ u.description)
    × (may_move m t u.status ≡ true)

abbrev pub SameStatus : Task → Task → Type 0
SameStatus t u =
    (t.plan_id ≡ u.plan_id)
    × (t.id ≡ u.id)
    × (t.description ≡ u.description)
    × (t.status ≡ u.status)

-- Two lists of one length whose rows are related one by one.
pub data Pointwise {ℓ} {A : Type ℓ} (R : A → A → Type 0) : List A → List A → Type ℓ where
  none_left : Pointwise R [] []
  pair : {x y : A} {xs ys : List A} → R x y → Pointwise R xs ys → Pointwise R (x ∷ xs) (y ∷ ys)

pub Pointwise-trans :
    {A : Type 0} {R S T : A → A → Type 0} {xs ys zs : List A}
    → ((x y z : A) → R x y → S y z → T x z)
    → Pointwise R xs ys
    → Pointwise S ys zs
    → Pointwise T xs zs
Pointwise-trans join Pointwise.none_left Pointwise.none_left = Pointwise.none_left
Pointwise-trans join (Pointwise.pair r rs) (Pointwise.pair s ss) =
    Pointwise.pair (join _ _ _ r s) (Pointwise-trans join rs ss)

pub Pointwise-refl :
    {A : Type 0} {R : A → A → Type 0} → ((x : A) → R x x) → (xs : List A) → Pointwise R xs xs
Pointwise-refl same [] = Pointwise.none_left
Pointwise-refl same (x ∷ xs) = Pointwise.pair (same x) (Pointwise-refl same xs)

pub Pointwise-mem :
    {A : Type 0} {R : A → A → Type 0} {x : A} {xs ys : List A}
    → Pointwise R xs ys
    → Memᴰ x xs
    → (y : A) × Memᴰ y ys × R x y
Pointwise-mem Pointwise.none_left m = elim m [ ]
Pointwise-mem {R} (Pointwise.pair {y} r rs) (Memᴰ.head e) =
    (y, Memᴰ.head refl, subst (λ z. R z y) (sym e) r)
Pointwise-mem (Pointwise.pair r rs) (Memᴰ.tail m) =
    let (y, n, s) = Pointwise-mem rs m in (y, Memᴰ.tail n, s)

pub update-Pointwise :
    {A : Type 0} {R : A → A → Type 0} (test : A → Bool) (change : A → A)
    → ((x : A) → R x x)
    → ((x : A) → test x ≡ true → R x (change x))
    → (xs : List A) → Pointwise R xs (update_where test change xs)
update-Pointwise test change same moves [] = Pointwise.none_left
update-Pointwise test change same moves (x ∷ xs) = elim (Bool-cases (test x)) [
  | inl hit ↦ rw hit (Pointwise.pair (moves x hit) (update-Pointwise test change same moves xs))
  | inr miss ↦ rw miss (Pointwise.pair (same x) (update-Pointwise test change same moves xs))
]

pub may_move_refl : (m : Move) (t : Task) → may_move m t t.status ≡ true
may_move_refl m t = ground arith

pub claim-may_move :
    (plan id : String) (t : Task)
    → is_task plan id t ≡ true
    → is_claimable t.status ≡ true
    → may_move (claims plan id) t running ≡ true
claim-may_move plan id t key h = ground arith

-- An end is left by no call.
pub final-may_move :
    (m : Move) (t : Task) (u : TaskStatus)
    → is_final t.status ≡ true
    → may_move m t u ≡ true
    → t.status ≡ u
final-may_move m t u h k = ground arith
