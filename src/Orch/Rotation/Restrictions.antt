-- ===== src/Orch/Rotation/Restrictions.antt =====
-- Which restrictions of a step the binding satisfies that `dispatchReadyStep` of
-- internal/orch/orchestrator.go chooses for it.
use radioactive_ralph.Prelude.{
  ℕ, ◌≡◌, refl, sym, String, Bool, true, false, not, ◌&&◌, ◌||◌, ◌⊎◌, Option, some, Option-cases,
  List, [], ◌∷◌, Memᴰ, Bool-cases, inl, inr, any, any-false, find?, is_nil, text_eq, arith,
}
use radioactive_ralph.Plan.{TaskMetadata}
use radioactive_ralph.Orch.Rotation.{
  Binding, ExecutionRow, Surroundings, Choice, chosen, refused, Refusal, allowed_providers,
  pinned_provider_type, independence_peers, check_allowed_providers, rotations, none_allowed,
  none_pinned, none_independent, resolve_allowed_binding, resolve_pinned_binding, binding_domain,
  PeerDomains, known, unknown, add_domain, is_execution_of, domain_of, peer_domains, is_independent,
  resolve_independent_binding, and_then, first_binding, allow_step, pin_step, independence_step,
  choose_binding,
}
use radioactive_ralph.Provider.Pool.Selection.{is_nil-mem}
use radioactive_ralph.Orch.Rotation.Search.{Satisfies, rotate-Satisfies}

-- The peer ran, on a binding with a known domain, and the domain of `b` is known and another one.
abbrev pub RanElsewhere : Surroundings → String → Binding → String → Type 0
RanElsewhere w plan b peer =
    (r : ExecutionRow) × (find? (is_execution_of plan peer) w.executions ≡ some r)
    × (text_eq (domain_of r) "" ≡ false)
    × (text_eq (binding_domain w b) "" ≡ false)
    × (text_eq (binding_domain w b) (domain_of r) ≡ false)

abbrev pub is_unpinned : Option TaskMetadata → Bool
is_unpinned m = text_eq (pinned_provider_type m) ""

abbrev pub Restricted : Surroundings → String → Option TaskMetadata → Binding → Type 0
Restricted w plan m b =
    ((peer : String) → Memᴰ peer (independence_peers m) → RanElsewhere w plan b peer)
    × ((not (is_nil (independence_peers m))
          || is_unpinned m
          || text_eq b.config_type (pinned_provider_type m))
        ≡ true)
    × (((is_nil (independence_peers m) && not (is_unpinned m))
          || check_allowed_providers b (allowed_providers m))
        ≡ true)

and_then-Satisfies :
    (P Q : Binding → Type 0) (x : Choice × ℕ) (f : Binding → ℕ → Choice × ℕ)
    → Satisfies P (x.0)
    → ((b : Binding) (k : ℕ) → P b → Satisfies Q ((f b k).0))
    → Satisfies Q ((and_then x f).0)
and_then-Satisfies P Q (chosen b, k) f p step = step b k p
and_then-Satisfies P Q (refused r, k) f p step = tt

weaken :
    (P Q : Binding → Type 0) (c : Choice)
    → ((b : Binding) → P b → Q b)
    → Satisfies P c
    → Satisfies Q c
weaken P Q (chosen b) f p = f b p
weaken P Q (refused r) f p = tt

abbrev Allowed : Option TaskMetadata → Binding → Type 0
Allowed m b = check_allowed_providers b (allowed_providers m) ≡ true

abbrev PinnedOrAllowed : Option TaskMetadata → Binding → Type 0
PinnedOrAllowed m b =
    ((is_unpinned m || text_eq b.config_type (pinned_provider_type m)) ≡ true)
    × ((not (is_unpinned m) || check_allowed_providers b (allowed_providers m)) ≡ true)

free_allowed :
    (b : Binding) (ps : List String) → is_nil ps ≡ true → check_allowed_providers b ps ≡ true
unfolding check_allowed_providers
free_allowed b [] h = refl
free_allowed b (p ∷ ps) h = absurd (ground arith)

allow_step-Allowed :
    (w : Surroundings) (m : Option TaskMetadata) (b : Binding) (k : ℕ)
    → Satisfies (Allowed m) ((allow_step w m b k).0)
unfolding allow_step resolve_allowed_binding
allow_step-Allowed w m b k = elim (Bool-cases (is_nil (allowed_providers m))) [
  | inl free ↦ rw free (free_allowed b (allowed_providers m) free)
  | inr listed ↦ rw listed (
      weaken _ (Allowed m) _ (λ x q. q.0)
        (rotate-Satisfies w.resolve_binding (λ x. check_allowed_providers x (allowed_providers m))
          none_allowed (λ x. Unit {0}) (λ j next e. tt) rotations [] b k tt))
]

pin_step-PinnedOrAllowed :
    (w : Surroundings) (m : Option TaskMetadata) (b : Binding) (k : ℕ)
    → Allowed m b
    → Satisfies (PinnedOrAllowed m) ((pin_step w m b k).0)
unfolding pin_step resolve_pinned_binding
pin_step-PinnedOrAllowed w m b k allowed = elim (Bool-cases (is_unpinned m)) [
  | inl free ↦ rw free (ground (arith, free), ground (arith, allowed))
  | inr pinned ↦ rw pinned (
      weaken _ (PinnedOrAllowed m) _ (λ x q. (ground (arith, q.0), ground (arith, pinned)))
        (rotate-Satisfies w.resolve_binding (λ x. text_eq x.config_type (pinned_provider_type m))
          none_pinned (λ x. Unit {0}) (λ j next e. tt) rotations [] b k tt))
]

add_domain-known :
    (d : String) (x : PeerDomains) (ds : List String)
    → add_domain d x ≡ known ds
    → (later : List String) × (x ≡ known later) × (ds ≡ d ∷ later)
add_domain-known d (known later) ds e = (later, refl, sym (ground (arith, e)))
add_domain-known d (unknown r) ds e = absurd (ground (arith, e))

Choice-any : (c : Choice) → Satisfies (λ b. Unit {0}) c
Choice-any (chosen b) = tt
Choice-any (refused r) = tt

PeerDomains-cases :
    (x : PeerDomains) → ((r : Refusal) × (x ≡ unknown r)) ⊎ ((ds : List String) × (x ≡ known ds))
PeerDomains-cases (known ds) = inr (ds, refl)
PeerDomains-cases (unknown r) = inl (r, refl)

peer_domains-known :
    (w : Surroundings) (plan : String) (peers domains : List String)
    → peer_domains w plan peers ≡ known domains
    → (p : String) → Memᴰ p peers
    → (r : ExecutionRow) × (find? (is_execution_of plan p) w.executions ≡ some r)
      × (text_eq (domain_of r) "" ≡ false)
      × Memᴰ (domain_of r) domains
unfolding peer_domains
peer_domains-known w plan [] domains e p m = elim m [ ]
peer_domains-known w plan (q ∷ qs) domains e p m =
    elim (Option-cases (find? (is_execution_of plan q) w.executions)) [
      | inl gone ↦ absurd (ground (arith, gone, e))
      | inr (r, at_r) ↦ elim (Bool-cases (text_eq (domain_of r) "")) [
        | inl blank ↦ absurd (ground (arith, at_r, blank, e))
        | inr named ↦
            let split : add_domain (domain_of r) (peer_domains w plan qs) ≡ known domains =
              ground (arith, at_r, named, e) in
            let (later, before, same) =
              add_domain-known (domain_of r) (peer_domains w plan qs) domains split in
            elim m [
              | Memᴰ.head here ↦ (r, rw here at_r, named, rw same (Memᴰ.head refl))
              | Memᴰ.tail rest ↦
                  let (r', at_r', named', m') = peer_domains-known w plan qs later before p rest in
                  (r', at_r', named', rw same (Memᴰ.tail m'))
            ]
      ]
    ]

is_independent-Restricted :
    (w : Surroundings) (plan : String) (m : Option TaskMetadata) (domains : List String)
    (b : Binding)
    → peer_domains w plan (independence_peers m) ≡ known domains
    → is_nil (independence_peers m) ≡ false
    → is_independent w (allowed_providers m) domains b ≡ true
    → Restricted w plan m b
is_independent-Restricted w plan m domains b e some_peers h =
    let distinct : any (text_eq (binding_domain w b)) domains ≡ false = ground (arith, h) in
    (
      λ p in_peers.
          let (r, at_r, named, in_domains) =
            peer_domains-known w plan (independence_peers m) domains e p in_peers in
          (
            r,
            at_r,
            named,
            ground (arith, h),
            any-false (text_eq (binding_domain w b)) distinct in_domains,
          ),
      ground (arith, some_peers),
      elim (Bool-cases (is_nil (allowed_providers m))) [
        | inl free ↦ ground (arith, free_allowed b (allowed_providers m) free)
        | inr listed ↦ ground (arith, h, listed)
      ],
    )

resolve_independent_binding-Restricted :
    (w : Surroundings) (plan : String) (m : Option TaskMetadata) (b : Binding) (k : ℕ)
    → is_nil (independence_peers m) ≡ false
    → Satisfies
        (Restricted w plan m)
        ((resolve_independent_binding w plan (allowed_providers m) (independence_peers m) b k).0)
unfolding resolve_independent_binding
resolve_independent_binding-Restricted w plan m b k some_peers =
    elim (PeerDomains-cases (peer_domains w plan (independence_peers m))) [
      | inl (r, e) ↦ rw (e, resolve_independent_binding, Satisfies) tt
      | inr (domains, e) ↦
          rw (e, resolve_independent_binding)
            (weaken _ (Restricted w plan m) _
              (λ x q. is_independent-Restricted w plan m domains x e some_peers (q.0))
              (rotate-Satisfies w.resolve_binding (is_independent w (allowed_providers m) domains)
                none_independent (λ x. Unit {0}) (λ j next e. tt) rotations [] b k tt))
    ]

independence_step-Restricted :
    (w : Surroundings) (plan : String) (m : Option TaskMetadata) (b : Binding) (k : ℕ)
    → PinnedOrAllowed m b
    → Satisfies (Restricted w plan m) ((independence_step w plan m b k).0)
unfolding independence_step
independence_step-Restricted w plan m b k (pinned, allowed) =
    elim (Bool-cases (is_nil (independence_peers m))) [
      | inl free ↦ rw free (
        λ p some_peer. absurd (ground (arith, free, is_nil-mem some_peer)),
        ground (arith, pinned),
        ground (arith, allowed),
      )
      | inr some_peers ↦
          rw some_peers (resolve_independent_binding-Restricted w plan m b k some_peers)
    ]

-- Whatever binding `dispatchReadyStep` goes on with, each peer of the step's `differentFrom` has run on
-- a binding with another known domain than this one. A pinned provider type is that of the
-- binding if the step has no `differentFrom`. The binding is one that `providers` allows if the step
-- has a `differentFrom`, or pins no type.
pub choose_binding-Restricted :
    (w : Surroundings) (plan : String) (m : Option TaskMetadata) (cursor : ℕ)
    → Satisfies (Restricted w plan m) ((choose_binding w plan m cursor).0)
unfolding choose_binding first_binding
choose_binding-Restricted w plan m cursor =
    and_then-Satisfies (PinnedOrAllowed m) (Restricted w plan m) _ (independence_step w plan m)
      (and_then-Satisfies (Allowed m) (PinnedOrAllowed m) _ (pin_step w m)
        (and_then-Satisfies (λ b. Unit {0}) (Allowed m) _ (allow_step w m)
          (Choice-any ((first_binding w cursor).0)) (λ b k p. allow_step-Allowed w m b k))
        (λ b k p. pin_step-PinnedOrAllowed w m b k p))
      (λ b k p. independence_step-Restricted w plan m b k p)
