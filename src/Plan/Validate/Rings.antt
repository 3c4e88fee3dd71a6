-- ===== src/Plan/Validate/Rings.antt =====
-- The search for rings of `differentFrom` in internal/plan/validate.go: what it leaves behind, and
-- what it has found.
use radioactive_ralph.Prelude.{
  ℕ, zero, suc, ◌≡◌, ◌≢◌, refl, sym, subst, ◌⊎◌, inl, inr, String, List, [], ◌∷◌, Memᴰ, arith,
  Bool-cases, text_eq, text_eq_sound,
}
use radioactive_ralph.Plan.Validate.{
  Mark, unvisited, on_stack, done, Marks, mark_of, Search, ring_found, spent, clear, visit_peers,
  visit_peer, peers_of,
}

pub Mark-cases : (m : Mark) → (m ≡ unvisited) ⊎ ((m ≡ on_stack) ⊎ (m ≡ done))
Mark-cases unvisited = inl refl
Mark-cases on_stack = inr (inl refl)
Mark-cases done = inr (inr refl)

pub Search-cases :
    (v : Search)
    → ((st : Marks) × (v ≡ clear st)) ⊎ (((c : List String) × (v ≡ ring_found c)) ⊎ (v ≡ spent))
Search-cases (clear st) = inl (st, refl)
Search-cases (ring_found c) = inr (inl (c, refl))
Search-cases spent = inr (inr refl)

-- The finished nodes, the last one first.
abbrev pub finished : Marks → List String
finished [] = []
finished ((i, done) ∷ st) = i ∷ finished st
finished ((i, on_stack) ∷ st) = finished st
finished ((i, unvisited) ∷ st) = finished st

pub mark_of-finished : (st : Marks) (x : String) → mark_of st x ≡ done → Memᴰ x (finished st)
mark_of-finished [] x h = absurd (ground arith)
mark_of-finished ((i, done) ∷ st) x h = elim (Bool-cases (text_eq i x)) [
  | inl at ↦ Memᴰ.head (sym (text_eq_sound at))
  | inr off ↦ Memᴰ.tail (mark_of-finished st x (ground (arith, off)))
]
mark_of-finished ((i, on_stack) ∷ st) x h = elim (Bool-cases (text_eq i x)) [
  | inl at ↦ absurd (ground (arith, at))
  | inr off ↦ mark_of-finished st x (ground (arith, off))
]
mark_of-finished ((i, unvisited) ∷ st) x h = elim (Bool-cases (text_eq i x)) [
  | inl at ↦ absurd (ground (arith, at))
  | inr off ↦ mark_of-finished st x (ground (arith, off))
]

module _ (entries : List (String × String)) where
  -- Each node stands after all its peers, read from the end.
  abbrev pub Ordered : List String → Type 0
  Ordered [] = Unit
  Ordered (x ∷ xs) = ((q : String) → Memᴰ q (peers_of entries x) → Memᴰ q xs) × Ordered xs

  -- What a search from `ns` leaves.
  pub record Settled (old : Marks) (ns : List String) (new : Marks) : Type 0 where
    pub kept : (x : String) → Memᴰ x (finished old) → Memᴰ x (finished new)
    pub reached : (x : String) → Memᴰ x ns → Memᴰ x (finished new)
    pub ordered : Ordered (finished old) → Ordered (finished new)
    pub stacked : (x : String) → mark_of new x ≡ on_stack → mark_of old x ≡ on_stack
    pub opened : (x : String) → mark_of new x ≡ unvisited → mark_of old x ≡ unvisited

  pub Settled-none : (st : Marks) → Settled st [] st
  Settled-none st = record {
    kept = λ x m. m;
    reached = λ x m. elim m [ ];
    ordered = λ o. o;
    stacked = λ x h. h;
    opened = λ x h. h;
  }

  pub Settled-then :
      (q : String) (qs : List String) (old mid new : Marks)
      → Settled old (q ∷ []) mid
      → Settled mid qs new
      → Settled old (q ∷ qs) new
  Settled-then q qs old mid new a b = record {
    kept = λ x m. b.kept x (a.kept x m);
    reached = reach;
    ordered = λ o. b.ordered (a.ordered o);
    stacked = λ x h. a.stacked x (b.stacked x h);
    opened = λ x h. a.opened x (b.opened x h);
  }
    where
      reach : (x : String) → Memᴰ x (q ∷ qs) → Memᴰ x (finished new)
      reach x (Memᴰ.head e) = b.kept x (a.reached x (Memᴰ.head e))
      reach x (Memᴰ.tail m) = b.reached x m

  pub Settled-again : (q : String) (st : Marks) → mark_of st q ≡ done → Settled st (q ∷ []) st
  Settled-again q st h = record {
    kept = λ x m. m;
    reached = only;
    ordered = λ o. o;
    stacked = λ x e. e;
    opened = λ x e. e;
  }
    where
      only : (x : String) → Memᴰ x (q ∷ []) → Memᴰ x (finished st)
      only x (Memᴰ.head e) = subst (λ y. Memᴰ y (finished st)) (sym e) (mark_of-finished st q h)
      only x (Memᴰ.tail m) = elim m [ ]

  abbrev pub Settles : (String → Marks → Search) → Type 0
  Settles f = (q : String) (old new : Marks) → f q old ≡ clear new → Settled old (q ∷ []) new

  pub visit_peers-Settled :
      (f : String → Marks → Search) (path : List String)
      → Settles f
      → (qs : List String) (old new : Marks) → visit_peers f path qs old ≡ clear new
      → Settled old qs new
  visit_peers-Settled f path spec [] old new e =
      let same : old ≡ new = ground arith in subst (Settled old []) same (Settled-none old)
  visit_peers-Settled f path spec (q ∷ qs) old new e = elim (Mark-cases (mark_of old q)) [
    | inl fresh ↦ elim (Search-cases (f q old)) [
      | inl (mid, p) ↦
          Settled-then q qs old mid new (spec q old mid p)
            (visit_peers-Settled f path spec qs mid new (ground (arith, fresh, p)))
      | inr (inl (c, p)) ↦ absurd (ground (arith, fresh, p))
      | inr (inr p) ↦ absurd (ground (arith, fresh, p))
    ]
    | inr (inl back) ↦ absurd (ground (arith, back))
    | inr (inr over) ↦
        Settled-then q qs old old new (Settled-again q old over)
          (visit_peers-Settled f path spec qs old new (ground (arith, over)))
  ]

  -- A node is finished after its peers.
  Settled-finish :
      (id : String) (old new : Marks)
      → Settled ((id, on_stack) ∷ old) (peers_of entries id) new
      → Settled old (id ∷ []) ((id, done) ∷ new)
  Settled-finish id old new s = record {
    kept = λ x m. Memᴰ.tail (s.kept x m);
    reached = only;
    ordered = λ o. (s.reached, s.ordered o);
    stacked = away on_stack (λ h. cc) s.stacked;
    opened = away unvisited (λ h. cc) s.opened;
  }
    where
      only : (x : String) → Memᴰ x (id ∷ []) → Memᴰ x (id ∷ finished new)
      only x (Memᴰ.head e) = Memᴰ.head e
      only x (Memᴰ.tail m) = elim m [ ]

      away :
          (m : Mark)
          → done ≢ m
          → ((x : String) → mark_of new x ≡ m → mark_of ((id, on_stack) ∷ old) x ≡ m)
          → (x : String) → mark_of ((id, done) ∷ new) x ≡ m
          → mark_of old x ≡ m
      away m other below x h = elim (Bool-cases (text_eq id x)) [
        | inl at ↦ absurd (other (ground (arith, at)))
        | inr off ↦
            let under : mark_of new x ≡ m = ground (arith, off) in
            let same = below x under in ground (arith, off, same)
      ]

  pub visit_peer-Settled : (fuel : ℕ) (path : List String) → Settles (visit_peer fuel entries path)
  unfolding visit_peer
  visit_peer-Settled zero path id old new e = absurd (ground arith)
  visit_peer-Settled (suc fuel) path id old new e =
      elim (Search-cases (
        visit_peers (visit_peer fuel entries (id ∷ path)) (id ∷ path) (peers_of entries id)
          ((id, on_stack) ∷ old))) [
            | inl (mid, p) ↦
                let same : (id, done) ∷ mid ≡ new = ground (arith, p) in
                subst (Settled old (id ∷ [])) same (
                  Settled-finish id old mid (
                    visit_peers-Settled (visit_peer fuel entries (id ∷ path)) (id ∷ path)
                      (visit_peer-Settled fuel (id ∷ path)) (peers_of entries id)
                      ((id, on_stack) ∷ old) mid p))
            | inr (inl (c, p)) ↦ absurd (ground (arith, p))
            | inr (inr p) ↦ absurd (ground (arith, p))
          ]
