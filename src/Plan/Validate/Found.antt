-- ===== src/Plan/Validate/Found.antt =====
-- A ring that internal/plan/validate.go reports is one.
use radioactive_ralph.Prelude.{
  ℕ, zero, suc, ◌≡◌, refl, sym, subst, ◌⊎◌, inl, inr, String, List, [], ◌∷◌, Memᴰ, arith,
  Bool-cases, text_eq, text_eq_sound,
}
use radioactive_ralph.Plan.Validate.{
  on_stack, Marks, mark_of, Search, ring_found, visit_peers, visit_peer, peers_of, search_rings,
}
use radioactive_ralph.Plan.Validate.Rings.{Mark-cases, Search-cases, visit_peer-Settled, Settles}

module _ (entries : List (String × String)) where
  -- The walks of at least one step from a task to a peer.
  pub data Needs : String → String → Type 0 where
    peer : {a b : String} → Memᴰ b (peers_of entries a) → Needs a b
    step : {a b c : String} → Memᴰ b (peers_of entries a) → Needs b c → Needs a c

  Needs-peer : {a b c : String} → Needs a b → Memᴰ c (peers_of entries b) → Needs a c
  Needs-peer (peer m) n = step m (peer n)
  Needs-peer (step m w) n = step m (Needs-peer w n)

  -- Each node of the path is a peer of the next.
  abbrev Linked : List String → Type 0
  Linked [] = Unit
  Linked (x ∷ []) = Unit
  Linked (x ∷ y ∷ rest) = Memᴰ x (peers_of entries y) × Linked (y ∷ rest)

  Linked-Needs :
      (x h : String) (path : List String)
      → Linked (h ∷ path)
      → Memᴰ x (h ∷ path)
      → (x ≡ h) ⊎ Needs x h
  Linked-Needs x h path l (Memᴰ.head e) = inl e
  Linked-Needs x h [] l (Memᴰ.tail m) = elim m [ ]
  Linked-Needs x h (y ∷ rest) l (Memᴰ.tail m) = elim (Linked-Needs x y rest l.1 m) [
    | inl e ↦ inr (subst (λ z. Needs z h) (sym e) (peer l.0))
    | inr w ↦ inr (Needs-peer w l.0)
  ]

  abbrev pub OnPath : List String → Marks → Type 0
  OnPath path st = (x : String) → mark_of st x ≡ on_stack → Memᴰ x path

  abbrev pub Ring : Type 0
  Ring = (x : String) × Needs x x

  closing :
      (h q : String) (path : List String)
      → Linked (h ∷ path)
      → Memᴰ q (h ∷ path)
      → Memᴰ q (peers_of entries h)
      → Ring
  closing h q path l m n = elim (Linked-Needs q h path l m) [
    | inl e ↦ (q, subst (λ z. Needs z q) (sym e) (peer n))
    | inr w ↦ (q, Needs-peer w n)
  ]

  visit_peers-found :
      (f : String → Marks → Search) (h : String) (path : List String)
      → Settles entries f
      → ((q : String) (st : Marks) (c : List String)
          → Memᴰ q (peers_of entries h)
          → OnPath (h ∷ path) st
          → f q st ≡ ring_found c
          → Ring)
      → Linked (h ∷ path)
      → (qs : List String) (st : Marks) (c : List String)
      → ((q : String) → Memᴰ q qs → Memᴰ q (peers_of entries h))
      → OnPath (h ∷ path) st
      → visit_peers f (h ∷ path) qs st ≡ ring_found c
      → Ring
  visit_peers-found f h path settles spec l [] st c sub on e = absurd (ground arith)
  visit_peers-found f h path settles spec l (q ∷ qs) st c sub on e =
      elim (Mark-cases (mark_of st q)) [
        | inl fresh ↦ elim (Search-cases (f q st)) [
          | inl (mid, p) ↦
              visit_peers-found f h path settles spec l qs mid c (λ x m. sub x (Memᴰ.tail m))
                (λ x k. on x ((settles q st mid p).stacked x k)) (ground (arith, fresh, p))
          | inr (inl (c', p)) ↦ spec q st c' (sub q (Memᴰ.head refl)) on p
          | inr (inr p) ↦ absurd (ground (arith, fresh, p))
        ]
        | inr (inl back) ↦ closing h q path l (on q back) (sub q (Memᴰ.head refl))
        | inr (inr over) ↦
            visit_peers-found f h path settles spec l qs st c (λ x m. sub x (Memᴰ.tail m)) on
              (ground (arith, over))
      ]

  on_top :
      (id : String) (path : List String) (st : Marks)
      → OnPath path st
      → OnPath (id ∷ path) ((id, on_stack) ∷ st)
  on_top id path st on x h = elim (Bool-cases (text_eq id x)) [
    | inl at ↦ Memᴰ.head (sym (text_eq_sound at))
    | inr off ↦ Memᴰ.tail (on x (ground (arith, off)))
  ]

  visit_peer-found :
      (fuel : ℕ) (path : List String) (id : String) (st : Marks) (c : List String)
      → Linked (id ∷ path)
      → OnPath path st
      → visit_peer fuel entries path id st ≡ ring_found c
      → Ring
  unfolding visit_peer
  visit_peer-found zero path id st c l on e = absurd (ground arith)
  visit_peer-found (suc fuel) path id st c l on e =
      elim (Search-cases (
        visit_peers (visit_peer fuel entries (id ∷ path)) (id ∷ path) (peers_of entries id)
          ((id, on_stack) ∷ st))) [
            | inl (mid, p) ↦ absurd (ground (arith, p))
            | inr (inl (c', p)) ↦
                visit_peers-found (visit_peer fuel entries (id ∷ path)) id path
                  (visit_peer-Settled entries fuel (id ∷ path))
                  (λ q old d m on'. visit_peer-found fuel (id ∷ path) q old d (m, l) on') l
                  (peers_of entries id) ((id, on_stack) ∷ st) c' (λ q m. m) (on_top id path st on) p
            | inr (inr p) ↦ absurd (ground (arith, p))
          ]

  pub search_rings-found :
      (fuel : ℕ) (ids : List String) (st : Marks) (c : List String)
      → OnPath [] st
      → search_rings fuel entries ids st ≡ ring_found c
      → Ring
  unfolding search_rings
  search_rings-found fuel [] st c on e = absurd (ground arith)
  search_rings-found fuel (id ∷ ids) st c on e = elim (Mark-cases (mark_of st id)) [
    | inl fresh ↦ elim (Search-cases (visit_peer fuel entries [] id st)) [
      | inl (mid, p) ↦
          search_rings-found fuel ids mid c
            (λ x k. on x ((visit_peer-Settled entries fuel [] id st mid p).stacked x k))
            (ground (arith, fresh, p))
      | inr (inl (c', p)) ↦ visit_peer-found fuel [] id st c' tt on p
      | inr (inr p) ↦ absurd (ground (arith, fresh, p))
    ]
    | inr (inl back) ↦ elim (on id back) [ ]
    | inr (inr over) ↦ search_rings-found fuel ids st c on (ground (arith, over))
  ]
