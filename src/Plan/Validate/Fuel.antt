-- ===== src/Plan/Validate/Fuel.antt =====
-- The search for rings of internal/plan/validate.go ends: each visit marks one more node.
use mathlib.Core.List.Memᴰ
use radioactive_ralph.Prelude.{
  ℕ, zero, suc, ◌≤◌, ◌<◌, ◌≡◌, ◌≢◌, refl, ap, inl, inr, String, Bool, true, false, List, [], ◌∷◌,
  ◌++◌, map, Memᴰ, arith, count, count_mono, count_strict, count-le-length, mem-map, mem-map_inv,
  mem-filterb, text_eq, text_eq_refl,
}
use radioactive_ralph.Plan.Validate.{
  Mark, unvisited, on_stack, done, Marks, mark_of, Search, spent, visit_peers, visit_peer, peers_of,
  search_rings, ring_fuel,
}
use radioactive_ralph.Plan.Validate.Rings.{Mark-cases, Search-cases, visit_peer-Settled, Settles}

abbrev is_open_mark : Mark → Bool
is_open_mark unvisited = true
is_open_mark _ = false

abbrev pub open_nodes : List String → Marks → ℕ
open_nodes universe st = count (λ u. is_open_mark (mark_of st u)) universe

is_open_mark-eq : (m : Mark) → is_open_mark m ≡ true → m ≡ unvisited
is_open_mark-eq unvisited h = refl
is_open_mark-eq on_stack h = absurd (ground arith)
is_open_mark-eq done h = absurd (ground arith)

open_nodes_mono :
    (universe : List String) (old new : Marks)
    → ((x : String) → mark_of new x ≡ unvisited → mark_of old x ≡ unvisited)
    → open_nodes universe new ≤ open_nodes universe old
open_nodes_mono universe old new h =
    count_mono _ _ universe (λ u k. ap is_open_mark (h u (is_open_mark-eq (mark_of new u) k)))

push_opened :
    (id : String) (st : Marks) (x : String)
    → is_open_mark (mark_of ((id, on_stack) ∷ st) x) ≡ true
    → is_open_mark (mark_of st x) ≡ true
push_opened id st x h = ground arith

open_nodes_less :
    (universe : List String) (st : Marks) (id : String)
    → Memᴰ id universe
    → mark_of st id ≡ unvisited
    → open_nodes universe ((id, on_stack) ∷ st) < open_nodes universe st
open_nodes_less universe st id m fresh =
    count_strict _ _ (push_opened id st) m (ground (arith, text_eq_refl id)) (ap is_open_mark fresh)

module _ (entries : List (String × String)) (universe : List String)
    (closed : (x y : String) → Memᴰ y (peers_of entries x) → Memᴰ y universe) where
  visit_peers-ends :
      (fuel : ℕ) (f : String → Marks → Search) (path : List String)
      → Settles entries f
      → ((q : String) (st : Marks)
          → Memᴰ q universe
          → mark_of st q ≡ unvisited
          → open_nodes universe st ≤ fuel
          → f q st ≢ spent)
      → (qs : List String) (st : Marks) → ((q : String) → Memᴰ q qs → Memᴰ q universe)
      → open_nodes universe st ≤ fuel
      → visit_peers f path qs st ≢ spent
  visit_peers-ends fuel f path settles ends [] st sub h e = absurd (ground arith)
  visit_peers-ends fuel f path settles ends (q ∷ qs) st sub h e = elim (Mark-cases (mark_of st q)) [
    | inl fresh ↦ elim (Search-cases (f q st)) [
      | inl (mid, p) ↦
          visit_peers-ends fuel f path settles ends qs mid (λ x m. sub x (Memᴰ.tail m))
            (omega (arith, open_nodes_mono universe st mid (settles q st mid p).opened))
            (ground (arith, fresh, p))
      | inr (inl (c, p)) ↦ absurd (ground (arith, fresh, p))
      | inr (inr p) ↦ ends q st (sub q (Memᴰ.head refl)) fresh h p
    ]
    | inr (inl back) ↦ absurd (ground (arith, back))
    | inr (inr over) ↦
        visit_peers-ends fuel f path settles ends qs st (λ x m. sub x (Memᴰ.tail m)) h
          (ground (arith, over))
  ]

  visit_peer-ends :
      (fuel : ℕ) (path : List String) (id : String) (st : Marks)
      → Memᴰ id universe
      → mark_of st id ≡ unvisited
      → open_nodes universe st ≤ fuel
      → visit_peer fuel entries path id st ≢ spent
  unfolding visit_peer
  visit_peer-ends zero path id st m fresh h e =
      absurd (omega (arith, open_nodes_less universe st id m fresh))
  visit_peer-ends (suc fuel) path id st m fresh h e =
      elim (Search-cases (
        visit_peers (visit_peer fuel entries (id ∷ path)) (id ∷ path) (peers_of entries id)
          ((id, on_stack) ∷ st))) [
            | inl (mid, p) ↦ absurd (ground (arith, p))
            | inr (inl (c, p)) ↦ absurd (ground (arith, p))
            | inr (inr p) ↦
                visit_peers-ends fuel (visit_peer fuel entries (id ∷ path)) (id ∷ path)
                  (visit_peer-Settled entries fuel (id ∷ path)) (visit_peer-ends fuel (id ∷ path))
                  (peers_of entries id) ((id, on_stack) ∷ st) (closed id)
                  (omega (arith, open_nodes_less universe st id m fresh)) p
          ]

  search_rings-ends :
      (fuel : ℕ) (ids : List String) (st : Marks)
      → ((q : String) → Memᴰ q ids → Memᴰ q universe)
      → open_nodes universe st ≤ fuel
      → search_rings fuel entries ids st ≢ spent
  unfolding search_rings
  search_rings-ends fuel [] st sub h e = absurd (ground arith)
  search_rings-ends fuel (id ∷ ids) st sub h e = elim (Mark-cases (mark_of st id)) [
    | inl fresh ↦ elim (Search-cases (visit_peer fuel entries [] id st)) [
      | inl (mid, p) ↦
          search_rings-ends fuel ids mid (λ x m. sub x (Memᴰ.tail m))
            (omega (
              arith,
              open_nodes_mono universe st mid
                  (visit_peer-Settled entries fuel [] id st mid p).opened,
            ))
            (ground (arith, fresh, p))
      | inr (inl (c, p)) ↦ absurd (ground (arith, fresh, p))
      | inr (inr p) ↦ visit_peer-ends fuel [] id st (sub id (Memᴰ.head refl)) fresh h p
    ]
    | inr (inl back) ↦
        search_rings-ends fuel ids st (λ x m. sub x (Memᴰ.tail m)) h (ground (arith, back))
    | inr (inr over) ↦
        search_rings-ends fuel ids st (λ x m. sub x (Memᴰ.tail m)) h (ground (arith, over))
  ]

peers_of-universe :
    (ids : List String) (entries : List (String × String)) (x y : String)
    → Memᴰ y (peers_of entries x)
    → Memᴰ y (ids ++ map (λ e. e.1) entries)
peers_of-universe ids entries x y m =
    let (e, k, q) = mem-map_inv (λ (e : String × String). e.1) _ m in
    let (k', _) = mem-filterb (λ (e : String × String). text_eq e.0 x) entries k in
    rw q (Memᴰ.append_right ids (mem-map (λ (e : String × String). e.1) k'))

pub search_rings-ring_fuel :
    (ids : List String) (entries : List (String × String))
    → search_rings (ring_fuel ids entries) entries ids [] ≢ spent
search_rings-ring_fuel ids entries =
    let universe = ids ++ map (λ e. e.1) entries in
    search_rings-ends entries universe (peers_of-universe ids entries) (ring_fuel ids entries) ids
      [] (λ q m. Memᴰ.append_left (map (λ e. e.1) entries) m)
      (omega (arith, count-le-length (λ u. is_open_mark (mark_of [] u)) universe))
