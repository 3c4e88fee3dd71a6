-- ===== src/Plan/Validate/Admission.antt =====
-- What `validateDifferentFromAcyclic` of internal/plan/validate.go decides.
use radioactive_ralph.Prelude.{ℕ, ◌≡◌, subst, ◌⊎◌, inl, inr, String, List, [], ◌∷◌, Memᴰ, arith}
use mathlib.Core.List.{reverse}
use radioactive_ralph.Plan.{Step}
use radioactive_ralph.Plan.Validate.{
  ring, Marks, mark_of, clear, visit_peer, search_rings, ring_fuel, ids_of, all_peers, search_all,
  validate_different_from_acyclic,
}
use radioactive_ralph.Plan.Validate.Rings.{
  Mark-cases, Search-cases, Settled, visit_peer-Settled, finished, Ordered, Settled-none,
  Settled-then, Settled-again,
}
use radioactive_ralph.Plan.Validate.Found.{Needs, OnPath, search_rings-found}
use radioactive_ralph.Plan.Validate.Fuel.{search_rings-ring_fuel}

search_rings-Settled :
    (entries : List (String × String)) (fuel : ℕ) (ids : List String) (old new : Marks)
    → OnPath entries [] old
    → search_rings fuel entries ids old ≡ clear new
    → Settled entries old ids new
unfolding search_rings
search_rings-Settled entries fuel [] old new on e =
    let same : old ≡ new = ground arith in
    subst (Settled entries old []) same (Settled-none entries old)
search_rings-Settled entries fuel (id ∷ ids) old new on e = elim (Mark-cases (mark_of old id)) [
  | inl fresh ↦ elim (Search-cases (visit_peer fuel entries [] id old)) [
    | inl (mid, p) ↦
        let settled = visit_peer-Settled entries fuel [] id old mid p in
        Settled-then entries id ids old mid new settled (
          search_rings-Settled entries fuel ids mid new (λ x k. on x (settled.stacked x k))
            (ground (arith, fresh, p)))
    | inr (inl (c, p)) ↦ absurd (ground (arith, fresh, p))
    | inr (inr p) ↦ absurd (ground (arith, fresh, p))
  ]
  | inr (inl back) ↦ elim (on id back) [ ]
  | inr (inr over) ↦
      Settled-then entries id ids old old new (Settled-again entries id old over)
        (search_rings-Settled entries fuel ids old new on (ground (arith, over)))
]

-- An order in which every task of the plan has a place, and comes after each of its peers: the list
-- runs from the last task to the first.
abbrev pub Admissible : List (String × Step) → Type 0
Admissible steps =
    (order : List String) × Ordered (all_peers steps) order
    × ((id : String) → Memᴰ id (ids_of steps) → Memᴰ id order)

-- The check of the peers of `differentFrom` answers one of two ways. It finds nothing, and there is an
-- order of all tasks in which each task comes after every peer it names; or it reports one ring, and
-- some task needs itself along the peers.
pub validate_different_from_acyclic-decides :
    (steps : List (String × Step))
    → ((validate_different_from_acyclic steps ≡ []) × Admissible steps)
      ⊎ ((c : List String) × (validate_different_from_acyclic steps ≡ ring c ∷ [])
          × (x : String) × Needs (all_peers steps) x x)
unfolding validate_different_from_acyclic search_all
validate_different_from_acyclic-decides steps =
    let entries = all_peers steps in
    let ids = ids_of steps in
    let idle : OnPath entries [] [] = λ x h. absurd (ground arith) in
    elim (Search-cases (search_rings (ring_fuel ids entries) entries ids [])) [
      | inl (marks, p) ↦
          let settled = search_rings-Settled entries (ring_fuel ids entries) ids [] marks idle p in
          inl (ground (arith, p), (finished marks, settled.ordered tt, settled.reached))
      | inr (inl (c, p)) ↦
          let (x, w) = search_rings-found entries (ring_fuel ids entries) ids [] c idle p in
          inr (reverse c, ground (arith, p), x, w)
      | inr (inr p) ↦ absurd (search_rings-ring_fuel ids entries p)
    ]
