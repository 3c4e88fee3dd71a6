-- ===== src/Store/Cycle/Fuel.antt =====
-- The cycle check of internal/store/tasks.go and its fuel.
use radioactive_ralph.Prelude.{
  ℕ, zero, suc, ◌≤◌, ◌<◌, ◌≡◌, ◌≢◌, refl, String, false, not, ◌&&◌, List, [], ◌∷◌, map, any,
  any-intro, count, count_mono, count_strict, count-le-length, length-map, mem-map, mem-map_inv,
  mem-filterb, Memᴰ, inl, inr, arith, Bool-cases, text_eq, text_eq_complete,
}
use radioactive_ralph.Store.Schema.{Dep}
use radioactive_ralph.Store.Cycle.{edges_from, Visit, out_of_fuel, visit_all, visit, cycle_fuel}
use radioactive_ralph.Store.Cycle.Search.{Clears, Visit-cases, visit-Cleared}

abbrev unvisited : List String → List String → ℕ
unvisited universe visited = count (λ u. not (any (text_eq u) visited)) universe

any_mono :
    (u : String) (old new : List String)
    → ((x : String) → Memᴰ x old → Memᴰ x new)
    → any (text_eq u) new ≡ false
    → any (text_eq u) old ≡ false
any_mono u [] new h k = refl
any_mono u (x ∷ old) new h k = elim (Bool-cases (text_eq u x)) [
  | inl e ↦ absurd (ground (arith, any-intro (text_eq u) (h x (Memᴰ.head refl)) e))
  | inr e ↦ ground (arith, e, any_mono u old new (λ y m. h y (Memᴰ.tail m)) k)
]

unvisited_mono :
    (universe old new : List String)
    → ((x : String) → Memᴰ x old → Memᴰ x new)
    → unvisited universe new ≤ unvisited universe old
unvisited_mono universe old new h =
    count_mono _ _ universe (λ u k. ground (arith, any_mono u old new h))

unvisited_less :
    (universe old : List String) (n : String)
    → Memᴰ n universe
    → any (text_eq n) old ≡ false
    → unvisited universe (n ∷ old) < unvisited universe old
unvisited_less universe old n m fresh =
    count_strict _ _ (λ y k. ground arith) m (ground (arith, text_eq_complete {s = n} {t = n} refl))
      (ground (arith, fresh))

module _ (deps : List Dep) (plan task : String) (universe : List String)
    (closed : (x y : String) → Memᴰ y (edges_from deps plan x) → Memᴰ y universe) where
  visit_all-ends :
      (fuel : ℕ) (f : String → List String → Visit)
      → Clears deps plan task f
      → ((n : String) (old : List String)
          → Memᴰ n universe
          → unvisited universe old < fuel
          → f n old ≢ out_of_fuel)
      → (ns old : List String) → ((n : String) → Memᴰ n ns → Memᴰ n universe)
      → unvisited universe old < fuel
      → visit_all f ns old ≢ out_of_fuel
  visit_all-ends fuel f clears ends [] old inside h e = cc
  visit_all-ends fuel f clears ends (n ∷ ns) old inside h e = elim (Visit-cases (f n old)) [
    | inl (mid, p) ↦
        let fewer = unvisited_mono universe old mid (clears n old mid p).kept in
        visit_all-ends fuel f clears ends ns mid (λ m k. inside m (Memᴰ.tail k))
          (omega (arith, fewer)) (rw (p, visit_all) at e)
    | inr (inl p) ↦ absurd (ground (arith, p))
    | inr (inr p) ↦ ends n old (inside n (Memᴰ.head refl)) h p
  ]

  visit-ends :
      (fuel : ℕ) (n : String) (old : List String)
      → Memᴰ n universe
      → unvisited universe old < fuel
      → visit fuel deps plan task n old ≢ out_of_fuel
  unfolding visit
  visit-ends zero n old m h e = elim h [ ]
  visit-ends (suc fuel) n old m h e = elim (Bool-cases (text_eq n task)) [
    | inl at ↦ absurd (ground (arith, at))
    | inr away ↦ elim (Bool-cases (any (text_eq n) old)) [
      | inl seen ↦ absurd (ground (arith, away, seen))
      | inr fresh ↦
          visit_all-ends fuel (visit fuel deps plan task) (visit-Cleared deps plan task fuel)
            (visit-ends fuel) (edges_from deps plan n) (n ∷ old) (closed n)
            (omega (arith, unvisited_less universe old n m fresh)) (ground (arith, away, fresh))
    ]
  ]

abbrev targets : List Dep → String → List String
targets deps dep = dep ∷ map (λ d. d.depends_on) deps

edges_from-targets :
    (deps : List Dep) (plan dep x y : String)
    → Memᴰ y (edges_from deps plan x)
    → Memᴰ y (targets deps dep)
edges_from-targets deps plan dep x y m =
    let (d, k, e) = mem-map_inv (λ (d : Dep). d.depends_on) _ m in
    let (k', _) = mem-filterb (λ (d : Dep). text_eq d.plan_id plan && text_eq d.task_id x) deps k in
    rw e (Memᴰ.tail (mem-map (λ (d : Dep). d.depends_on) k'))

pub visit-cycle_fuel :
    (deps : List Dep) (plan task dep : String)
    → visit (cycle_fuel deps) deps plan task dep [] ≢ out_of_fuel
visit-cycle_fuel deps plan task dep =
    let u = targets deps dep in
    visit-ends deps plan task u (edges_from-targets deps plan dep) (cycle_fuel deps) dep []
      (Memᴰ.head refl)
      (omega (
        arith,
        count-le-length (λ x. not (any (text_eq x) [])) u,
        length-map (λ (d : Dep). d.depends_on) deps,
      ))
