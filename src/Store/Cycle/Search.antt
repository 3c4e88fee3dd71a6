-- ===== src/Store/Cycle/Search.antt =====
-- The depth-first search of internal/store/tasks.go, and walks along the edges.
use radioactive_ralph.Prelude.{
  ℕ, zero, suc, ◌≡◌, ◌≢◌, refl, sym, String, true, false, List, [], ◌∷◌, any, any-witness, Memᴰ,
  ◌⊎◌, inl, inr, arith, Bool-cases, text_eq, text_eq_sound, text_eq_complete, ◌∙◌,
}
use radioactive_ralph.Store.Schema.{Dep}
use radioactive_ralph.Store.Cycle.{edges_from, Visit, found, out_of_fuel, clear, visit_all, visit}

-- The walks along the edges of one plan.
pub data Walk (deps : List Dep) (plan : String) : String → String → Type 0 where
  here : {a : String} → Walk deps plan a a
  step :
      {a b c : String} → Memᴰ b (edges_from deps plan a) → Walk deps plan b c → Walk deps plan a c

pub Visit-cases :
    (v : Visit) → ((l : List String) × (v ≡ clear l)) ⊎ ((v ≡ found) ⊎ (v ≡ out_of_fuel))
Visit-cases (clear l) = inl (l, refl)
Visit-cases found = inr (inl refl)
Visit-cases out_of_fuel = inr (inr refl)

mem_of_any : (n : String) (xs : List String) → any (text_eq n) xs ≡ true → Memᴰ n xs
mem_of_any n xs h = let (x, m, e) = any-witness (text_eq n) xs h in rw (text_eq_sound e) m

false_of_eq : (a b : String) → a ≡ b → text_eq a b ≡ false → ⊥
false_of_eq a b e h = ground (arith, text_eq_complete e)

module _ (deps : List Dep) (plan task : String) where
  -- What a search for `task` from `ns` leaves: nodes that were visited before, and nodes that are
  -- not the task and whose successors were visited too.
  pub record Cleared (old ns new : List String) : Type 0 where
    pub kept : (x : String) → Memᴰ x old → Memᴰ x new
    pub reached : (x : String) → Memᴰ x ns → Memᴰ x new
    pub closed :
        (x : String)
        → Memᴰ x new
        → Memᴰ x old ⊎ ((x ≢ task) × ((y : String) → Memᴰ y (edges_from deps plan x) → Memᴰ y new))

  abbrev pub Clears : (String → List String → Visit) → Type 0
  Clears f = (n : String) (old new : List String) → f n old ≡ clear new → Cleared old (n ∷ []) new

  Cleared-then :
      (n : String) (ns old mid new : List String)
      → Cleared old (n ∷ []) mid
      → Cleared mid ns new
      → Cleared old (n ∷ ns) new
  Cleared-then n ns old mid new a b = record {
    kept = λ x m. b.kept x (a.kept x m);
    reached = λ x m. reach x m;
    closed = λ x m. elim (b.closed x m) [
      | inr done ↦ inr done
      | inl before ↦ elim (a.closed x before) [
        | inl older ↦ inl older
        | inr (other, succ) ↦ inr (other, λ y e. b.kept y (succ y e))
      ]
    ];
  }
    where
      reach : (x : String) → Memᴰ x (n ∷ ns) → Memᴰ x new
      reach x (Memᴰ.head e) = b.kept x (a.reached x (Memᴰ.head e))
      reach x (Memᴰ.tail m) = b.reached x m

  visit_all-Cleared :
      (f : String → List String → Visit)
      → Clears f
      → (ns old new : List String) → visit_all f ns old ≡ clear new
      → Cleared old ns new
  visit_all-Cleared f spec [] old new e =
      let same : old ≡ new = ground arith in
      record {
        kept = λ x m. rw (← same) m;
        reached = λ x m. elim m [ ];
        closed = λ x m. inl (rw same m);
      }
  visit_all-Cleared f spec (n ∷ ns) old new e = elim (Visit-cases (f n old)) [
    | inl (mid, p) ↦
        Cleared-then n ns old mid new (spec n old mid p)
          (visit_all-Cleared f spec ns mid new (rw (p, visit_all) at e))
    | inr (inl p) ↦ absurd (ground (arith, p))
    | inr (inr p) ↦ absurd (ground (arith, p))
  ]

  -- A node that was visited before clears nothing new.
  Cleared-again : (n : String) (old : List String) → Memᴰ n old → Cleared old (n ∷ []) old
  Cleared-again n old m = record {
    kept = λ x k. k;
    reached = λ x k. only x k;
    closed = λ x k. inl k;
  }
    where
      only : (x : String) → Memᴰ x (n ∷ []) → Memᴰ x old
      only x (Memᴰ.head e) = rw e m
      only x (Memᴰ.tail k) = elim k [ ]

  -- A node that is not the task, after its successors.
  Cleared-deeper :
      (n : String) (old new : List String)
      → n ≢ task
      → Cleared (n ∷ old) (edges_from deps plan n) new
      → Cleared old (n ∷ []) new
  Cleared-deeper n old new other c = record {
    kept = λ x m. c.kept x (Memᴰ.tail m);
    reached = λ x m. only x m;
    closed = λ x m. elim (c.closed x m) [ inr done ↦ inr done | inl before ↦ split x before ];
  }
    where
      only : (x : String) → Memᴰ x (n ∷ []) → Memᴰ x new
      only x (Memᴰ.head e) = c.kept x (Memᴰ.head e)
      only x (Memᴰ.tail k) = elim k [ ]

      split :
          (x : String)
          → Memᴰ x (n ∷ old)
          → Memᴰ x old
            ⊎ ((x ≢ task) × ((y : String) → Memᴰ y (edges_from deps plan x) → Memᴰ y new))
      split x (Memᴰ.head e) = inr (λ q. other (sym e ∙ q), λ y k. c.reached y (rw e at k))
      split x (Memᴰ.tail k) = inl k

  pub visit-Cleared : (fuel : ℕ) → Clears (visit fuel deps plan task)
  unfolding visit
  visit-Cleared zero n old new e = absurd (ground arith)
  visit-Cleared (suc fuel) n old new e = elim (Bool-cases (text_eq n task)) [
    | inl at ↦ absurd (ground (arith, at))
    | inr away ↦ elim (Bool-cases (any (text_eq n) old)) [
      | inl seen ↦
          let same : old ≡ new = ground (arith, away, seen) in
          rw (← same) (Cleared-again n old (mem_of_any n old seen))
      | inr fresh ↦
          Cleared-deeper n old new (λ q. false_of_eq n task q away)
            (visit_all-Cleared (visit fuel deps plan task) (visit-Cleared fuel)
              (edges_from deps plan n) (n ∷ old) new (ground (arith, away, fresh)))
    ]
  ]

  -- A search that ends at the task has walked there.
  visit_all-found :
      (f : String → List String → Visit)
      → ((n : String) (old : List String) → f n old ≡ found → Walk deps plan n task)
      → (ns old : List String) → visit_all f ns old ≡ found
      → (n : String) × Memᴰ n ns × Walk deps plan n task
  visit_all-found f spec [] old e = absurd (ground arith)
  visit_all-found f spec (n ∷ ns) old e = elim (Visit-cases (f n old)) [
    | inl (mid, p) ↦
        let (m, k, w) = visit_all-found f spec ns mid (rw (p, visit_all) at e) in
        (m, Memᴰ.tail k, w)
    | inr (inl p) ↦ (n, Memᴰ.head refl, spec n old p)
    | inr (inr p) ↦ absurd (ground (arith, p))
  ]

  pub visit-found :
      (fuel : ℕ) (n : String) (old : List String)
      → visit fuel deps plan task n old ≡ found
      → Walk deps plan n task
  unfolding visit
  visit-found zero n old e = absurd (ground arith)
  visit-found (suc fuel) n old e = elim (Bool-cases (text_eq n task)) [
    | inl at ↦ rw (text_eq_sound at) here
    | inr away ↦ elim (Bool-cases (any (text_eq n) old)) [
      | inl seen ↦ absurd (ground (arith, away, seen))
      | inr fresh ↦
          let (m, k, w) =
            visit_all-found (visit fuel deps plan task) (visit-found fuel) (edges_from deps plan n)
              (n ∷ old) (ground (arith, away, fresh)) in
          step k w
    ]
  ]

  -- Nothing outside the visited nodes can be reached from them.
  Cleared-Walk :
      {a b : String} {new : List String} {ns : List String}
      → Cleared [] ns new
      → Memᴰ a new
      → Walk deps plan a b
      → Memᴰ b new × (b ≢ task)
  Cleared-Walk c m here = elim (c.closed _ m) [
    | inl k ↦ elim k [ ]
    | inr (other, succ) ↦ (m, other)
  ]
  Cleared-Walk c m (step e w) = elim (c.closed _ m) [
    | inl k ↦ elim k [ ]
    | inr (other, succ) ↦ Cleared-Walk c (succ _ e) w
  ]

  pub visit-clear-no-Walk :
      (fuel : ℕ) (n : String) {new : List String}
      → visit fuel deps plan task n [] ≡ clear new
      → ¬ Walk deps plan n task
  visit-clear-no-Walk fuel n {new} e w =
      let c = visit-Cleared fuel n [] new e in
      (Cleared-Walk c (c.reached n (Memᴰ.head refl)) w).1 refl
