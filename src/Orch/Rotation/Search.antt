-- ===== src/Orch/Rotation/Search.antt =====
-- What the rotation of internal/orch/orchestrator.go finds.
use radioactive_ralph.Prelude.{
  ℕ, zero, suc, ◌+◌, ◌≤◌, ◌<◌, ◌≡◌, refl, ap, ◌∙◌, String, Bool, true, false, Option, some,
  Option-cases, List, ◌∷◌, Bool-cases, inl, inr, any, ltb, ltb→lt, text_eq, arith,
}
use radioactive_ralph.Orch.Rotation.{Binding, Choice, chosen, refused, Refusal, rotate}

-- The two ends of a choice: a binding that the predicate holds of, or a refusal.
abbrev pub Satisfies : (Binding → Type 0) → Choice → Type 0
Satisfies P (chosen b) = P b
Satisfies P (refused r) = Unit {0}

module _ (resolve : ℕ → Option Binding × ℕ) (accepts : Binding → Bool) (otherwise : Refusal) where
  -- A candidate that is not accepted and has a new name is followed by the next answer.
  rotate-next :
      (fuel : ℕ) (seen : List String) (b next : Binding) (cursor after : ℕ)
      → accepts b ≡ false
      → any (text_eq b.name) seen ≡ false
      → resolve cursor ≡ (some next, after)
      → rotate resolve accepts otherwise (suc fuel) seen b cursor
        ≡ rotate resolve accepts otherwise fuel (b.name ∷ seen) next after
  unfolding rotate
  rotate-next fuel seen b next cursor after not_b new e =
      rw (not_b, new, ap (λ r. r.0) e)
        (ap
          (λ (r : Option Binding × ℕ).
            rotate resolve accepts otherwise fuel (b.name ∷ seen) next (r.1))
          e)

  pub rotate-Satisfies :
      (Q : Binding → Type 0)
      → ((k : ℕ) (next : Binding) → (resolve k).0 ≡ some next → Q next)
      → (fuel : ℕ) (seen : List String) (b : Binding) (cursor : ℕ) → Q b
      → Satisfies
          (λ x. (accepts x ≡ true) × Q x)
          ((rotate resolve accepts otherwise fuel seen b cursor).0)
  unfolding rotate
  rotate-Satisfies Q answers zero seen b cursor q = tt
  rotate-Satisfies Q answers (suc fuel) seen b cursor q = elim (Bool-cases (accepts b)) [
    | inl yes_b ↦ rw yes_b (yes_b, q)
    | inr not_b ↦ elim (Bool-cases (any (text_eq b.name) seen)) [
      | inl wrapped ↦ rw (not_b, wrapped) tt
      | inr new ↦ elim (Option-cases ((resolve cursor).0)) [
        | inl e ↦ rw (not_b, new, e) tt
        | inr (next, e) ↦
            rw (not_b, new, e)
              (rotate-Satisfies Q answers fuel (b.name ∷ seen) next ((resolve cursor).1)
                (answers cursor next e))
      ]
    ]
  ]

  -- Over answers with different names from `cursor` up to `end`, the rotation finds an accepted
  -- one that stands within its fuel.
  module _ (answer : ℕ → Binding) (end : ℕ) where
    abbrev Answers : ℕ → Type 0
    Answers k = (p : ℕ) → k ≤ p → p < end → resolve p ≡ (some (answer p), suc p)

    abbrev Fresh : ℕ → List String → Type 0
    Fresh k seen = (p : ℕ) → k ≤ p → p < end → any (text_eq (answer p).name) seen ≡ false

    abbrev Different : ℕ → Type 0
    Different k =
        (p q : ℕ) → k ≤ p → p < q → q < end → text_eq (answer q).name (answer p).name ≡ false

    later_than : (k j : ℕ) → k ≤ j → accepts (answer j) ≡ true → accepts (answer k) ≡ false → k < j
    later_than k j low yes_j not_k = elim (Bool-cases (ltb k j)) [
      | inl past ↦ ltb→lt k j past
      | inr same ↦
          let e : k ≡ j = ground (arith, same, low) in
          absurd (ground (arith, yes_j, not_k, ap (λ i. accepts (answer i)) e))
    ]

    pub rotate-finds :
        (fuel : ℕ) (seen : List String) (k j : ℕ)
        → Answers k
        → Fresh k seen
        → Different k
        → k ≤ j
        → j < end
        → j < k + fuel
        → accepts (answer j) ≡ true
        → (b : Binding) × (rotate resolve accepts otherwise fuel seen (answer k) (suc k)).0
            ≡ chosen b
    unfolding rotate
    rotate-finds zero seen k j answers fresh differ low high near yes_j =
        absurd (omega (arith, low, near))
    rotate-finds (suc fuel) seen k j answers fresh differ low high near yes_j =
        elim (Bool-cases (accepts (answer k))) [
          | inl yes_k ↦ (answer k, rw yes_k refl)
          | inr not_k ↦
              let past = later_than k j low yes_j not_k in
              let first =
                rotate-next fuel seen (answer k) (answer (suc k)) (suc k) (suc (suc k)) not_k
                  (fresh k (omega arith) (omega (arith, low, high)))
                  (answers (suc k) (omega arith) (omega (arith, past, high))) in
              let (b, found) =
                rotate-finds fuel ((answer k).name ∷ seen) (suc k) j
                  (λ p above. answers p (omega (arith, above)))
                  (λ p above below. ground (
                    arith,
                    fresh p (omega (arith, above)) below,
                    differ k p (omega arith) (omega (arith, above)) below,
                  ))
                  (λ p q above. differ p q (omega (arith, above))) (omega (arith, past)) high
                  (omega (arith, near)) yes_j in
              (b, ap (λ r. r.0) first ∙ found)
        ]
