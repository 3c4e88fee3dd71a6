-- ===== src/Orch/Spend/Turns.antt =====
-- The turns of providers, as the orchestrator drives them through internal/orch/spend.go, and what
-- each call of it does.
use radioactive_ralph.Prelude.{
  ℕ, ◌+◌, ◌≤◌, ◌<◌, ◌≡◌, String, true, false, Bool-cases, ◌∷◌, ◌⊎◌, inl, inr, ltb, leb, text_eq,
  text_eq_refl, arith,
}
use radioactive_ralph.Orch.Spend.{
  Ledger, admitted, project_spend, cap_of, spend_key, set_at, check_spend_cap,
  release_spend_reservation, record_usage,
}
use radioactive_ralph.Orch.Spend.Keys.{is_plain}

abbrev pub in_flight_of : String → String → Ledger → ℕ
in_flight_of project provider l = l.in_flight (spend_key project provider)

abbrev pub spent_of : String → String → Ledger → ℕ
spent_of project provider l = project_spend l.rows project provider

-- The life of a turn, as the orchestrator drives it: admitted, then settled with a cost of at most
-- `most` and released, or abandoned and released. A project id has no separator in it.
pub data Turn (most : ℕ) : Ledger → Ledger → Type 0 where
  admit :
      (project provider : String) {l after : Ledger}
      → is_plain project ≡ true
      → check_spend_cap project provider l ≡ admitted after
      → Turn most l after
  settle :
      (project provider : String) (cost : ℕ) {l mid : Ledger}
      → is_plain project ≡ true
      → ltb 0 (in_flight_of project provider l) ≡ true
      → cost ≤ most
      → record_usage project provider cost l ≡ admitted mid
      → Turn most l (release_spend_reservation project provider mid)
  settle_uncapped :
      (project provider : String) (cost : ℕ) {l mid : Ledger}
      → leb (cap_of l provider) 0 ≡ true
      → record_usage project provider cost l ≡ admitted mid
      → Turn most l (release_spend_reservation project provider mid)
  abandon :
      (project provider : String) {l : Ledger}
      → is_plain project ≡ true
      → ltb 0 (in_flight_of project provider l) ≡ true
      → Turn most l (release_spend_reservation project provider l)

pub data Turns (most : ℕ) : Ledger → Ledger → Type 0 where
  idle : {l : Ledger} → Turns most l l
  next_turn : {l mid end : Ledger} → Turn most l mid → Turns most mid end → Turns most l end

-- At most one turn is in flight, and none is but below the cap; what is spent stays below the cap
-- with one turn's cost on top.
abbrev pub Bounded : ℕ → ℕ → String → String → Ledger → Type 0
Bounded most cap project provider l =
    (cap_of l provider ≡ cap)
    × ((in_flight_of project provider l ≡ 0)
        ⊎ ((in_flight_of project provider l ≡ 1) × (spent_of project provider l < cap)))
    × (spent_of project provider l < cap + most)

-- What a check that admits does.
pub check-cases :
    (project provider : String) (l after : Ledger)
    → check_spend_cap project provider l ≡ admitted after
    → (l ≡ after)
      ⊎ ((in_flight_of project provider l ≡ 0)
          × (spent_of project provider l < cap_of l provider)
          × (record l {
            in_flight =
                set_at
                  (spend_key project provider)
                  (in_flight_of project provider l + 1)
                  l.in_flight;
          }
              ≡ after))
unfolding check_spend_cap
check-cases project provider l after e = elim (Bool-cases (leb (cap_of l provider) 0)) [
  | inl free ↦ inl (ground (arith, free, e))
  | inr capped ↦ elim (Bool-cases (ltb 0 (l.in_flight (spend_key project provider)))) [
    | inl busy ↦ absurd (ground (arith, capped, busy))
    | inr quiet ↦
        elim (Bool-cases (leb (cap_of l provider) (project_spend l.rows project provider))) [
          | inl over ↦ absurd (ground (arith, capped, quiet, over))
          | inr under ↦ inr (
            ground (arith, quiet),
            ground (arith, under),
            ground (arith, capped, quiet, under, e),
          )
        ]
  ]
]

pub set_at-same : (key : String) (n : ℕ) (counts : String → ℕ) → set_at key n counts key ≡ n
set_at-same key n counts = ground (arith, text_eq_refl key)

pub set_at-other :
    (key k : String) (n : ℕ) (counts : String → ℕ)
    → text_eq k key ≡ false
    → set_at key n counts k ≡ counts k
set_at-other key k n counts h = ground (arith, h)

abbrev pub recorded : String → String → ℕ → Ledger → Ledger
recorded project provider cost l = record l {
  rows = record { project = project; provider = provider; cost = cost } ∷ l.rows;
}

pub record_usage-ok :
    (project provider : String) (cost : ℕ) (l mid : Ledger)
    → record_usage project provider cost l ≡ admitted mid
    → recorded project provider cost l ≡ mid
unfolding record_usage
record_usage-ok project provider cost l mid e = ground (arith, e)
