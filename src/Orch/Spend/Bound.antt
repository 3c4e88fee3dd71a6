-- ===== src/Orch/Spend/Bound.antt =====
-- The spend cap of internal/orch/spend.go and what a capped provider may cost a project.
use radioactive_ralph.Prelude.{
  ℕ, ◌+◌, ◌≤◌, ◌<◌, ◌≡◌, refl, sym, ap, subst, String, true, false, ◌&&◌, &&_true, Bool-cases, ◌⊎◌,
  inl, inr, ltb, leb, text_eq, text_eq_sound, text_eq_refl, text_eq_complete, arith,
}
use radioactive_ralph.Orch.Spend.{
  Ledger, admitted, cap_of, spend_key, set_at, check_spend_cap, release_spend_reservation,
  record_usage,
}
use radioactive_ralph.Orch.Spend.Keys.{is_plain, spend_key_injective}
use radioactive_ralph.Orch.Spend.Turns.{
  in_flight_of, spent_of, Turn, Turns, Bounded, check-cases, recorded, record_usage-ok,
}

module _ (most cap : ℕ) (project provider : String) (capped : 0 < cap)
    (plain : is_plain project ≡ true) where
  abbrev key : String
  key = spend_key project provider

  -- The pair of another call with the same key is this pair.
  same_pair :
      (p v : String)
      → is_plain p ≡ true
      → text_eq key (spend_key p v) ≡ true
      → (project ≡ p) × (provider ≡ v)
  same_pair p v h e = spend_key_injective project p provider v plain h (text_eq_sound e)

  admit-Bounded :
      (p v : String) (l after : Ledger)
      → is_plain p ≡ true
      → check_spend_cap p v l ≡ admitted after
      → Bounded most cap project provider l
      → Bounded most cap project provider after
  admit-Bounded p v l after h e (same_cap, turns, bound) = elim (check-cases p v l after e) [
    | inl same ↦ subst (Bounded most cap project provider) {y = after} same (same_cap, turns, bound)
    | inr (quiet, under, same) ↦
        subst (Bounded most cap project provider) {y = after} same
          (elim (Bool-cases (text_eq key (spend_key p v))) [
            | inl mine ↦
                let (a, b) = same_pair p v h mine in
                let one : set_at (spend_key p v) (in_flight_of p v l + 1) l.in_flight key ≡ 1 =
                  ground (arith, mine, quiet) in
                let under' : spent_of project provider l < cap_of l provider = rw (a, b) under in
                (same_cap, inr (one, ground (arith, under', same_cap)), bound)
            | inr other ↦ (same_cap, ground (arith, other, turns), bound)
          ])
  ]

  -- A release keeps the bounds, whatever pair it names.
  release-Bounded :
      (p v : String) (l : Ledger)
      → is_plain p ≡ true
      → Bounded most cap project provider l
      → Bounded most cap project provider (release_spend_reservation p v l)
  unfolding release_spend_reservation
  release-Bounded p v l h (same_cap, turns, bound) = elim (Bool-cases (leb (cap_of l v) 0)) [
    | inl free ↦ rw (release_spend_reservation, free) (same_cap, turns, bound)
    | inr held ↦ elim (Bool-cases (ltb 0 (l.in_flight (spend_key p v)))) [
      | inr none_left ↦ rw (release_spend_reservation, held, none_left) (same_cap, turns, bound)
      | inl some_left ↦
          rw (release_spend_reservation, held, some_left)
            (
              same_cap,
              elim (Bool-cases (text_eq key (spend_key p v))) [
                | inl mine ↦
                    let one = ap l.in_flight (text_eq_sound mine) in
                    inl (ground (arith, mine, one, turns))
                | inr other ↦ ground (arith, other, turns)
              ],
              bound,
            )
    ]
  ]

  -- A turn of this pair that is settled and released.
  settle_same :
      (cost : ℕ) (l : Ledger)
      → ltb 0 (l.in_flight key) ≡ true
      → cost ≤ most
      → Bounded most cap project provider l
      → Bounded most cap project provider
          (release_spend_reservation project provider (recorded project provider cost l))
  unfolding release_spend_reservation
  settle_same cost l busy small (same_cap, turns, bound) =
      let held : leb (cap_of l provider) 0 ≡ false = ground (arith, same_cap, capped) in
      let (one, under) = in_turn turns in
      rw (release_spend_reservation, held, busy)
        (
          same_cap,
          inl (ground (arith, text_eq_refl key, one)),
          ground (arith, text_eq_refl project, text_eq_refl provider, under, small),
        )
    where
      in_turn :
          (l.in_flight key ≡ 0) ⊎ ((l.in_flight key ≡ 1) × (spent_of project provider l < cap))
          → (l.in_flight key ≡ 1) × (spent_of project provider l < cap)
      in_turn (inl free) = absurd (ground (arith, busy, free))
      in_turn (inr turn) = turn

  -- A row of another pair.
  record_other :
      (p v : String) (cost : ℕ) (l : Ledger)
      → (text_eq p project && text_eq v provider) ≡ false
      → Bounded most cap project provider l
      → Bounded most cap project provider (recorded p v cost l)
  record_other p v cost l other (same_cap, turns, bound) =
      let same : spent_of project provider (recorded p v cost l) ≡ spent_of project provider l =
        ground (arith, other) in
      (same_cap, rw same turns, rw same bound)

  other_pair :
      (p v : String)
      → text_eq key (spend_key p v) ≡ false
      → (text_eq p project && text_eq v provider) ≡ false
  other_pair p v other = elim (Bool-cases (text_eq p project && text_eq v provider)) [
    | inr e ↦ e
    | inl e ↦
        let (a, b) = &&_true _ _ e in
        let same : key ≡ spend_key p v =
          rw (text_eq_sound {s = p} {t = project} a, text_eq_sound {s = v} {t = provider} b) refl in
        absurd (ground (arith, other, text_eq_complete same))
  ]

  settle-Bounded :
      (p v : String) (cost : ℕ) (l mid : Ledger)
      → is_plain p ≡ true
      → ltb 0 (in_flight_of p v l) ≡ true
      → cost ≤ most
      → record_usage p v cost l ≡ admitted mid
      → Bounded most cap project provider l
      → Bounded most cap project provider (release_spend_reservation p v mid)
  settle-Bounded p v cost l mid h busy small e bounded =
      subst (λ m. Bounded most cap project provider (release_spend_reservation p v m)) {y = mid}
        (record_usage-ok p v cost l mid e)
        (elim (Bool-cases (text_eq key (spend_key p v))) [
          | inl mine ↦
              let (a, b) = same_pair p v h mine in
              rw (sym a, sym b) (settle_same cost l (rw (a, b) busy) small bounded)
          | inr other ↦
              release-Bounded p v (recorded p v cost l) h
                (record_other p v cost l (other_pair p v other) bounded)
        ])

  settle_uncapped-Bounded :
      (p v : String) (cost : ℕ) (l mid : Ledger)
      → leb (cap_of l v) 0 ≡ true
      → record_usage p v cost l ≡ admitted mid
      → Bounded most cap project provider l
      → Bounded most cap project provider (release_spend_reservation p v mid)
  unfolding release_spend_reservation
  settle_uncapped-Bounded p v cost l mid free e (same_cap, turns, bound) =
      subst (λ m. Bounded most cap project provider (release_spend_reservation p v m)) {y = mid}
        (record_usage-ok p v cost l mid e)
        (rw (release_spend_reservation, free)
          (record_other p v cost l unlike (same_cap, turns, bound)))
    where
      unlike : (text_eq p project && text_eq v provider) ≡ false
      unlike = elim (Bool-cases (text_eq p project && text_eq v provider)) [
        | inr q ↦ q
        | inl q ↦
            let same = ap (cap_of l) (text_eq_sound (&&_true (text_eq p project) _ q).1) in
            absurd (ground (arith, free, same, same_cap, capped))
      ]

  Turn-Bounded :
      (l end : Ledger)
      → Turn most l end
      → Bounded most cap project provider l
      → Bounded most cap project provider end
  Turn-Bounded l end (Turn.admit p v h e) b = admit-Bounded p v l end h e b
  Turn-Bounded l end (Turn.settle p v cost {mid} h busy small e) b =
      settle-Bounded p v cost l mid h busy small e b
  Turn-Bounded l end (Turn.settle_uncapped p v cost {mid} free e) b =
      settle_uncapped-Bounded p v cost l mid free e b
  Turn-Bounded l end (Turn.abandon p v h busy) b = release-Bounded p v l h b

  -- However turns of any projects and providers interleave, a project with a plain id has at most one
  -- turn in flight with a capped provider, and has spent less on it than the cap and the cost of one
  -- turn, if this held at the start and no turn costs more than `most`.
  pub Turns-Bounded :
      (l end : Ledger)
      → Turns most l end
      → Bounded most cap project provider l
      → Bounded most cap project provider end
  Turns-Bounded l end Turns.idle b = b
  Turns-Bounded l end (Turns.next_turn {mid} t ts) b =
      Turns-Bounded mid end ts (Turn-Bounded l mid t b)
