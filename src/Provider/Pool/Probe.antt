-- ===== src/Provider/Pool/Probe.antt =====
-- The choice of `storeBindingResolver` of cmd/radioactive_ralph/binding_resolver.go where all the
-- configured providers cool down, and `EarliestExpiry` of provider_cooldowns.go.
use native.Mathlib.Nat.{mod-one}
use radioactive_ralph.Prelude.{
  ℕ, ◌≤◌, ◌<◌, ◌≡◌, refl, sym, ap, ◌∙◌, String, true, false, not, ◌&&◌, ◌||◌, List, [], ◌∷◌, Memᴰ,
  Bool-cases, inl, inr, ltb, length, is_nil, all, all-mem, text_eq, arith,
}
use radioactive_ralph.Provider.Cooldowns.{
  ProviderCooldowns, CooldownEntry, is_cooling, is_entry_of, active, scan_earliest, earliest_expiry,
}
use radioactive_ralph.Provider.Pool.{
  Purpose, Candidates, is_cooled, free_names, filter_cooled, pick_name, select_provider,
}
use radioactive_ralph.Provider.Pool.Selection.{any-nonempty}

-- An entry that cools down, and none that cools down ends before it.
abbrev pub Soonest : ℕ → ProviderCooldowns → CooldownEntry → Type 0
Soonest now c e =
    Memᴰ e c
    × (is_cooling now e ≡ true)
    × ((other : CooldownEntry)
        → Memᴰ other c
        → is_cooling now other ≡ true
        → e.expiry ≤ other.expiry)

wider :
    (now : ℕ) {e x : CooldownEntry} {c : ProviderCooldowns}
    → Soonest now c e
    → (is_cooling now x ≡ true → e.expiry ≤ x.expiry)
    → Soonest now (x ∷ c) e
wider now {e} {x} {c} (m, cools, least) bound = (
  Memᴰ.tail m,
  cools,
  λ other m' cools'. elim m' [
    | Memᴰ.head same ↦ rw same (bound (ap (is_cooling now) (sym same) ∙ cools'))
    | Memᴰ.tail rest ↦ least other rest cools'
  ],
)

inserted :
    (now : ℕ) {e x y : CooldownEntry} {c : ProviderCooldowns}
    → Soonest now (e ∷ c) x
    → (is_cooling now y ≡ true → x.expiry ≤ y.expiry)
    → Soonest now (e ∷ y ∷ c) x
inserted now {e} {x} {y} {c} (m, cools, least) bound = (
  elim m [ Memᴰ.head same ↦ Memᴰ.head same | Memᴰ.tail rest ↦ Memᴰ.tail (Memᴰ.tail rest) ],
  cools,
  λ other m' cools'. elim m' [
    | Memᴰ.head same ↦ least other (Memᴰ.head same) cools'
    | Memᴰ.tail rest ↦ elim rest [
      | Memᴰ.head same ↦ rw same (bound (ap (is_cooling now) (sym same) ∙ cools'))
      | Memᴰ.tail deep ↦ least other (Memᴰ.tail deep) cools'
    ]
  ],
)

scan_earliest_from :
    (now : ℕ) (e : CooldownEntry) (c : ProviderCooldowns)
    → is_cooling now e ≡ true
    → text_eq e.provider "" ≡ false
    → all (λ x. not (text_eq x.provider "")) c ≡ true
    → (x : CooldownEntry) × Soonest now (e ∷ c) x
      × (scan_earliest now e.provider e.expiry c ≡ x.provider)
unfolding scan_earliest
scan_earliest_from now e [] cools named all_named = (
  e,
  (
    Memᴰ.head refl,
    cools,
    λ other m cools'. elim m [
      | Memᴰ.head same ↦ rw same (omega arith)
      | Memᴰ.tail rest ↦ elim rest [ ]
    ],
  ),
  refl,
)
scan_earliest_from now e (y ∷ c) cools named all_named =
    elim (Bool-cases (is_cooling now y && (text_eq e.provider "" || ltb y.expiry e.expiry))) [
      | inl sooner ↦
          let (x, (m, k, least), same) =
            scan_earliest_from now y c (ground (arith, sooner)) (ground (arith, all_named))
              (ground (arith, all_named)) in
          let below : x.expiry ≤ y.expiry = least y (Memᴰ.head refl) (ground (arith, sooner)) in
          (
            x,
            wider now (m, k, least) (λ e_cools. ground (arith, sooner, named, below)),
            ground (arith, sooner, same),
          )
      | inr no_sooner ↦
          let (x, (m, k, least), same) =
            scan_earliest_from now e c cools named (ground (arith, all_named)) in
          let below : x.expiry ≤ e.expiry = least e (Memᴰ.head refl) cools in
          (
            x,
            inserted now (m, k, least)
                (λ y_cools. ground (arith, no_sooner, named, below, y_cools)),
            ground (arith, no_sooner, same),
          )
    ]

-- `EarliestExpiry` over named entries is the name of one that cools down and ends soonest, if any
-- cools down.
earliest_expiry-Soonest :
    (now : ℕ) (c : ProviderCooldowns)
    → all (λ x. not (text_eq x.provider "")) c ≡ true
    → is_nil (active now c) ≡ false
    → (x : CooldownEntry) × Soonest now c x × (earliest_expiry now c ≡ x.provider)
unfolding earliest_expiry scan_earliest active
earliest_expiry-Soonest now [] all_named cooled = absurd (ground arith)
earliest_expiry-Soonest now (y ∷ c) all_named cooled = elim (Bool-cases (is_cooling now y)) [
  | inl k ↦
      let (x, soonest, same) =
        scan_earliest_from now y c k (ground (arith, all_named)) (ground (arith, all_named)) in
      (x, soonest, ground (arith, k, same))
  | inr warm ↦
      let (x, soonest, same) =
        earliest_expiry-Soonest now c (ground (arith, all_named)) (ground (arith, cooled, warm)) in
      (x, wider now soonest (λ k. absurd (ground (arith, warm, k))), ground (arith, warm, same))
]

free_names-none :
    (now : ℕ) (c : ProviderCooldowns) (names : List String)
    → all (is_cooled now c) names ≡ true
    → free_names now c names ≡ []
free_names-none now c [] h = refl
free_names-none now c (n ∷ ns) h = ground (arith, h, free_names-none now c ns (ground (arith, h)))

one-active :
    (now : ℕ) (c : ProviderCooldowns) (names : List String)
    → all (is_cooled now c) names ≡ true
    → 1 < length names
    → is_nil (active now c) ≡ false
one-active now c [] h two = absurd (omega (arith, two))
one-active now c (n ∷ ns) h two = any-nonempty (is_entry_of n) (active now c) (ground (arith, h))

pick_name-one :
    (purpose : Purpose) (name : String) (cursor : ℕ)
    → (pick_name purpose (name ∷ []) cursor).0 ≡ name
unfolding pick_name
pick_name-one purpose name cursor = rw (mod-one cursor) refl

-- Where two configured names or more all cool down, the choice is the provider whose cooldown ends
-- soonest of all entries of the tracker, whichever project they come from, provided that the two
-- readings of the clock agree and no entry has an empty name.
pub select_provider-Soonest :
    (now : ℕ) (c : ProviderCooldowns) (purpose : Purpose) (s : Candidates) (cursor : ℕ)
    → all (λ x. not (text_eq x.provider "")) c ≡ true
    → all (is_cooled now c) s.names ≡ true
    → 1 < length s.names
    → (x : CooldownEntry) × Soonest now c x
      × ((select_provider now now c purpose s cursor).0 ≡ x.provider)
unfolding select_provider filter_cooled pick_name
select_provider-Soonest now c purpose s cursor all_named all_cool two =
    let some_active = one-active now c s.names all_cool two in
    let (x, soonest, same) = earliest_expiry-Soonest now c all_named some_active in
    let named =
      all-mem (λ (e : CooldownEntry). not (text_eq e.provider "")) all_named (soonest.0) in
    let only : (filter_cooled now now c s).names ≡ x.provider ∷ [] =
      ground (arith, some_active, two, free_names-none now c s.names all_cool, same, named) in
    (
      x,
      soonest,
      ap (λ ns. (pick_name purpose ns cursor).0) only ∙ pick_name-one purpose x.provider cursor,
    )
