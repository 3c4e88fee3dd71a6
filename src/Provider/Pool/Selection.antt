-- ===== src/Provider/Pool/Selection.antt =====
-- Which provider `storeBindingResolver` of cmd/radioactive_ralph/binding_resolver.go chooses.
use native.Mathlib.Nat.{mod-lt}
use radioactive_ralph.Prelude.{
  ℕ, zero, suc, ◌<◌, ◌%◌, ◌≡◌, refl, ap, String, Bool, true, false, not, ◌&&◌, List, [], ◌∷◌, Memᴰ,
  Bool-cases, inl, inr, ltb, length, get_or, is_nil, any, any-witness, mem-filterb,
  mem-filterb_intro, not-true, arith,
}
use radioactive_ralph.Provider.Cooldowns.{ProviderCooldowns, is_entry_of, active}
use radioactive_ralph.Provider.Pool.{
  Purpose, Candidates, is_cooled, free_names, replace_names, filter_cooled, pick_name,
  select_provider,
}

pub mem-get_or :
    {A : Type 0} (xs : List A) (i : ℕ) (d : A) → i < length xs → Memᴰ (get_or xs i d) xs
mem-get_or [] i d h = absurd (omega (arith, h))
mem-get_or (x ∷ xs) zero d h = Memᴰ.head refl
mem-get_or (x ∷ xs) (suc i) d h = Memᴰ.tail (mem-get_or xs i d (omega (arith, h)))

pub mem-pick_name :
    (purpose : Purpose) (n : String) (ns : List String) (cursor : ℕ)
    → Memᴰ ((pick_name purpose (n ∷ ns) cursor).0) (n ∷ ns)
unfolding pick_name
mem-pick_name purpose n ns cursor =
    mem-get_or (n ∷ ns) (cursor % length (n ∷ ns)) "" (mod-lt cursor (omega arith))

-- A list that holds all a name needs.
abbrev Serves : ℕ → ProviderCooldowns → List String → List String → Type 0
Serves now c all_names names =
    (is_nil names ≡ false)
    × ((x : String) → Memᴰ x names → Memᴰ x all_names × (is_cooled now c x ≡ false))

pub is_nil-mem : {A : Type 0} {x : A} {xs : List A} → Memᴰ x xs → is_nil xs ≡ false
is_nil-mem (Memᴰ.head e) = refl
is_nil-mem (Memᴰ.tail m) = refl

-- A list of one name at most, or no active cooldown, leaves the names as they are.
single_free :
    (p : String → Bool) (names : List String)
    → ltb 1 (length names) ≡ false
    → any (λ n. not (p n)) names ≡ true
    → (x : String) → Memᴰ x names
    → p x ≡ false
single_free p [] short h x m = elim m [ ]
single_free p (n ∷ []) short h x (Memᴰ.head e) = ground (arith, ap p e)
single_free p (n ∷ []) short h x (Memᴰ.tail m) = elim m [ ]
single_free p (n ∷ k ∷ ns) short h x m = absurd (ground (arith, short))

nothing_cooled :
    (now : ℕ) (c : ProviderCooldowns) (name : String)
    → is_nil (active now c) ≡ true
    → is_cooled now c name ≡ false
nothing_cooled now c name h = none_of (active now c) h
  where
    none_of : (es : ProviderCooldowns) → is_nil es ≡ true → any (is_entry_of name) es ≡ false
    none_of [] h = refl
    none_of (e ∷ es) h = absurd (ground arith)

pub any-nonempty : {A : Type 0} (p : A → Bool) (xs : List A) → any p xs ≡ true → is_nil xs ≡ false
any-nonempty p xs h = let (x, m, q) = any-witness p xs h in is_nil-mem m

kept-Serve :
    (now : ℕ) (c : ProviderCooldowns) (names : List String)
    → (not (is_nil (active now c)) && ltb 1 (length names)) ≡ false
    → any (λ n. not (is_cooled now c n)) names ≡ true
    → Serves now c names names
kept-Serve now c names keeps h = (
  any-nonempty (λ n. not (is_cooled now c n)) names h,
  λ x m. (
    m,
    elim (Bool-cases (is_nil (active now c))) [
      | inl none_active ↦ nothing_cooled now c x none_active
      | inr some_active ↦
          single_free (is_cooled now c) names (ground (arith, keeps, some_active)) h x m
    ],
  ),
)

replace_names-some :
    (names : List String) (s : Candidates)
    → is_nil names ≡ false
    → (replace_names names s).names ≡ names
replace_names-some [] s h = absurd (ground arith)
replace_names-some (n ∷ ns) s h = refl

free_names-Serve :
    (now : ℕ) (c : ProviderCooldowns) (names : List String)
    → any (λ n. not (is_cooled now c n)) names ≡ true
    → Serves now c names (free_names now c names)
free_names-Serve now c names h = (
  (let (x, m, p) = any-witness (λ n. not (is_cooled now c n)) names h in
      is_nil-mem (mem-filterb_intro (λ n. not (is_cooled now c n)) m p)),
  λ x m.
      let (m', p) = mem-filterb (λ n. not (is_cooled now c n)) names m in
      (m', not-true (is_cooled now c x) p),
)

pub pick_name_from :
    (purpose : Purpose) (names : List String) (cursor : ℕ)
    → is_nil names ≡ false
    → Memᴰ ((pick_name purpose names cursor).0) names
pick_name_from purpose [] cursor h = absurd (ground arith)
pick_name_from purpose (n ∷ ns) cursor h = mem-pick_name purpose n ns cursor

filter_cooled-Serves :
    (now later : ℕ) (c : ProviderCooldowns) (s : Candidates)
    → any (λ n. not (is_cooled now c n)) s.names ≡ true
    → Serves now c s.names ((filter_cooled now later c s).names)
unfolding filter_cooled
filter_cooled-Serves now later c s h =
    let free = free_names-Serve now c s.names h in
    elim (Bool-cases (not (is_nil (active now c)) && ltb 1 (length s.names))) [
      | inl filters ↦
          let same : (filter_cooled now later c s).names ≡ free_names now c s.names =
            ground (arith, filters, free.0, replace_names-some (free_names now c s.names) s) in
          rw same free
      | inr keeps ↦
          let same : (filter_cooled now later c s).names ≡ s.names = ground (arith, keeps) in
          rw same (kept-Serve now c s.names keeps h)
    ]

-- While some configured name is not cooling down, the choice is a configured name that is not.
pub select_provider-free :
    (now later : ℕ) (c : ProviderCooldowns) (purpose : Purpose) (s : Candidates) (cursor : ℕ)
    → any (λ n. not (is_cooled now c n)) s.names ≡ true
    → Memᴰ ((select_provider now later c purpose s cursor).0) s.names
      × (is_cooled now c ((select_provider now later c purpose s cursor).0) ≡ false)
unfolding select_provider
select_provider-free now later c purpose s cursor h =
    let (some_name, serves) = filter_cooled-Serves now later c s h in
    serves _ (pick_name_from purpose ((filter_cooled now later c s).names) cursor some_name)
