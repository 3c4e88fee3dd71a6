-- ===== src/Prelude/Lists.antt =====
-- Lists under native indices, Boolean searches, and membership that can be matched.
use Prim.Native.Nat.{ℕ, zero, suc, ◌+◌, ◌≤◌, ◌<◌}
use mathlib.Core.Path.{◌≡◌, refl, ap, sym, subst, ◌∙◌}
use mathlib.Core.Logic.{inl, inr}
use mathlib.Core.Bool.{Bool, true, false, not, ◌&&◌, ◌||◌}
use mathlib.Core.Option.{Option, none, some}
use mathlib.Core.List.{List, [], ◌∷◌, ◌++◌, map, Memᴰ}
use native.Mathlib.Omega.{arith}
use radioactive_ralph.Prelude.Tests.{if◌then◌else◌, Bool-cases, Option-cases}

module _ {ℓ} {A : Type ℓ} where
  abbrev pub length : List A → ℕ
  length [] = 0
  length (x ∷ xs) = suc (length xs)

  abbrev pub get_elem? : List A → ℕ → Option A
  get_elem? [] i = none
  get_elem? (x ∷ xs) zero = some x
  get_elem? (x ∷ xs) (suc i) = get_elem? xs i

  abbrev pub get_or : List A → ℕ → A → A
  get_or [] i d = d
  get_or (x ∷ xs) zero d = x
  get_or (x ∷ xs) (suc i) d = get_or xs i d

  abbrev pub take : ℕ → List A → List A
  take zero xs = []
  take (suc n) [] = []
  take (suc n) (x ∷ xs) = x ∷ take n xs

  abbrev pub drop : ℕ → List A → List A
  drop zero xs = xs
  drop (suc n) [] = []
  drop (suc n) (x ∷ xs) = drop n xs

  abbrev pub is_none : Option A → Bool
  is_none none = true
  is_none (some x) = false

  abbrev pub is_nil : List A → Bool
  is_nil [] = true
  is_nil (x ∷ xs) = false

  abbrev pub any : (A → Bool) → List A → Bool
  any p [] = false
  any p (x ∷ xs) = p x || any p xs

  abbrev pub all : (A → Bool) → List A → Bool
  all p [] = true
  all p (x ∷ xs) = p x && all p xs

  abbrev pub filterb : (A → Bool) → List A → List A
  filterb p [] = []
  filterb p (x ∷ xs) = let rest = filterb p xs in if p x then x ∷ rest else rest

  abbrev pub find? : (A → Bool) → List A → Option A
  find? p [] = none
  find? p (x ∷ xs) = let rest = find? p xs in if p x then some x else rest

  abbrev pub count : (A → Bool) → List A → ℕ
  count p [] = 0
  count p (x ∷ xs) = let rest = count p xs in if p x then suc rest else rest

  -- No element is followed by another that `same` takes for it.
  abbrev pub distinct_by : (A → A → Bool) → List A → Bool
  distinct_by same [] = true
  distinct_by same (x ∷ xs) = not (any (same x) xs) && distinct_by same xs

-- A stable sort, and the first of the least elements, by a Boolean order `le`.
module _ {ℓ} {A : Type ℓ} (le : A → A → Bool) where
  abbrev pub insert_by : A → List A → List A
  insert_by x [] = x ∷ []
  insert_by x (y ∷ ys) = let later = insert_by x ys in if le x y then x ∷ y ∷ ys else y ∷ later

  abbrev pub sort_by : List A → List A
  sort_by [] = []
  sort_by (x ∷ xs) = insert_by x (sort_by xs)

  abbrev pub first_by : List A → Option A
  first_by [] = none
  first_by (x ∷ xs) = elim (first_by xs) [
    | none ↦ some x
    | some y ↦ if le x y then some x else some y
  ]

module _ {ℓ} {A : Type ℓ} where
  pub length-append : (xs ys : List A) → length (xs ++ ys) ≡ length xs + length ys
  length-append [] ys = omega arith
  length-append (x ∷ xs) ys = omega (arith, length-append xs ys)

  pub any-intro : (p : A → Bool) {x : A} {xs : List A} → Memᴰ x xs → p x ≡ true → any p xs ≡ true
  any-intro p (Memᴰ.head e) h = ground (arith, ap p e)
  any-intro p (Memᴰ.tail {x = y} m) h = ground (arith, any-intro p m h)

  pub any-witness :
      (p : A → Bool) (xs : List A) → any p xs ≡ true → (x : A) × Memᴰ x xs × (p x ≡ true)
  any-witness p [] h = absurd (ground arith)
  any-witness p (x ∷ xs) h = elim (Bool-cases (p x)) [
    | inl e ↦ (x, Memᴰ.head refl, e)
    | inr e ↦ let (y, m, q) = any-witness p xs (ground arith) in (y, Memᴰ.tail m, q)
  ]

  pub any-false : (p : A → Bool) {x : A} {xs : List A} → any p xs ≡ false → Memᴰ x xs → p x ≡ false
  any-false p {x} h m = elim (Bool-cases (p x)) [
    | inl e ↦ absurd (ground (arith, any-intro p m e))
    | inr e ↦ e
  ]

  pub find?-none : (p : A → Bool) (xs : List A) → find? p xs ≡ none → any p xs ≡ false
  find?-none p [] h = refl
  find?-none p (x ∷ xs) h = elim (Bool-cases (p x)) [
    | inl e ↦ absurd (ground (arith, e))
    | inr e ↦ ground (arith, e, find?-none p xs)
  ]

  pub find?-some :
      (p : A → Bool) {x : A} (xs : List A) → find? p xs ≡ some x → Memᴰ x xs × (p x ≡ true)
  find?-some p [] h = absurd (ground arith)
  find?-some p {x} (y ∷ ys) h = elim (Bool-cases (p y)) [
    | inl e ↦ let same : y ≡ x = ground (arith, e) in (Memᴰ.head (sym same), ap p (sym same) ∙ e)
    | inr e ↦ let (m, q) = find?-some p ys (ground (arith, e)) in (Memᴰ.tail m, q)
  ]

  pub mem-first_by : (le : A → A → Bool) {x : A} (xs : List A) → first_by le xs ≡ some x → Memᴰ x xs
  mem-first_by le [] h = absurd (ground arith)
  mem-first_by le {x} (y ∷ ys) h = elim (Option-cases (first_by le ys)) [
    | inl e ↦ let same : y ≡ x = ground (arith, e) in Memᴰ.head (sym same)
    | inr (z, e) ↦ elim (Bool-cases (le y z)) [
      | inl f ↦ let same : y ≡ x = ground (arith, e, f) in Memᴰ.head (sym same)
      | inr f ↦ Memᴰ.tail (mem-first_by le ys (ground (arith, e, f)))
    ]
  ]

  pub all-mem : (p : A → Bool) {x : A} {xs : List A} → all p xs ≡ true → Memᴰ x xs → p x ≡ true
  all-mem p h (Memᴰ.head e) = ground (arith, ap p e)
  all-mem p h (Memᴰ.tail {x = y} {xs = ys} m) = all-mem p {xs = ys} (ground arith) m

  pub any-append : (p : A → Bool) (xs ys : List A) → any p (xs ++ ys) ≡ (any p xs || any p ys)
  any-append p [] ys = refl
  any-append p (x ∷ xs) ys = ground (arith, any-append p xs ys)

  pub all-append : (p : A → Bool) (xs ys : List A) → all p (xs ++ ys) ≡ (all p xs && all p ys)
  all-append p [] ys = refl
  all-append p (x ∷ xs) ys = ground (arith, all-append p xs ys)

  pub filterb-append :
      (p : A → Bool) (xs ys : List A) → filterb p (xs ++ ys) ≡ filterb p xs ++ filterb p ys
  filterb-append p [] ys = refl
  filterb-append p (x ∷ xs) ys = ground (arith, filterb-append p xs ys)

  mem-filterb_head :
      (p : A → Bool) {x y : A} {ys : List A}
      → (Memᴰ x (filterb p ys) → Memᴰ x ys × (p x ≡ true))
      → p y ≡ true
      → Memᴰ x (y ∷ filterb p ys)
      → Memᴰ x (y ∷ ys) × (p x ≡ true)
  mem-filterb_head p below e (Memᴰ.head q) = (Memᴰ.head q, ap p q ∙ e)
  mem-filterb_head p below e (Memᴰ.tail n) = let (n', q) = below n in (Memᴰ.tail n', q)

  pub mem-filterb :
      (p : A → Bool) {x : A} (xs : List A) → Memᴰ x (filterb p xs) → Memᴰ x xs × (p x ≡ true)
  mem-filterb p [] m = elim m [ ]
  mem-filterb p (y ∷ ys) m = elim (Bool-cases (p y)) [
    | inl e ↦ mem-filterb_head p (mem-filterb p ys) e (rw e at m)
    | inr e ↦ let (n, q) = mem-filterb p ys (rw e at m) in (Memᴰ.tail n, q)
  ]

  pub mem-filterb_intro :
      (p : A → Bool) {x : A} {xs : List A} → Memᴰ x xs → p x ≡ true → Memᴰ x (filterb p xs)
  mem-filterb_intro p (Memᴰ.head e) h = rw (ap p (sym e) ∙ h) (Memᴰ.head e)
  mem-filterb_intro p (Memᴰ.tail {x = y} m) h = elim (Bool-cases (p y)) [
    | inl e ↦ rw e (Memᴰ.tail (mem-filterb_intro p m h))
    | inr e ↦ rw e (mem-filterb_intro p m h)
  ]

module _ {ℓ} {A : Type ℓ} where
  pub distinct_by_unique :
      (same : A → A → Bool) {a b : A} (xs : List A)
      → ((x y : A) → same x y ≡ true → same y x ≡ true)
      → distinct_by same xs ≡ true
      → Memᴰ a xs
      → Memᴰ b xs
      → same a b ≡ true
      → a ≡ b
  distinct_by_unique same [] turn h m n e = elim m [ ]
  distinct_by_unique same (x ∷ xs) turn h (Memᴰ.head p) (Memᴰ.head q) e = p ∙ sym q
  distinct_by_unique same {a} {b} (x ∷ xs) turn h (Memᴰ.head p) (Memᴰ.tail n) e =
      absurd (ground (arith, any-intro (same x) n (subst (λ c. same c b ≡ true) p e)))
  distinct_by_unique same {a} {b} (x ∷ xs) turn h (Memᴰ.tail m) (Memᴰ.head q) e =
      absurd (ground (arith, any-intro (same x) m (subst (λ c. same c a ≡ true) q (turn a b e))))
  distinct_by_unique same (x ∷ xs) turn h (Memᴰ.tail m) (Memᴰ.tail n) e =
      distinct_by_unique same xs turn (ground arith) m n e

  pub count_mono :
      (p q : A → Bool) (xs : List A) → ((x : A) → p x ≡ true → q x ≡ true) → count p xs ≤ count q xs
  count_mono p q [] h = omega arith
  count_mono p q (x ∷ xs) h = ground (arith, h x, count_mono p q xs h)

  pub count_strict :
      (p q : A → Bool) {x : A} {xs : List A}
      → ((y : A) → p y ≡ true → q y ≡ true)
      → Memᴰ x xs
      → p x ≡ false
      → q x ≡ true
      → count p xs < count q xs
  count_strict p q h (Memᴰ.head {xs = ys} e) px qx =
      ground (arith, ap p e, ap q e, count_mono p q ys h)
  count_strict p q h (Memᴰ.tail {x = y} m) px qx = ground (arith, h y, count_strict p q h m px qx)

  pub count-le-length : (p : A → Bool) (xs : List A) → count p xs ≤ length xs
  count-le-length p [] = omega arith
  count-le-length p (x ∷ xs) = ground (arith, count-le-length p xs)

module _ {ℓ κ} {A : Type ℓ} {B : Type κ} where
  pub length-map : (f : A → B) (xs : List A) → length (map f xs) ≡ length xs
  length-map f [] = refl
  length-map f (x ∷ xs) = ap suc (length-map f xs)

  pub mem-map : (f : A → B) {x : A} {xs : List A} → Memᴰ x xs → Memᴰ (f x) (map f xs)
  mem-map f (Memᴰ.head e) = Memᴰ.head (ap f e)
  mem-map f (Memᴰ.tail m) = Memᴰ.tail (mem-map f m)

  pub mem-map_inv :
      (f : A → B) {y : B} (xs : List A) → Memᴰ y (map f xs) → (x : A) × Memᴰ x xs × (y ≡ f x)
  mem-map_inv f [] m = elim m [ ]
  mem-map_inv f (x ∷ xs) (Memᴰ.head e) = (x, Memᴰ.head refl, e)
  mem-map_inv f (x ∷ xs) (Memᴰ.tail m) =
      let (x', m', e) = mem-map_inv f xs m in (x', Memᴰ.tail m', e)
