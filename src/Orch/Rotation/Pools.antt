-- ===== src/Orch/Rotation/Pools.antt =====
-- The rotation of internal/orch/orchestrator.go through the pool of
-- cmd/radioactive_ralph/binding_resolver.go.
use Prim.Native.Nat.{◌^◌}
use native.Mathlib.Nat.{
  mod-lt, mod-eq_of_lt, div-add-mod, mul-add-mod_self_left, mul-le-mul_left, mul-suc,
}
use radioactive_ralph.Prelude.{
  ℕ, zero, suc, ◌+◌, ◌*◌, ◌/◌, ◌%◌, ◌≤◌, ◌<◌, ◌≡◌, ◌↔◌, refl, sym, ap, ◌∙◌, subst, String, Bool,
  true, false, Option, some, List, [], ◌∷◌, Memᴰ, Bool-cases, inl, inr, any, any-intro, any-witness,
  length, get_or, is_nil, distinct_by, text_eq, text_eq_sound, text_eq_refl, leb, leb→le, arith,
}
use radioactive_ralph.Provider.Pool.{binding_dispatch, pick_name}
use radioactive_ralph.Provider.Pool.Selection.{mem-get_or, pick_name_from}
use radioactive_ralph.Orch.Rotation.{
  Binding, Choice, chosen, Refusal, Surroundings, rotate, rotations, first_binding, and_then,
}
use radioactive_ralph.Orch.Rotation.Search.{rotate-Satisfies, rotate-finds, Satisfies}

-- `storeBindingResolver` with the names that its cooldown filter leaves, and the configuration of
-- each of them.
abbrev pub pool_resolver : (String → Binding) → List String → ℕ → Option Binding × ℕ
pool_resolver bind names cursor =
    let picked = pick_name binding_dispatch names cursor in (some (bind (picked.0)), picked.1)

abbrev name_at : List String → ℕ → String
name_at names p = get_or names (p % length names) ""

index_of :
    (names : List String) (n : String)
    → Memᴰ n names
    → (i : ℕ) × (i < length names) × (get_or names i "" ≡ n)
index_of [] n m = elim m [ ]
index_of (x ∷ xs) n (Memᴰ.head e) = (0, omega arith, sym e)
index_of (x ∷ xs) n (Memᴰ.tail m) =
    let (i, low, e) = index_of xs n m in (suc i, omega (arith, low), e)

head_once :
    (x : String) (xs : List String) (i : ℕ)
    → distinct_by text_eq (x ∷ xs) ≡ true
    → i < length xs
    → x ≡ get_or xs i ""
    → zero ≡ suc zero
head_once x xs i distinct low e = absurd (
    ground
      (arith, distinct, any-intro (text_eq x) (mem-get_or xs i "" low) (rw (← e) (text_eq_refl x))))

get_or-injective :
    (names : List String) (i j : ℕ)
    → distinct_by text_eq names ≡ true
    → i < length names
    → j < length names
    → get_or names i "" ≡ get_or names j ""
    → i ≡ j
get_or-injective [] i j distinct low high e = absurd (omega (arith, low))
get_or-injective (x ∷ xs) zero zero distinct low high e = refl
get_or-injective (x ∷ xs) zero (suc j) distinct low high e =
    absurd (omega (arith, head_once x xs j distinct (omega (arith, high)) e))
get_or-injective (x ∷ xs) (suc i) zero distinct low high e =
    absurd (omega (arith, head_once x xs i distinct (omega (arith, low)) (sym e)))
get_or-injective (x ∷ xs) (suc i) (suc j) distinct low high e = ap suc (
    get_or-injective xs i j (ground (arith, distinct)) (omega (arith, low)) (omega (arith, high)) e)

leb-false→lt : (a b : ℕ) → leb a b ≡ false → b < a
leb-false→lt a b h = ground (arith, h)

-- A window of n numbers meets each remainder of n once.
window-injective : (n p q : ℕ) → p < q → q < p + n → p % n ≡ q % n → zero ≡ suc zero
window-injective n p q above below e =
    let low = div-add-mod p n in
    let high = div-add-mod q n in
    elim (Bool-cases (leb (q / n) (p / n))) [
      | inl behind ↦
          let least = mul-le-mul_left n (leb→le (q / n) (p / n) behind) in
          omega (arith, low, high, e, above, least)
      | inr ahead ↦
          let next : suc (p / n) ≤ q / n = omega (arith, leb-false→lt (q / n) (p / n) ahead) in
          let least = mul-le-mul_left n next in
          omega (arith, low, high, e, below, least, mul-suc n (p / n))
    ]

window-covers : (n k i : ℕ) → i < n → (j : ℕ) × (k ≤ j) × (j < k + n) × (j % n ≡ i)
window-covers n k i low =
    let whole = div-add-mod k n in
    let rest = mod-lt k {m = n} (omega (arith, low)) in
    elim (Bool-cases (leb (k % n) i)) [
      | inl later ↦ (
        n * (k / n) + i,
        omega (arith, whole, leb→le (k % n) i later),
        omega (arith, whole, low),
        mul-add-mod_self_left n (k / n) i ∙ mod-eq_of_lt low,
      )
      | inr passed ↦ (
        n * suc (k / n) + i,
        omega (arith, whole, rest, mul-suc n (k / n)),
        omega (arith, whole, leb-false→lt (k % n) i passed, mul-suc n (k / n)),
        mul-add-mod_self_left n (suc (k / n)) i ∙ mod-eq_of_lt low,
      )
    ]

pick_name_at :
    (names : List String) (cursor : ℕ)
    → is_nil names ≡ false
    → cursor + 1 < 2 ^ 64
    → pick_name binding_dispatch names cursor ≡ (name_at names cursor, suc cursor)
unfolding pick_name
pick_name_at [] cursor some_name small = absurd (ground arith)
pick_name_at (n ∷ ns) cursor some_name small =
    ap (λ (k : ℕ). (name_at (n ∷ ns) cursor, k)) (mod-eq_of_lt small ∙ omega arith)

nonempty-length : (names : List String) → is_nil names ≡ false → 0 < length names
nonempty-length [] h = absurd (ground arith)
nonempty-length (n ∷ ns) h = omega arith

module _ (bind : String → Binding) (names : List String) where
  abbrev Configured : Binding → Type 0
  Configured b = (n : String) × Memᴰ n names × (b ≡ bind n)

  -- The answers of the pool are configured providers, in their order from the cursor on.
  pool_resolver-answers :
      (cursor : ℕ)
      → is_nil names ≡ false
      → cursor + 1 < 2 ^ 64
      → pool_resolver bind names cursor ≡ (some (bind (name_at names cursor)), suc cursor)
  pool_resolver-answers cursor some_name small =
      ap (λ (r : String × ℕ). (some (bind (r.0)), r.1)) (pick_name_at names cursor some_name small)

  pool_resolver-Configured :
      (cursor : ℕ) (b : Binding)
      → is_nil names ≡ false
      → (pool_resolver bind names cursor).0 ≡ some b
      → Configured b
  pool_resolver-Configured cursor b some_name e = (
    (pick_name binding_dispatch names cursor).0,
    pick_name_from binding_dispatch names cursor some_name,
    sym (ground (arith, e)),
  )

  names-Different :
      ((n : String) → (bind n).name ≡ n)
      → distinct_by text_eq names ≡ true
      → is_nil names ≡ false
      → (p q : ℕ) → p < q
      → q < p + length names
      → text_eq (bind (name_at names q)).name (bind (name_at names p)).name ≡ false
  names-Different named distinct some_name p q above below =
      let some_length = nonempty-length names some_name in
      rw (named (name_at names q), named (name_at names p))
        (elim (Bool-cases (text_eq (name_at names q) (name_at names p))) [
          | inl same ↦ absurd (
              omega (
                arith,
                window-injective (length names) p q above below (
                    get_or-injective names (p % length names) (q % length names) distinct
                      (mod-lt p some_length) (mod-lt q some_length) (sym (text_eq_sound same))),
              ))
          | inr differ ↦ differ
        ])

  module _ (accepts : Binding → Bool) (otherwise : Refusal) (cursor : ℕ) where
    abbrev pool_rotation : Choice × ℕ
    pool_rotation =
        rotate (pool_resolver bind names) accepts otherwise rotations []
          (bind (name_at names cursor)) (suc cursor)

    pool_rotation-finds :
        ((n : String) → (bind n).name ≡ n)
        → distinct_by text_eq names ≡ true
        → is_nil names ≡ false
        → length names ≤ rotations
        → cursor + suc rotations < 2 ^ 64
        → any (λ n. accepts (bind n)) names ≡ true
        → (b : Binding) × (pool_rotation.0 ≡ chosen b)
    pool_rotation-finds named distinct some_name few small h =
        let (n, m, good) = any-witness (λ n. accepts (bind n)) names h in
        let (i, low, at_i) = index_of names n m in
        let (j, above, below, same) = window-covers (length names) cursor i low in
        rotate-finds (pool_resolver bind names) accepts otherwise (λ p. bind (name_at names p))
          (cursor + length names) rotations [] cursor j
          (λ p p_above p_below.
            pool_resolver-answers p some_name (omega (arith, p_above, p_below, few, small)))
          (λ p p_above p_below. refl)
          (λ p q p_above above_q q_below.
            names-Different named distinct some_name p q above_q (omega (arith, p_above, q_below)))
          above below (omega (arith, below, few))
          (ap (λ k. accepts (bind (get_or names k ""))) same
            ∙ ap (λ x. accepts (bind x)) at_i
            ∙ good)

    pool_rotation-Satisfies :
        is_nil names ≡ false → Satisfies (λ b. (accepts b ≡ true) × Configured b) (pool_rotation.0)
    pool_rotation-Satisfies some_name =
        rotate-Satisfies (pool_resolver bind names) accepts otherwise Configured
          (λ k next. pool_resolver-Configured k next some_name) rotations []
          (bind (name_at names cursor)) (suc cursor)
          (
            name_at names cursor,
            mem-get_or names (cursor % length names) ""
                (mod-lt cursor (nonempty-length names some_name)),
            refl,
          )

-- The resolver of a pool in the surroundings.
abbrev pub over_pool : (String → Binding) → List String → Surroundings → Surroundings
over_pool bind names w = record w { resolve_binding = pool_resolver bind names }

-- The first resolution of a dispatch and a rotation after it.
abbrev pub rotated : Surroundings → (Binding → Bool) → Refusal → ℕ → Choice × ℕ
rotated w accepts otherwise cursor =
    and_then (first_binding w cursor)
      (λ b after. rotate w.resolve_binding accepts otherwise rotations [] b after)

-- The rotation, from the first answer of a pool with at most 17 different names on, chooses a
-- binding exactly if some name of the pool has an accepted one, and the binding that it chooses
-- is an accepted one of the pool. It holds of the predicates of all three rotations. Bindings
-- carry the names they are configured under, and the cursor is not about to wrap.
pub rotated-over_pool :
    (bind : String → Binding) (names : List String) (accepts : Binding → Bool) (otherwise : Refusal)
    (w : Surroundings) (cursor : ℕ)
    → ((n : String) → (bind n).name ≡ n)
    → distinct_by text_eq names ≡ true
    → is_nil names ≡ false
    → length names ≤ rotations
    → cursor + suc rotations < 2 ^ 64
    → ((any (λ n. accepts (bind n)) names ≡ true) ↔ (
        (b : Binding) × ((rotated (over_pool bind names w) accepts otherwise cursor).0 ≡ chosen b)))
      × Satisfies
          (λ b. (accepts b ≡ true) × ((n : String) × Memᴰ n names × (b ≡ bind n)))
          ((rotated (over_pool bind names w) accepts otherwise cursor).0)
unfolding first_binding
rotated-over_pool bind names accepts otherwise w cursor named distinct some_name few small =
    let satisfied = pool_rotation-Satisfies bind names accepts otherwise cursor some_name in
    rw (pick_name_at names cursor some_name (omega (arith, small))) (
      (
        pool_rotation-finds bind names accepts otherwise cursor named distinct some_name few small,
        λ found.
            let (b, e) = found in
            let held : (accepts (found.0) ≡ true)
                × ((k : String) × Memᴰ k names × (found.0 ≡ bind k)) =
              subst
                (Satisfies (λ x. (accepts x ≡ true) × ((k : String) × Memᴰ k names × (x ≡ bind k))))
                e satisfied in
            let (good, (n, m, same)) = held in
            any-intro (λ k. accepts (bind k)) m (ap accepts (sym same) ∙ good),
      ),
      satisfied,
    )
