-- ===== src/Plan/Validate/Import.antt =====
-- A plan that `ValidateForImport` of internal/plan/validate.go lets in.
use radioactive_ralph.Prelude.{
  ◌≡◌, ◌≢◌, refl, ap, subst, ◌∙◌, inl, inr, String, true, Option, none, List, [], ◌∷◌, ◌++◌, any,
  any-witness, Memᴰ, mem-map, arith, Bool-cases, is_nil, ◌==◌, text_eq, text_eq_sound,
  text_eq_complete,
}
use radioactive_ralph.Plan.{Step, Plan}
use radioactive_ralph.Plan.Json.{Json}
use radioactive_ralph.Plan.Texts.{trim_space}
use radioactive_ralph.Plan.Parse.{Block, Parsed, parse}
use radioactive_ralph.Plan.Validate.{
  different_from_of, check_peer, check_peers, check_steps, ids_of, walk_plan_steps,
  count_plan_steps, validate, validate_different_from, validate_for_import, after_parse,
}
use radioactive_ralph.Plan.Validate.Admission.{Admissible, validate_different_from_acyclic-decides}

-- A peer that a task may name: another task of the plan.
abbrev pub NamesPeer : List (String × Step) → String → String → Type 0
NamesPeer known id peer = (peer ≢ "") × (peer ≢ id) × Memᴰ peer (ids_of known)

nil_append {ℓ} : {A : Type ℓ} (xs ys : List A) → xs ++ ys ≡ [] → (xs ≡ []) × (ys ≡ [])
nil_append [] ys h = (refl, h)
nil_append (x ∷ xs) ys h = absurd (ground arith)

check_peer-NamesPeer :
    (known : List (String × Step)) (id peer : String)
    → check_peer known id peer ≡ []
    → NamesPeer known id peer
check_peer-NamesPeer known id peer h = elim (Bool-cases (text_eq peer "")) [
  | inl empty ↦ absurd (ground (arith, empty))
  | inr full ↦ elim (Bool-cases (text_eq peer id)) [
    | inl own ↦ absurd (ground (arith, full, own))
    | inr other ↦ elim (Bool-cases (any (λ k. text_eq k.0 peer) known)) [
      | inr missing ↦ absurd (ground (arith, full, other, missing))
      | inl there ↦
          let (k, m, e) = any-witness (λ (k : String × Step). text_eq k.0 peer) known there in
          (
            λ q. ground (arith, full, text_eq_complete {s = peer} {t = ""} q),
            λ q. ground (arith, other, text_eq_complete {s = peer} {t = id} q),
            subst (λ t. Memᴰ t (ids_of known)) (text_eq_sound e)
                (mem-map (λ (k : String × Step). k.0) m),
          )
    ]
  ]
]

check_peers-NamesPeer :
    (known : List (String × Step)) (id : String) (raws : List String) (raw : String)
    → check_peers known id raws ≡ []
    → Memᴰ raw raws
    → NamesPeer known id (trim_space raw)
unfolding check_peers
check_peers-NamesPeer known id [] raw h m = elim m [ ]
check_peers-NamesPeer known id (r ∷ raws) raw h (Memᴰ.head e) =
    check_peer-NamesPeer known id (trim_space raw) (
      ap (λ x. check_peer known id (trim_space x)) e
      ∙ (nil_append (check_peer known id (trim_space r)) _ h).0)
check_peers-NamesPeer known id (r ∷ raws) raw h (Memᴰ.tail m) =
    check_peers-NamesPeer known id raws raw (nil_append (check_peer known id (trim_space r)) _ h).1
      m

check_steps-NamesPeer :
    (known rest : List (String × Step)) (x : String × Step) (raw : String)
    → check_steps known rest ≡ []
    → Memᴰ x rest
    → Memᴰ raw (different_from_of x.1)
    → NamesPeer known x.0 (trim_space raw)
unfolding check_steps
check_steps-NamesPeer known [] x raw h n m = elim n [ ]
check_steps-NamesPeer known (y ∷ rest) x raw h (Memᴰ.head e) m =
    check_peers-NamesPeer known x.0 (different_from_of x.1) raw
      (ap (λ z. check_peers known z.0 (different_from_of z.1)) e
        ∙ (nil_append (check_peers known y.0 (different_from_of y.1)) _ h).0)
      m
check_steps-NamesPeer known (y ∷ rest) x raw h (Memᴰ.tail n) m =
    check_steps-NamesPeer known rest x raw
      (nil_append (check_peers known y.0 (different_from_of y.1)) _ h).1 n m

is_nil-eq {ℓ} : {A : Type ℓ} (xs : List A) → is_nil xs ≡ true → xs ≡ []
is_nil-eq [] h = refl
is_nil-eq (x ∷ xs) h = absurd (ground arith)

-- What holds of the parse of a plan that was let in.
abbrev pub Importable : Plan → Type 0
Importable p =
    (count_plan_steps p ≢ 0)
    × Admissible (walk_plan_steps p)
    × ((x : String × Step) (raw : String)
        → Memᴰ x (walk_plan_steps p)
        → Memᴰ raw (different_from_of x.1)
        → NamesPeer (walk_plan_steps p) x.0 (trim_space raw))

validate_different_from-Importable :
    (p : Plan) → count_plan_steps p ≢ 0 → validate_different_from p ≡ [] → Importable p
unfolding validate_different_from
validate_different_from-Importable p some_steps h =
    let steps = walk_plan_steps p in
    let (peers, rings) = nil_append (check_steps steps steps) _ h in
    (
      some_steps,
      elim (validate_different_from_acyclic-decides steps) [
        | inl (_, order) ↦ order
        | inr (c, bad, _, _) ↦ absurd (ground (arith, rings, bad))
      ],
      λ x raw m n. check_steps-NamesPeer steps steps x raw peers m n,
    )

after_parse-Importable :
    (m : Parsed Plan) → after_parse m ≡ none → (p : Plan) × (m ≡ Parsed.ok p) × Importable p
after_parse-Importable (Parsed.err e) h = absurd (ground arith)
after_parse-Importable (Parsed.ok p) h = elim (Bool-cases (count_plan_steps p == 0)) [
  | inl empty ↦ absurd (ground (arith, empty))
  | inr full ↦ elim (Bool-cases (is_nil (validate_different_from p))) [
    | inr found ↦ absurd (ground (arith, full, found))
    | inl clean ↦ (
      p,
      refl,
      validate_different_from-Importable p (λ z. ground (arith, full, z))
          (is_nil-eq (validate_different_from p) clean),
    )
  ]
]

-- A plan that the import lets in parses, into a plan with at least one step, in which every entry of a
-- `differentFrom` names another task of the plan, and whose tasks can be put in an order in which each
-- comes after all the peers it names.
pub validate_for_import-Importable :
    (read : String → Option (List Json)) (md : String) (bs : List Block)
    → validate_for_import read md bs ≡ none
    → (p : Plan) × (parse read bs ≡ Parsed.ok p) × Importable p
unfolding validate_for_import
validate_for_import-Importable read md bs h = elim (Bool-cases (text_eq (trim_space md) "")) [
  | inl blank ↦ absurd (ground (arith, blank))
  | inr text ↦ elim (Bool-cases (is_nil (validate bs))) [
    | inr found ↦ absurd (ground (arith, text, found))
    | inl clean ↦ after_parse-Importable (parse read bs) (ground (arith, text, clean))
  ]
]
