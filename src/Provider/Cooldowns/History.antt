-- ===== src/Provider/Cooldowns/History.antt =====
-- The tracker of cmd/radioactive_ralph/provider_cooldowns.go after a history of turns, described by
-- the history alone.
use radioactive_ralph.Prelude.{
  ℕ, suc, ◌+◌, ◌≡◌, refl, sym, ap, ◌∙◌, String, true, false, ◌&&◌, &&_true, List, [], ◌∷◌, find?,
  if◌then◌else◌, Bool-cases, inl, inr, none, any, ltb, text_eq, text_eq_sound, text_eq_complete,
  arith,
}
use radioactive_ralph.Provider.Failure.{Failure}
use radioactive_ralph.Provider.Cooldowns.{
  ProviderCooldowns, CooldownEntry, should_cooldown, is_entry_of, without, entry_of, backoff,
  record_failure, record_success, active,
}

-- What a turn of a provider reports when it ends, at a time.
pub data Report : Type 0 where
  failed_turn : (now : ℕ) → String → Failure → Report
  good_turn : String → Report

-- `cooldownFailureCallback` over a history, the newest report first.
unfoldable pub after_reports : List Report → ProviderCooldowns
unfolding record_failure record_success
after_reports [] = []
after_reports (failed_turn now name failure ∷ h) = record_failure now name failure (after_reports h)
after_reports (good_turn name ∷ h) = record_success name (after_reports h)

-- The failures of a provider that speak of a limit since its last success.
abbrev pub streak : String → List Report → ℕ
streak name [] = 0
streak name (failed_turn now other failure ∷ h) =
    let before = streak name h in
    if text_eq other name && should_cooldown failure.category then suc before else before
streak name (good_turn other ∷ h) =
    let before = streak name h in if text_eq other name then 0 else before

-- When the newest of them ends, which is 0 where there is none.
abbrev pub cooled_until : String → List Report → ℕ
cooled_until name [] = 0
cooled_until name (failed_turn now other failure ∷ h) =
    let before = cooled_until name h in
    if text_eq other name && should_cooldown failure.category
    then now + backoff (suc (streak name h))
    else before
cooled_until name (good_turn other ∷ h) =
    let before = cooled_until name h in if text_eq other name then 0 else before

-- The same two facts, of the entry that the tracker holds and of the providers it lists.
abbrev pub Tracks : String → List Report → ProviderCooldowns → Type 0
Tracks name h c =
    ((entry_of name c).consecutive_failures ≡ streak name h)
    × ((entry_of name c).expiry ≡ cooled_until name h)
    × ((now : ℕ) → any (is_entry_of name) (active now c) ≡ ltb now (cooled_until name h))

find?-without :
    (name : String) (c : ProviderCooldowns) → find? (is_entry_of name) (without name c) ≡ none
find?-without name [] = refl
find?-without name (e ∷ c) = ground (arith, find?-without name c)

other_entry :
    (a b : String) (e : CooldownEntry)
    → text_eq a b ≡ false
    → is_entry_of a e ≡ true
    → is_entry_of b e ≡ false
other_entry a b e differ h = elim (Bool-cases (is_entry_of b e)) [
  | inl same ↦ absurd (
      ground (arith, text_eq_complete {s = a} {t = b} (sym (text_eq_sound h) ∙ text_eq_sound same)))
  | inr other ↦ other
]

find?-without_other :
    (a b : String) (c : ProviderCooldowns)
    → text_eq a b ≡ false
    → find? (is_entry_of b) (without a c) ≡ find? (is_entry_of b) c
find?-without_other a b [] differ = refl
find?-without_other a b (e ∷ c) differ = elim (Bool-cases (is_entry_of a e)) [
  | inl h ↦ ground (arith, h, other_entry a b e differ h, find?-without_other a b c differ)
  | inr h ↦ ground (arith, h, find?-without_other a b c differ)
]

active-without :
    (now : ℕ) (name : String) (c : ProviderCooldowns)
    → any (is_entry_of name) (active now (without name c)) ≡ false
unfolding active
active-without now name [] = refl
active-without now name (e ∷ c) = ground (arith, active-without now name c)

active-without_other :
    (now : ℕ) (a b : String) (c : ProviderCooldowns)
    → text_eq a b ≡ false
    → any (is_entry_of b) (active now (without a c)) ≡ any (is_entry_of b) (active now c)
unfolding active
active-without_other now a b [] differ = refl
active-without_other now a b (e ∷ c) differ = elim (Bool-cases (is_entry_of a e)) [
  | inl h ↦ ground (arith, h, other_entry a b e differ h, active-without_other now a b c differ)
  | inr h ↦ ground (arith, h, active-without_other now a b c differ)
]

without-Tracks :
    (name : String) (h : List Report) (other : String) (c : ProviderCooldowns)
    → text_eq other name ≡ false
    → Tracks name h c
    → Tracks name h (without other c)
without-Tracks name h other c differ (f, x, a) =
    let same : entry_of name (without other c) ≡ entry_of name c =
      ground (arith, find?-without_other other name c differ) in
    (
      ap (λ e. e.consecutive_failures) same ∙ f,
      ap (λ e. e.expiry) same ∙ x,
      λ now. active-without_other now other name c differ ∙ a now,
    )

record_success-Tracks :
    (name other : String) (h : List Report) (c : ProviderCooldowns)
    → Tracks name h c
    → Tracks name (good_turn other ∷ h) (record_success other c)
unfolding record_success
record_success-Tracks name other h c k = elim (Bool-cases (text_eq other name)) [
  | inl same ↦
      let gone : find? (is_entry_of name) (without other c) ≡ none =
        rw (text_eq_sound same) (find?-without name c) in
      let unlisted : (now : ℕ) → any (is_entry_of name) (active now (without other c)) ≡ false =
        λ now. rw (text_eq_sound same) (active-without now name c) in
      (
        ground (arith, same, gone),
        ground (arith, same, gone),
        λ now. ground (arith, same, unlisted now),
      )
  | inr differ ↦
      let (f, x, a) = without-Tracks name h other c differ k in
      (ground (arith, differ, f), ground (arith, differ, x), λ now. ground (arith, differ, a now))
]

record_failure-Tracks :
    (name other : String) (now : ℕ) (failure : Failure) (h : List Report) (c : ProviderCooldowns)
    → Tracks name h c
    → Tracks name (failed_turn now other failure ∷ h) (record_failure now other failure c)
unfolding record_failure active
record_failure-Tracks name other now failure h c k =
    elim (Bool-cases (text_eq other name && should_cooldown failure.category)) [
      | inl counts ↦
          let (same, cools) =
            &&_true (text_eq other name) (should_cooldown failure.category) counts in
          let gone : find? (is_entry_of name) (without other c) ≡ none =
            rw (text_eq_sound same) (find?-without name c) in
          let unlisted : (later : ℕ)
              → any (is_entry_of name) (active later (without other c)) ≡ false =
            λ later. rw (text_eq_sound same) (active-without later name c) in
          let before : (entry_of other c).consecutive_failures ≡ streak name h =
            rw (text_eq_sound same) (k.0) in
          (
            ground (arith, same, cools, gone, before),
            ground (arith, same, cools, gone, before),
            λ later. ground (arith, same, cools, unlisted later, before),
          )
      | inr passes ↦ elim (Bool-cases (text_eq other name)) [
        | inl same ↦
            let (f, x, a) = k in
            (
              ground (arith, same, passes, f),
              ground (arith, same, passes, x),
              λ later. ground (arith, same, passes, a later),
            )
        | inr differ ↦
            let (f, x, a) = without-Tracks name h other c differ k in
            let (g, y, b) = k in
            (
              ground (arith, differ, f, g),
              ground (arith, differ, x, y),
              λ later. ground (arith, differ, a later, b later),
            )
      ]
    ]

-- After any history of turns of any providers, the tracker holds for a provider the number of its
-- failures that speak of a limit since its last success, with the end of the cooldown that the
-- newest of them started, and lists the provider as cooling exactly before that end.
pub after_reports-Tracks : (name : String) (h : List Report) → Tracks name h (after_reports h)
unfolding active after_reports
after_reports-Tracks name [] = (refl, refl, λ now. ground arith)
after_reports-Tracks name (good_turn other ∷ h) =
    record_success-Tracks name other h (after_reports h) (after_reports-Tracks name h)
after_reports-Tracks name (failed_turn now other failure ∷ h) =
    record_failure-Tracks name other now failure h (after_reports h) (after_reports-Tracks name h)
