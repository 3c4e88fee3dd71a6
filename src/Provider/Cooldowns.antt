-- ===== src/Provider/Cooldowns.antt =====
-- cmd/radioactive_ralph/provider_cooldowns.go: which providers a pool passes over after failures that
-- speak of a limit, and for how long. Times are seconds. The map is a list of entries in some order;
-- an iteration over it visits them in that order.
pub mod History
use radioactive_ralph.Prelude.{
  ℕ, suc, ◌+◌, ◌-◌, String, Bool, true, false, not, ◌&&◌, ◌||◌, Option, none, some, List, [], ◌∷◌,
  if◌then◌else◌, ltb, get_or, find?, filterb, text_eq,
}
use radioactive_ralph.Provider.Failure.{
  FailureCategory, provider_auth, provider_rejected, provider_throttled, Failure,
}

pub record CooldownEntry : Type 0 where
  pub provider : String
  pub expiry : ℕ
  pub consecutive_failures : ℕ

abbrev pub ProviderCooldowns : Type 0
ProviderCooldowns = List CooldownEntry

-- 1, 2, 4, 8 and 24 hours.
abbrev pub cooldown_durations : List ℕ
cooldown_durations = 3600 ∷ 7200 ∷ 14400 ∷ 28800 ∷ 86400 ∷ []

abbrev pub should_cooldown : FailureCategory → Bool
should_cooldown provider_auth = true
should_cooldown provider_rejected = true
should_cooldown provider_throttled = true
should_cooldown _ = false

abbrev pub is_entry_of : String → CooldownEntry → Bool
is_entry_of name e = text_eq e.provider name

abbrev pub without : String → ProviderCooldowns → ProviderCooldowns
without name c = filterb (λ e. not (is_entry_of name e)) c

-- The zero value for a provider that the map does not hold.
abbrev pub entry_of : String → ProviderCooldowns → CooldownEntry
entry_of name c = elim (find? (is_entry_of name) c) [
  | none ↦ record { provider = name; expiry = 0; consecutive_failures = 0 }
  | some e ↦ e
]

-- The duration after the n-th failure in a row; the last one stays.
abbrev pub backoff : ℕ → ℕ
backoff n = get_or cooldown_durations (if ltb (n - 1) 5 then n - 1 else 4) 0

-- `RecordFailure` at the time `now`
unfoldable pub record_failure : (now : ℕ) → String → Failure → ProviderCooldowns → ProviderCooldowns
record_failure now name failure c =
    let failures = suc ((entry_of name c).consecutive_failures) in
    if should_cooldown failure.category
    then record {
      provider = name;
      expiry = now + backoff failures;
      consecutive_failures = failures;
    }
      ∷ without name c
    else c

-- `RecordSuccess`
unfoldable pub record_success : String → ProviderCooldowns → ProviderCooldowns
record_success name c = without name c

abbrev pub is_cooling : ℕ → CooldownEntry → Bool
is_cooling now e = ltb now e.expiry

-- `Active`: the entries whose cooldown has not ended.
unfoldable pub active : ℕ → ProviderCooldowns → List CooldownEntry
active now c = filterb (is_cooling now) c

-- The loop of `EarliestExpiry` over its two variables.
unfoldable pub scan_earliest :
    ℕ → (earliest : String) (earliest_time : ℕ) → ProviderCooldowns → String
scan_earliest now earliest earliest_time [] = earliest
scan_earliest now earliest earliest_time (e ∷ c) =
    elim (is_cooling now e && (text_eq earliest "" || ltb e.expiry earliest_time)) [
      | true ↦ scan_earliest now e.provider e.expiry c
      | false ↦ scan_earliest now earliest earliest_time c
    ]

-- `EarliestExpiry`
unfoldable pub earliest_expiry : ℕ → ProviderCooldowns → String
unfolding scan_earliest
earliest_expiry now c = scan_earliest now "" 0 c
