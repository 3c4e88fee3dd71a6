-- ===== src/Provider/Pool.antt =====
-- The choice of a provider in `storeBindingResolver` of cmd/radioactive_ralph/binding_resolver.go. The
-- names come from the configuration of the project.
pub mod Selection
pub mod Probe
use Prim.Native.Nat.{◌^◌}
use radioactive_ralph.Prelude.{
  ℕ, ◌+◌, ◌%◌, String, Bool, true, false, not, ◌&&◌, List, [], ◌∷◌, if◌then◌else◌, ltb, length,
  get_or, is_nil, any, filterb, text_eq,
}
use radioactive_ralph.Provider.Cooldowns.{ProviderCooldowns, is_entry_of, active, earliest_expiry}

-- `BindingResolutionPurpose`: a probe does not move the cursor.
pub data Purpose : Type 0 where
  binding_probe binding_dispatch : Purpose

pub record Candidates : Type 0 where
  pub names : List String
  pub pooled : Bool

abbrev pub is_cooled : ℕ → ProviderCooldowns → String → Bool
is_cooled now c name = any (is_entry_of name) (active now c)

abbrev pub free_names : ℕ → ProviderCooldowns → List String → List String
free_names now c names = filterb (λ n. not (is_cooled now c n)) names

-- The names left to choose from where all of them cool down: the one that cools down first.
abbrev pub probe_names : ℕ → ProviderCooldowns → List String
probe_names later c =
    if text_eq (earliest_expiry later c) "" then [] else earliest_expiry later c ∷ []

abbrev pub replace_names : List String → Candidates → Candidates
replace_names [] s = s
replace_names (n ∷ ns) s = record { names = n ∷ ns; pooled = ltb 1 (length (n ∷ ns)) }

-- The filter of the cooldowns. The clock is read at `now` for the active cooldowns, and at `later` for
-- the earliest end.
unfoldable pub filter_cooled : (now later : ℕ) → ProviderCooldowns → Candidates → Candidates
filter_cooled now later c s =
    if not (is_nil (active now c)) && ltb 1 (length s.names)
    then replace_names
        (if is_nil (free_names now c s.names)
          then probe_names later c
          else free_names now c s.names)
        s
    else s

-- The cursor is a uint64.
abbrev pub next_cursor : Purpose → ℕ → ℕ
next_cursor binding_probe cursor = cursor
next_cursor binding_dispatch cursor = (cursor + 1) % 2 ^ 64

-- The name at the cursor of the project, which is the empty one where nothing is configured, and the
-- cursor after it.
unfoldable pub pick_name : Purpose → List String → ℕ → String × ℕ
pick_name purpose [] cursor = ("", cursor)
pick_name purpose (n ∷ ns) cursor =
    (get_or (n ∷ ns) (cursor % length (n ∷ ns)) "", next_cursor purpose cursor)

unfoldable pub select_provider :
    (now later : ℕ) → ProviderCooldowns → Purpose → Candidates → ℕ → String × ℕ
unfolding filter_cooled pick_name
select_provider now later c purpose s cursor =
    pick_name purpose ((filter_cooled now later c s).names) cursor
