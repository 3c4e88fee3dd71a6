-- ===== src/Orch/Rotation.antt =====
-- The choice of a binding in `dispatchReadyStep` of internal/orch/orchestrator.go: the rotation through
-- a pool for `providers`, for a pinned provider and for `differentFrom`, with `CheckAllowedProviders`
-- of internal/provider/capabilities.go. The hash of an invocation is a parameter.
pub mod Search
pub mod Pools
pub mod Restrictions
mod Samples
use radioactive_ralph.Prelude.{
  ℕ, zero, suc, String, Bool, true, false, not, ◌&&◌, ◌||◌, Option, none, some, List, [], ◌∷◌,
  if◌then◌else◌, any, find?, is_nil, text_eq,
}
use radioactive_ralph.Plan.{TaskMetadata}
use radioactive_ralph.Plan.Texts.{trim_space}

-- `provider.Binding`, as far as these checks read it: the alias, and `Config.Type`.
pub record Binding : Type 0 where
  pub name : String
  pub config_type : String

-- The columns of provider_calibrations and of task_metadata that decide independence.
pub record Calibration : Type 0 where
  pub alias : String
  pub invocation_hash : String
  pub independence_domain : String

pub record ExecutionRow : Type 0 where
  pub plan_id : String
  pub task_id : String
  pub assigned_independence_domain : Option String

-- What the orchestrator asks: the resolver with its cursor, which answers and moves on, the hash of
-- a binding's invocation, and the two tables.
pub record Surroundings : Type 0 where
  pub resolve_binding : ℕ → Option Binding × ℕ
  pub invocation_config_hash : Binding → Option String
  pub calibrations : List Calibration
  pub executions : List ExecutionRow

pub data Refusal : Type 0 where
  unresolved none_allowed none_pinned none_independent : Refusal
  no_execution_record uncalibrated_peer : String → Refusal

pub data Choice : Type 0 where
  chosen : Binding → Choice
  refused : Refusal → Choice

-- `AllowedProviders`, `PinnedProviderType` and `IndependencePeers`
abbrev pub allowed_providers : Option TaskMetadata → List String
allowed_providers none = []
allowed_providers (some m) = m.providers

abbrev pub pinned_provider_type : Option TaskMetadata → String
pinned_provider_type none = ""
pinned_provider_type (some m) = trim_space m.binding.provider

abbrev pub independence_peers : Option TaskMetadata → List String
independence_peers none = []
independence_peers (some m) = m.different_from

-- The loop of `CheckAllowedProviders`; `some_named` tells whether an entry was not blank.
unfoldable pub check_entries : Binding → (some_named : Bool) → List String → Bool
check_entries b some_named [] = not some_named
check_entries b some_named (p ∷ ps) =
    let name = trim_space p in
    let rest = check_entries b (some_named || not (text_eq name "")) ps in
    if text_eq name ""
    then rest
    else (if text_eq name b.name || text_eq name b.config_type then true else rest)

-- `CheckAllowedProviders`: true is the nil error.
unfoldable pub check_allowed_providers : Binding → List String → Bool
check_allowed_providers b [] = true
check_allowed_providers b (p ∷ ps) = check_entries b false (p ∷ ps)

abbrev pub max_provider_rotations : ℕ
max_provider_rotations = 16

-- The loop that all three rotations share: it asks for another candidate until one is accepted, a
-- name comes back, or `fuel` candidates were looked at.
unfoldable pub rotate :
    (ℕ → Option Binding × ℕ)
    → (Binding → Bool)
    → Refusal
    → (fuel : ℕ) → (seen : List String) → Binding
    → ℕ
    → Choice × ℕ
rotate resolve accepts otherwise zero seen candidate cursor = (refused otherwise, cursor)
rotate resolve accepts otherwise (suc fuel) seen candidate cursor =
    if accepts candidate
    then (chosen candidate, cursor)
    else (if any (text_eq candidate.name) seen
        then (refused otherwise, cursor)
        else elim ((resolve cursor).0) [
          | none ↦ (refused unresolved, (resolve cursor).1)
          | some next ↦
              rotate resolve accepts otherwise fuel (candidate.name ∷ seen) next
                ((resolve cursor).1)
        ])

abbrev pub rotations : ℕ
rotations = suc max_provider_rotations

-- `resolveAllowedBinding`
unfoldable pub resolve_allowed_binding : Surroundings → List String → Binding → ℕ → Choice × ℕ
resolve_allowed_binding w allowed first cursor =
    rotate w.resolve_binding (λ b. check_allowed_providers b allowed) none_allowed rotations []
      first cursor

-- `resolvePinnedBinding`
unfoldable pub resolve_pinned_binding : Surroundings → String → Binding → ℕ → Choice × ℕ
resolve_pinned_binding w pinned first cursor =
    rotate w.resolve_binding (λ b. text_eq b.config_type pinned) none_pinned rotations [] first
      cursor

-- `bindingDomain`: a binding without a calibration of the same invocation has the empty domain.
unfoldable pub binding_domain : Surroundings → Binding → String
binding_domain w b = elim (find? (λ (c : Calibration). text_eq c.alias b.name) w.calibrations) [
  | none ↦ ""
  | some c ↦ elim (w.invocation_config_hash b) [
    | none ↦ ""
    | some hash ↦ if text_eq c.invocation_hash hash then c.independence_domain else ""
  ]
]

pub data PeerDomains : Type 0 where
  known : List String → PeerDomains
  unknown : Refusal → PeerDomains

abbrev pub add_domain : String → PeerDomains → PeerDomains
add_domain d (known ds) = known (d ∷ ds)
add_domain d (unknown r) = unknown r

abbrev pub is_execution_of : String → String → ExecutionRow → Bool
is_execution_of plan task r = text_eq r.plan_id plan && text_eq r.task_id task

-- COALESCE(assigned_independence_domain, '')
abbrev pub domain_of : ExecutionRow → String
domain_of r = elim r.assigned_independence_domain [ none ↦ "" | some d ↦ d ]

-- The domains that the peers ran on, of which each must have one.
unfoldable pub peer_domains : Surroundings → String → List String → PeerDomains
peer_domains w plan [] = known []
peer_domains w plan (p ∷ ps) = elim (find? (is_execution_of plan p) w.executions) [
  | none ↦ unknown (no_execution_record p)
  | some r ↦
      if text_eq (domain_of r) ""
      then unknown (uncalibrated_peer p)
      else add_domain (domain_of r) (peer_domains w plan ps)
]

-- The candidate has a known domain, the list of `providers` allows it, and no peer has the domain.
abbrev pub is_independent : Surroundings → List String → List String → Binding → Bool
is_independent w allowed domains b =
    not (text_eq (binding_domain w b) "")
    && (is_nil allowed || check_allowed_providers b allowed)
    && not (any (text_eq (binding_domain w b)) domains)

-- `resolveIndependentBinding`
unfoldable pub resolve_independent_binding :
    Surroundings → String → (allowed peers : List String) → Binding → ℕ → Choice × ℕ
resolve_independent_binding w plan allowed peers first cursor = elim (peer_domains w plan peers) [
  | unknown r ↦ (refused r, cursor)
  | known domains ↦
      rotate w.resolve_binding (is_independent w allowed domains) none_independent rotations []
        first cursor
]

abbrev pub and_then : Choice × ℕ → (Binding → ℕ → Choice × ℕ) → Choice × ℕ
and_then (chosen b, cursor) f = f b cursor
and_then (refused r, cursor) f = (refused r, cursor)

-- `dispatchReadyStep` up to the containment: the first resolution, whose failure is an error rather
-- than a refusal, and the three restrictions, each on the binding that the one before handed on.
unfoldable pub first_binding : Surroundings → ℕ → Choice × ℕ
first_binding w cursor = elim ((w.resolve_binding cursor).0) [
  | none ↦ (refused unresolved, (w.resolve_binding cursor).1)
  | some b ↦ (chosen b, (w.resolve_binding cursor).1)
]

unfoldable pub allow_step : Surroundings → Option TaskMetadata → Binding → ℕ → Choice × ℕ
allow_step w m b cursor =
    if is_nil (allowed_providers m)
    then (chosen b, cursor)
    else resolve_allowed_binding w (allowed_providers m) b cursor

unfoldable pub pin_step : Surroundings → Option TaskMetadata → Binding → ℕ → Choice × ℕ
pin_step w m b cursor =
    if text_eq (pinned_provider_type m) ""
    then (chosen b, cursor)
    else resolve_pinned_binding w (pinned_provider_type m) b cursor

unfoldable pub independence_step :
    Surroundings → String → Option TaskMetadata → Binding → ℕ → Choice × ℕ
independence_step w plan m b cursor =
    if is_nil (independence_peers m)
    then (chosen b, cursor)
    else resolve_independent_binding w plan (allowed_providers m) (independence_peers m) b cursor

unfoldable pub choose_binding : Surroundings → String → Option TaskMetadata → ℕ → Choice × ℕ
choose_binding w plan m cursor =
    and_then (and_then (and_then (first_binding w cursor) (allow_step w m)) (pin_step w m))
      (independence_step w plan m)
