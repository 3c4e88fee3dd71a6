-- ===== src/Orch/Rotation/Samples.antt =====
-- The choice of a binding on a pool of three.
use radioactive_ralph.Prelude.{
  ◌≡◌, ◌↔◌, refl, String, Bool, true, none, some, List, [], ◌∷◌, Memᴰ, any, if◌then◌else◌, text_eq,
  arith,
}
use radioactive_ralph.Plan.{TaskMetadata}
use radioactive_ralph.Plan.Metadata.{no_metadata}
use radioactive_ralph.Plan.Texts.{trim_space}
use radioactive_ralph.Provider.Pool.{pick_name}
use radioactive_ralph.Orch.Rotation.{
  Binding, Surroundings, chosen, none_pinned, check_entries, check_allowed_providers, rotate,
  resolve_allowed_binding, resolve_pinned_binding, binding_domain, peer_domains,
  resolve_independent_binding, first_binding, allow_step, pin_step, independence_step,
  choose_binding,
}
use radioactive_ralph.Orch.Rotation.Search.{Satisfies}
use radioactive_ralph.Orch.Rotation.Pools.{over_pool, rotated, rotated-over_pool}
use radioactive_ralph.Orch.Rotation.Restrictions.{Restricted, choose_binding-Restricted}

-- "reviewer" is an alias of a claude binding.
abbrev bind : String → Binding
bind n = record { name = n; config_type = if text_eq n "reviewer" then "claude" else n }

abbrev names : List String
names = "codex" ∷ "reviewer" ∷ "opencode" ∷ []

-- The peer ran on openai, as codex does.
abbrev surroundings : Surroundings
surroundings = over_pool bind names (record {
  resolve_binding = λ k. (none, k);
  invocation_config_hash = λ b. some b.name;
  calibrations =
      record { alias = "codex"; invocation_hash = "codex"; independence_domain = "openai" }
      ∷ record {
        alias = "reviewer";
        invocation_hash = "reviewer";
        independence_domain = "anthropic";
      }
      ∷ [];
  executions =
      record { plan_id = "p"; task_id = "build"; assigned_independence_domain = some "openai" }
      ∷ [];
})

abbrev apart : TaskMetadata
apart = record no_metadata { providers = "claude" ∷ []; different_from = "build" ∷ [] }

abbrev pinned : String → TaskMetadata → TaskMetadata
pinned kind m = record m { binding = record m.binding { provider = kind } }

choose_apart : choose_binding surroundings "p" (some apart) 0 ≡ (chosen (bind "reviewer"), 2)
unfolding choose_binding first_binding allow_step pin_step independence_step resolve_allowed_binding
    resolve_pinned_binding resolve_independent_binding rotate peer_domains binding_domain
    check_allowed_providers check_entries pick_name trim_space
choose_apart = refl

-- The pin leads away from the binding that `providers` asked for.
list_lost :
    choose_binding surroundings "p"
      (some (pinned "codex" (record no_metadata { providers = "reviewer" ∷ [] })))
      0
    ≡ (chosen (bind "codex"), 4)
unfolding choose_binding first_binding allow_step pin_step independence_step resolve_allowed_binding
    resolve_pinned_binding resolve_independent_binding rotate peer_domains binding_domain
    check_allowed_providers check_entries pick_name trim_space
list_lost = refl

-- The independence leads away from the pinned type.
pin_lost :
    choose_binding surroundings "p"
      (some (pinned "codex" (record no_metadata { different_from = "build" ∷ [] })))
      0
    ≡ (chosen (bind "reviewer"), 2)
unfolding choose_binding first_binding allow_step pin_step independence_step resolve_allowed_binding
    resolve_pinned_binding resolve_independent_binding rotate peer_domains binding_domain
    check_allowed_providers check_entries pick_name trim_space
pin_lost = refl

choose_binding-Restricted_example :
    Satisfies
      (Restricted surroundings "p" (some apart))
      ((choose_binding surroundings "p" (some apart) 0).0)
choose_binding-Restricted_example = choose_binding-Restricted surroundings "p" (some apart) 0

abbrev on_claude : Binding → Bool
on_claude b = text_eq b.config_type "claude"

rotated-over_pool_example :
    ((any (λ n. on_claude (bind n)) names ≡ true)
      ↔ ((b : Binding) × ((rotated surroundings on_claude none_pinned 5).0 ≡ chosen b)))
    × Satisfies
        (λ b. (on_claude b ≡ true) × ((n : String) × Memᴰ n names × (b ≡ bind n)))
        ((rotated surroundings on_claude none_pinned 5).0)
rotated-over_pool_example =
    rotated-over_pool bind names on_claude none_pinned surroundings 5 (λ n. refl) refl refl
      (omega arith) (omega arith)
