-- ===== src/Provider/Samples.antt =====
-- Cooldowns and the choice of a provider on concrete pools.
use radioactive_ralph.Prelude.{◌≡◌, refl, true, false, none, List, [], ◌∷◌, Memᴰ, arith}
use radioactive_ralph.Provider.Failure.{Failure, provider_auth, provider_throttled, stall_timeout}
use radioactive_ralph.Provider.Cooldowns.{
  ProviderCooldowns, CooldownEntry, record_failure, record_success, active, earliest_expiry,
  scan_earliest,
}
use radioactive_ralph.Provider.Cooldowns.History.{
  Report, failed_turn, good_turn, after_reports, after_reports-Tracks, Tracks,
}
use radioactive_ralph.Provider.Pool.{
  binding_dispatch, binding_probe, Candidates, is_cooled, filter_cooled, pick_name, select_provider,
}
use radioactive_ralph.Provider.Pool.Selection.{select_provider-free}
use radioactive_ralph.Provider.Pool.Probe.{Soonest, select_provider-Soonest}

abbrev limit : Failure
limit = record { category = provider_auth; summary = "limit"; cause = none }

abbrev stalled : Failure
stalled = record { category = stall_timeout; summary = "stall"; cause = none }

-- Two limits of claude around a stall, and one of codex that a good turn cleared.
abbrev history : List Report
history =
    failed_turn 9000 "claude" limit
    ∷ good_turn "codex"
    ∷ failed_turn 8000 "claude" stalled
    ∷ failed_turn 7000 "codex" limit
    ∷ failed_turn 1000 "claude" limit
    ∷ []

after_history :
    after_reports history
    ≡ record { provider = "claude"; expiry = 16200; consecutive_failures = 2 } ∷ []
unfolding after_reports record_failure record_success
after_history = refl

after_reports-Tracks_example : Tracks "claude" history (after_reports history)
after_reports-Tracks_example = after_reports-Tracks "claude" history

-- A throttled turn starts a cooldown of an hour.
throttled :
    record_failure 100 "claude"
      (record { category = provider_throttled; summary = ""; cause = none })
      []
    ≡ record { provider = "claude"; expiry = 3700; consecutive_failures = 1 } ∷ []
unfolding record_failure
throttled = refl

abbrev cooling : ProviderCooldowns
cooling =
    record { provider = "claude"; expiry = 900; consecutive_failures = 1 }
    ∷ record { provider = "codex"; expiry = 800; consecutive_failures = 1 }
    ∷ []

abbrev three : Candidates
three = record { names = "claude" ∷ "codex" ∷ "opencode" ∷ []; pooled = true }

abbrev two : Candidates
two = record { names = "claude" ∷ "codex" ∷ []; pooled = true }

passes_over : select_provider 500 500 cooling binding_dispatch three 7 ≡ ("opencode", 8)
unfolding select_provider filter_cooled pick_name active earliest_expiry scan_earliest
passes_over = refl

probes : select_provider 500 500 cooling binding_probe two 7 ≡ ("codex", 7)
unfolding select_provider filter_cooled pick_name active earliest_expiry scan_earliest
probes = refl

-- A provider of another project, which cools down sooner, is chosen where it is not configured.
abbrev another : ProviderCooldowns
another = record { provider = "opencode"; expiry = 600; consecutive_failures = 1 } ∷ cooling

foreign : select_provider 500 500 another binding_dispatch two 7 ≡ ("opencode", 8)
unfolding select_provider filter_cooled pick_name active earliest_expiry scan_earliest
foreign = refl

select_provider-free_example :
    Memᴰ ((select_provider 500 500 cooling binding_dispatch three 7).0) three.names
    × (is_cooled 500 cooling ((select_provider 500 500 cooling binding_dispatch three 7).0) ≡ false)
unfolding active
select_provider-free_example = select_provider-free 500 500 cooling binding_dispatch three 7 refl

select_provider-Soonest_example :
    (x : CooldownEntry) × Soonest 500 another x
    × ((select_provider 500 500 another binding_dispatch two 7).0 ≡ x.provider)
unfolding active
select_provider-Soonest_example =
    select_provider-Soonest 500 another binding_dispatch two 7 refl refl (omega arith)
