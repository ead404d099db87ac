-- ===== src/Examples/Settings.antt =====
-- The theorems on cadence, overrides, usage, arguments and memory at small examples.
use wastech_orchestrator.Prelude.{
  ℕ, ◌≡◌, refl, ◌⊎◌, ◌↔◌, true, false, String, none, some, List, [], ◌∷◌, if◌then◌else◌,
}
use wastech_orchestrator.Prelude.Dict
use wastech_orchestrator.Prelude.Dict.{Dict}
use wastech_orchestrator.Prelude.Int.{pos}
use wastech_orchestrator.Prelude.Json.{object}
use wastech_orchestrator.Providers.Base.{codex, claude}
use wastech_orchestrator.Providers.Request.{NormalizedUsage, session_cumulative}
use wastech_orchestrator.Providers.Reasoning.{coerce_provider, is_reasoning_supported}
use wastech_orchestrator.Routing.Config.{AgentsConfig}
use wastech_orchestrator.Flow.Schema.{FlowNode, observe_events, observe_selected}
use wastech_orchestrator.Flow.Snapshot.{build_snapshot}
use wastech_orchestrator.Flow.Host.{NodeOverride, Setup}
use wastech_orchestrator.Flow.Execution.{apply_overrides}
use wastech_orchestrator.Cadence.{is_same_or_narrower, should_observe, resolve_mode}
use wastech_orchestrator.Cadence.Narrower.{Unlisted, should_observe-narrower}
use wastech_orchestrator.Overrides.{TaskOverride, resolve_node_overrides}
use wastech_orchestrator.Overrides.Applied.{apply_overrides-resolved}
use wastech_orchestrator.Usage.{
  compute_usage_delta, is_cumulative, as_dict, stored, absent, deserialize_usage,
  snapshot_for_lineage,
}
use wastech_orchestrator.Usage.Deltas.{AddsUp, SomeShrank, compute_usage_delta-AddsUp}
use wastech_orchestrator.Usage.Stored.{as_stored, deserialize_usage-snapshot_for_lineage}
use wastech_orchestrator.Security.ForbiddenArgs.{find_forbidden_args}
use wastech_orchestrator.Security.ForbiddenArgs.Spellings.{At, IsSafeToken, find_forbidden_args_iff}
use wastech_orchestrator.Memory.Lifecycle.{Evidence, assign_trust, should_promote, is_of}
use wastech_orchestrator.Memory.Lifecycle.Promotion.{IsGrounded, should_promote-IsGrounded}
use wastech_orchestrator.Examples.Graphs.{agent_named, snapshot, snapshot-IsIndexed, setup}

should_observe-narrower_example :
    (should_observe (resolve_mode observe_selected none) "test" [] ("failure" ∷ []) ("failure" ∷ [])
      ≡ true)
    ⊎ Unlisted observe_events observe_selected "test" []
unfolding is_same_or_narrower Dict.get should_observe resolve_mode
should_observe-narrower_example =
    should_observe-narrower observe_events observe_selected "test" [] ("failure" ∷ [])
      ("failure" ∷ []) refl refl

abbrev agents : AgentsConfig
agents = record {
  allowed = claude ∷ codex ∷ [];
  max_stage_attempts = 2;
  provider_ids = claude ∷ [];
  provider = λ pid. none;
  retry_max_attempts = 1;
}

-- The provider is no provider; the model stays.
abbrev wanted : Dict TaskOverride
wanted =
    (
      "plan",
      record { enabled = none; model = some "m"; reasoning = some "high"; provider = some "other" },
    )
    ∷ []

abbrev overlaid : NodeOverride
overlaid = record { provider = none; model = some "m"; reasoning = some "high" }

resolved : Dict.get (resolve_node_overrides snapshot agents wanted).overlay "plan" ≡ some overlaid
unfolding resolve_node_overrides coerce_provider is_reasoning_supported build_snapshot Dict.get
    Dict.put
resolved = refl

abbrev overriding : Setup
overriding = record setup {
  node_overrides = (resolve_node_overrides snapshot agents wanted).overlay;
}

apply_overrides-resolved_example :
    (m : FlowNode) × (apply_overrides overriding (agent_named "plan") ≡ some m)
unfolding build_snapshot Dict.get Dict.put
apply_overrides-resolved_example =
    apply_overrides-resolved overriding agents wanted "plan" (agent_named "plan") snapshot-IsIndexed
      refl refl

abbrev used : ℕ → ℕ → NormalizedUsage
used i o = record {
  scope = session_cumulative;
  input_total = some (pos i);
  cache_read = none;
  cache_write = none;
  uncached_input = none;
  output_total = some (pos o);
  reasoning_output = none;
  cost = none;
}

compute_usage_delta-AddsUp_example :
    ((d : NormalizedUsage) × (compute_usage_delta
          (some (used 9 4))
          (some (used 5 1))
          (some "s")
          (some "s")
        ≡ (some d, some "ok"))
      × AddsUp d (used 5 1) (used 9 4))
    ⊎ ((compute_usage_delta (some (used 9 4)) (some (used 5 1)) (some "s") (some "s")
          ≡ (none, some "unknown"))
        × SomeShrank (used 9 4) (used 5 1))
compute_usage_delta-AddsUp_example =
    compute_usage_delta-AddsUp (used 9 4) (used 5 1) (some "s") (some "s") refl refl

deserialize_usage-snapshot_for_lineage_example :
    deserialize_usage
      (λ s. some (object (as_dict (used 9 4))))
      (snapshot_for_lineage (λ v. "{}") (some (used 9 4)))
    ≡ (if is_cumulative session_cumulative then stored (as_stored (used 9 4)) else absent)
deserialize_usage-snapshot_for_lineage_example =
    deserialize_usage-snapshot_for_lineage (λ v. "{}") (λ s. some (object (as_dict (used 9 4))))
      (used 9 4) refl refl

find_forbidden_args_iff_example :
    find_forbidden_args ("--sandbox=danger-full-access" ∷ "-m" ∷ []) ≡ [] ↔ (
      (token : String) (rest : List String)
      → At token rest ("--sandbox=danger-full-access" ∷ "-m" ∷ [])
      → IsSafeToken token rest)
find_forbidden_args_iff_example =
    find_forbidden_args_iff ("--sandbox=danger-full-access" ∷ "-m" ∷ [])

abbrev evidence : List Evidence
evidence = record { type = " Check"; ref = "r" } ∷ []

should_promote-IsGrounded_example :
    IsGrounded evidence 2 2 false false × (true ≡ true) × (false ≡ false)
unfolding should_promote assign_trust is_of
should_promote-IsGrounded_example =
    should_promote-IsGrounded evidence true 2 2 false false false refl
