-- ===== src/Overrides.antt =====
-- core/node_overrides.py: a task's overrides of its flow's nodes, as far as flow and configuration allow.
pub mod Applied
use wastech_orchestrator.Prelude.{
  Bool, true, false, not, ◌&&◌, ◌||◌, String, contains, Option, none, some, is_some, List, [], ◌∷◌,
  ◌++◌, filter, if◌then◌else◌,
}
use wastech_orchestrator.Prelude.Dict
use wastech_orchestrator.Prelude.Dict.{Dict}
use wastech_orchestrator.Providers.Base.{ProviderId}
use wastech_orchestrator.Providers.Reasoning.{
  all_reasoning_levels, is_reasoning_supported, coerce_provider,
}
use wastech_orchestrator.Routing.Config.{AgentsConfig}
use wastech_orchestrator.Routing.Route.{is_primary, contains_id}
use wastech_orchestrator.Flow.Schema.{FlowNode, agent, evaluator}
use wastech_orchestrator.Flow.Snapshot.{FlowSnapshot}
use wastech_orchestrator.Flow.Host.{NodeOverride, Kind, node_kind}

-- task/model.py, `NodeOverride`
pub record TaskOverride : Type 0 where
  pub enabled : Option Bool
  pub model : Option String
  pub reasoning : Option String
  pub provider : Option String

pub data Warning : Type 0 where
  no_such_node : String → Warning
  takes_no_override : String → Kind → Warning
  provider_not_allowed : String → String → Warning
  reasoning_not_supported : String → String → Option ProviderId → Warning

pub record NodeOverrideResolution : Type 0 where
  pub overlay : Dict NodeOverride
  pub warnings : List Warning

-- core/flow/validator.py, `global_primary`
unfoldable pub global_primary : AgentsConfig → Option ProviderId
global_primary agents = elim (filter (is_primary agents) agents.provider_ids) [
  | [] ↦ none
  | pid ∷ rest ↦ elim rest [ [] ↦ some pid | _ ∷ _ ↦ none ]
]

unfoldable pub reasoning_ok : Option ProviderId → String → Bool
unfolding is_reasoning_supported
reasoning_ok none reasoning = contains all_reasoning_levels reasoning
reasoning_ok (some provider) reasoning = is_reasoning_supported provider reasoning

-- a or b
abbrev pub or_provider : Option ProviderId → Option ProviderId → Option ProviderId
or_provider none b = b
or_provider (some p) b = some p

-- The node's own provider, of a node that takes overrides.
unfoldable pub provider_of : FlowNode → Option (Option ProviderId)
provider_of (agent n) = some n.provider
provider_of (evaluator n) = some n.provider
provider_of _ = none

module _ (agents : AgentsConfig) where
  unfoldable pub provider_field : String → Option String → Option ProviderId × List Warning
  unfolding coerce_provider
  provider_field id none = (none, [])
  provider_field id (some value) = elim (coerce_provider value) [
    | none ↦ (none, provider_not_allowed id value ∷ [])
    | some p ↦
        if contains_id agents.allowed p
        then (some p, [])
        else (none, provider_not_allowed id value ∷ [])
  ]

  unfoldable pub reasoning_field :
      String → Option ProviderId → Option String → Option String × List Warning
  unfolding reasoning_ok
  reasoning_field id resolved none = (none, [])
  reasoning_field id resolved (some level) =
      if reasoning_ok resolved level
      then (some level, [])
      else (none, reasoning_not_supported id level resolved ∷ [])

  -- The fields for a node whose own provider is `own`.
  unfoldable pub fields_for :
      String → Option ProviderId → TaskOverride → NodeOverride × List Warning
  unfolding provider_field reasoning_field global_primary
  fields_for id own override =
      let (provider, first) = provider_field id override.provider in
      let resolved = or_provider provider (or_provider own (global_primary agents)) in
      let (reasoning, second) = reasoning_field id resolved override.reasoning in
      (
        record { provider = provider; model = override.model; reasoning = reasoning },
        first ++ second,
      )

-- The override has none of the three.
abbrev pub is_toggle : TaskOverride → Bool
is_toggle o = not (is_some o.model) && (not (is_some o.reasoning) && not (is_some o.provider))

-- if fields:
abbrev pub has_fields : NodeOverride → Bool
has_fields o = is_some o.provider || (is_some o.reasoning || is_some o.model)

-- overlay[id] = fields, if there are any
abbrev pub overlay_with : Dict NodeOverride → String → Option NodeOverride → Dict NodeOverride
overlay_with overlay id none = overlay
overlay_with overlay id (some fields) = Dict.put overlay id fields

module _ (snapshot : FlowSnapshot) (agents : AgentsConfig) where
  -- What is overlaid on one node, if anything.
  unfoldable pub resolve_one : String → TaskOverride → Option NodeOverride × List Warning
  unfolding fields_for provider_of
  resolve_one id override =
      if is_toggle override then (none, []) else elim (Dict.get snapshot.nodes_by_id id) [
        | none ↦ (none, no_such_node id ∷ [])
        | some node ↦ elim (provider_of node) [
          | none ↦ (none, takes_no_override id (node_kind node) ∷ [])
          | some own ↦
              let (fields, warnings) = fields_for agents id own override in
              (if has_fields fields then some fields else none, warnings)
        ]
      ]

  unfoldable pub resolve_from : NodeOverrideResolution → Dict TaskOverride → NodeOverrideResolution
  unfolding resolve_one
  resolve_from done [] = done
  resolve_from done ((id, override) ∷ rest) =
      let (fields, warnings) = resolve_one id override in
      resolve_from
        (record {
          overlay = overlay_with done.overlay id fields;
          warnings = done.warnings ++ warnings;
        })
        rest

  unfoldable pub resolve_node_overrides : Dict TaskOverride → NodeOverrideResolution
  unfolding resolve_from
  resolve_node_overrides = resolve_from (record { overlay = []; warnings = [] })
