-- ===== src/Routing/Route.antt =====
-- routing/router.py, `_resolve_global_primary` and `AgentRouter.resolve_route`.
pub mod Available
use wastech_orchestrator.Prelude.{
  Bool, true, false, not, ◌&&◌, String, Option, none, some, List, [], ◌∷◌, ◌++◌, any, filter,
  is_some, or_default, if◌then◌else◌,
}
use wastech_orchestrator.Providers.Base.{ProviderId, same_provider}
use wastech_orchestrator.Routing.Config.{AgentsConfig, AgentRouter}

pub data RouteSource : Type 0 where
  config flow_node : RouteSource

pub record ResolvedRoute : Type 0 where
  pub node_id : String
  pub primary : ProviderId
  pub fallback : Option ProviderId
  pub source : RouteSource

pub data Role : Type 0 where
  primary_role fallback_role : Role

-- The issues that a `ConfigError` lists.
pub data Issue : Type 0 where
  primaries_found : List ProviderId → Issue
  not_allowed no_entry no_instance : Role → ProviderId → Issue

pub data Resolved {ℓ} (A : Type ℓ) : Type ℓ where
  config_error : List Issue → Resolved A
  resolved : A → Resolved A

abbrev pub is_primary : AgentsConfig → ProviderId → Bool
is_primary agents pid = elim (agents.provider pid) [ none ↦ false | some cfg ↦ cfg.primary ]

unfoldable pub resolve_global_primary : AgentsConfig → Resolved ProviderId
resolve_global_primary agents = elim (filter (is_primary agents) agents.provider_ids) [
  | [] ↦ config_error (primaries_found [] ∷ [])
  | pid ∷ rest ↦ elim rest [
    | [] ↦ resolved pid
    | other ∷ others ↦ config_error (primaries_found (pid ∷ other ∷ others) ∷ [])
  ]
]

-- `pid in pids`
abbrev pub contains_id : List ProviderId → ProviderId → Bool
contains_id pids pid = any (same_provider pid) pids

unfoldable pub other_allowed_provider : AgentsConfig → ProviderId → Option ProviderId
other_allowed_provider agents primary =
    elim (filter (λ pid. not (same_provider pid primary) && is_some (agents.provider pid))
      agents.allowed) [ [] ↦ none | pid ∷ rest ↦ elim rest [ [] ↦ some pid | _ ∷ _ ↦ none ] ]

abbrev pub issue_if : Bool → Issue → List Issue
issue_if true issue = issue ∷ []
issue_if false issue = []

module _ {W : Type 0} (router : AgentRouter W) where
  open router use {agents, providers}

  abbrev pub role_issues : Role → Option ProviderId → List Issue
  role_issues role none = []
  role_issues role (some pid) =
      issue_if (not (contains_id agents.allowed pid)) (not_allowed role pid)
      ++ (issue_if (not (is_some (agents.provider pid))) (no_entry role pid)
          ++ issue_if (not (is_some (providers pid))) (no_instance role pid))

  unfoldable pub assert_available : ProviderId → Option ProviderId → List Issue
  assert_available primary fallback =
      role_issues primary_role (some primary) ++ role_issues fallback_role fallback

  abbrev pub checked : ResolvedRoute → List Issue → Resolved ResolvedRoute
  checked route [] = resolved route
  checked route (issue ∷ issues) = config_error (issue ∷ issues)

  abbrev pub source_of : Option ProviderId → RouteSource
  source_of none = config
  source_of (some _) = flow_node

  -- `self._global_primary` is the argument.
  unfoldable pub resolve_route : ProviderId → String → Option ProviderId → Resolved ResolvedRoute
  unfolding assert_available other_allowed_provider same_provider
  resolve_route global_primary node_id provider =
      let primary = or_default provider global_primary in
      let fallback =
        if same_provider primary global_primary
        then other_allowed_provider agents primary
        else some global_primary in
      checked
        (record {
          node_id = node_id;
          primary = primary;
          fallback = fallback;
          source = source_of provider;
        })
        (assert_available primary fallback)
