-- ===== src/Flow/Contracts.antt =====
-- core/flow/contracts.py: the enumerations that the flow schema shares, and the three resolvers of
-- a node's tri-state grants.
use wastech_orchestrator.Prelude.{
  Bool, true, false, ◌&&◌, Option, none, some, List, [], ◌∷◌, String, is_some, or_default,
}

pub data SessionScope : Type 0 where
  fresh_disposable editing_lineage resume_own_lineage : SessionScope

pub data PermissionProfile : Type 0 where
  read_only workspace_write : PermissionProfile

pub data OutputPolicy : Type 0 where
  code_change repository_document private_control_workspace_report : OutputPolicy

pub data PublishingPolicy : Type 0 where
  pull_request documentation_pull_request local_artifact : PublishingPolicy
  private_report no_publishing : PublishingPolicy

pub data NetworkPolicy : Type 0 where
  advisories research : NetworkPolicy

unfoldable pub resolve_network_access : Option Bool → Option NetworkPolicy → Bool
resolve_network_access (some value) policy = value
resolve_network_access none policy = is_some policy

-- `bool(node_value) and allowed`
unfoldable pub resolve_git_evidence : Option Bool → Bool → Bool
resolve_git_evidence node_value allowed = or_default node_value false && allowed

abbrev nonempty {ℓ} : {A : Type ℓ} → List A → Bool
nonempty [] = false
nonempty (_ ∷ _) = true

unfoldable pub resolve_allow_skills : Option Bool → List String → Bool
resolve_allow_skills (some value) declared = value
resolve_allow_skills none declared = nonempty declared
