-- ===== src/Flow/Schema.antt =====
-- core/flow/schema.py: nodes, edges and the flow document. An integer of the source is a natural
-- number: budgets, timeouts and ceilings are compared with counters that start at 0, so a negative
-- one behaves as 0. A float argument of a tool is kept as its literal.
use wastech_orchestrator.Prelude.{
  ℕ, Bool, false, String, Option, none, some, List, contains, [], ◌∷◌,
}
use wastech_orchestrator.Prelude.Dict.{Dict}
use wastech_orchestrator.Providers.Base.{ProviderId}
use wastech_orchestrator.Flow.Contracts.{
  SessionScope, PermissionProfile, OutputPolicy, PublishingPolicy, NetworkPolicy,
}

pub record WhenPredicate : Type 0 where
  pub fact : String
  pub equals : Bool

pub record HitlSettings : Type 0 where
  pub allow_question : Bool
  pub allow_approval : Bool

pub record AgentNode : Type 0 where
  pub id : String
  pub role_file : String
  pub resume_role_file : Option String
  pub session_scope : SessionScope
  pub lineage_affinity : Option String
  pub permission_profile : Option PermissionProfile
  pub network_access : Option Bool
  pub git_evidence : Option Bool
  pub skills : List String
  pub allow_skills : Option Bool
  pub provider : Option ProviderId
  pub model : Option String
  pub reasoning : Option String
  pub timeout_seconds : Option ℕ
  pub output_schema : Option String
  pub output_artifact : Option String
  pub output_file : Option String
  pub best_effort : Bool
  pub hitl : Option HitlSettings
  pub extra_args : List String
  pub when : Option WhenPredicate

pub record EvaluatorNode : Type 0 where
  pub id : String
  pub role : String
  pub role_file : String
  pub resume_role_file : Option String
  pub session_scope : SessionScope
  pub permission_profile : PermissionProfile
  pub network_access : Option Bool
  pub git_evidence : Option Bool
  pub blocking : Bool
  pub max_rework_per_stage : ℕ
  pub gate_severity : String
  pub provider : Option ProviderId
  pub model : Option String
  pub reasoning : Option String
  pub when : Option WhenPredicate

pub data Checker : Type 0 where
  command_profile citation dependency_scan : Checker

pub record ChecksNode : Type 0 where
  pub id : String
  pub checker : Checker
  pub manifest : String
  pub when : Option WhenPredicate

pub data Scalar : Type 0 where
  text : String → Scalar
  int : Bool → ℕ → Scalar
  float : String → Scalar
  bool : Bool → Scalar

pub record ToolNode : Type 0 where
  pub id : String
  pub tool : String
  pub args : Dict Scalar
  pub timeout_seconds : Option ℕ
  pub when : Option WhenPredicate

pub data Signal : Type 0 where
  question approval : Signal

pub record HitlNode : Type 0 where
  pub id : String
  pub signal : Signal
  pub timeout_s : Option ℕ
  pub when : Option WhenPredicate

pub record PublishNode : Type 0 where
  pub id : String
  pub policy : PublishingPolicy
  pub when : Option WhenPredicate

pub data FlowNode : Type 0 where
  agent : AgentNode → FlowNode
  evaluator : EvaluatorNode → FlowNode
  checks : ChecksNode → FlowNode
  tool : ToolNode → FlowNode
  hitl : HitlNode → FlowNode
  publish : PublishNode → FlowNode

-- node.id
abbrev pub node_id : FlowNode → String
node_id (agent n) = n.id
node_id (evaluator n) = n.id
node_id (checks n) = n.id
node_id (tool n) = n.id
node_id (hitl n) = n.id
node_id (publish n) = n.id

-- node.when
abbrev pub node_when : FlowNode → Option WhenPredicate
node_when (agent n) = n.when
node_when (evaluator n) = n.when
node_when (checks n) = n.when
node_when (tool n) = n.when
node_when (hitl n) = n.when
node_when (publish n) = n.when

pub record Edge : Type 0 where
  pub from_node : String
  pub to : String
  pub outcome : Option String
  pub budget : Option ℕ
  pub loop : Option String

-- `outcome in REWORK_OUTCOMES`
abbrev pub is_rework_outcome : Option String → Bool
is_rework_outcome none = false
is_rework_outcome (some outcome) = contains ("rework" ∷ "fail" ∷ []) outcome

abbrev pub is_rework : Edge → Bool
is_rework edge = is_rework_outcome edge.outcome

pub record DecompositionConfig : Type 0 where
  pub proposed_by : String
  pub sub_flow : List String
  pub shared_budget : Option String

-- config/schema.py, `ObserveMode`
pub data ObserveMode : Type 0 where
  observe_all observe_selected observe_events observe_none : ObserveMode

pub record SupervisorBlock : Type 0 where
  pub role_file : Option String
  pub finalize_role_file : Option String
  pub handoff_role_file : Option String
  pub emit_follow_ups : Bool
  pub observe : Option (Option ObserveMode)

pub record FlowDoc : Type 0 where
  pub name : String
  pub task_type : String
  pub permission_ceiling : PermissionProfile
  pub output_policy : OutputPolicy
  pub publishing : PublishingPolicy
  pub nodes : List FlowNode
  pub edges : List Edge
  pub budgets : Dict ℕ
  pub report_dir : Option String
  pub network_policy : Option NetworkPolicy
  pub decomposition : Option DecompositionConfig
  pub supervisor : Option SupervisorBlock
