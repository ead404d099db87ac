-- ===== src/Flow/Host.antt =====
-- core/flow/engine.py, the types at the engine's seams: what a node returns, what it is handed, and
-- the protocols that the driver injects (`NodeRunner`, `RunRecorder`, the callables). The driver's
-- side of them is the record `Host` over a world `W`, which stands for all that they read and write.
use wastech_orchestrator.Prelude.{ℕ, Bool, String, Option, List}
use wastech_orchestrator.Prelude.Dict.{Dict}
use wastech_orchestrator.Prelude.Json.{Value}
use wastech_orchestrator.Providers.Base.{ProviderId}
use wastech_orchestrator.Status.{Status}
use wastech_orchestrator.Flow.Schema.{FlowNode, agent, evaluator, checks, tool, hitl, publish}
use wastech_orchestrator.Flow.Snapshot.{FlowSnapshot}
use wastech_orchestrator.Flow.RunState.{FlowRunState}
use wastech_orchestrator.Flow.LoopControl.{Limits}

pub data Severity : Type 0 where
  low medium high : Severity

pub record Finding : Type 0 where
  pub severity : Severity
  pub reason : String
  pub paths : List String
  pub fix : Option String

pub record NodeOutcome : Type 0 where
  pub kind : String
  pub findings : List Finding
  pub structured_output : Option Value
  pub final_message : Option String
  pub rework_exhausted : Bool
  pub rework_limit : Option String
  pub provider_fallback : Option String
  pub unexpected_write : Bool
  pub git_control_drift : Option String
  pub adopted_commits : List String
  pub gating_findings_name_no_path : Bool

pub record NodeResult : Type 0 where
  pub node_id : String
  pub outcome : NodeOutcome
  pub node_run_id : ℕ

pub record NodeContext : Type 0 where
  pub snapshot : FlowSnapshot
  pub run_state : FlowRunState
  pub node : FlowNode
  pub task_id : String
  pub subtask_order : Option ℕ
  pub rework_refusal : Option String

-- node.kind
pub data Kind : Type 0 where
  agent_kind evaluator_kind checks_kind tool_kind hitl_kind publish_kind : Kind

abbrev pub node_kind : FlowNode → Kind
node_kind (agent _) = agent_kind
node_kind (evaluator _) = evaluator_kind
node_kind (checks _) = checks_kind
node_kind (tool _) = tool_kind
node_kind (hitl _) = hitl_kind
node_kind (publish _) = publish_kind

-- A call of a runner returns, or an exception passes through.
pub data Ran : Type 0 where
  returned : NodeResult → Ran
  raised : String → Ran

abbrev pub NodeRunner : Type 0 → Type 0
NodeRunner W = FlowNode → NodeContext → W → Ran × W

pub record Host (W : Type 0) : Type 0 where
  -- `runners.get(kind)`
  pub runners : Kind → Option (NodeRunner W)
  pub facts : String → W → Bool
  pub is_cancelled : W → Bool × W
  -- the exception that the hook raised, if it did
  pub post_node : Option (FlowNode → NodeOutcome → ℕ → W → Option String × W)
  pub diff_fingerprint : Option (W → String)
  pub repeated_findings : Option (String → W → ℕ)
  -- the recorder
  pub record_skip : FlowNode → String → Option ℕ → W → W
  pub save_checkpoint : FlowRunState → W → W
  -- node id, loop, limit name, run state, subtask order
  pub write_failure_report :
      String → Option String → String → FlowRunState → Option ℕ → W → String × W

-- The fields that a task may override on a node (core/node_overrides.py emits no others).
pub record NodeOverride : Type 0 where
  pub provider : Option ProviderId
  pub model : Option String
  pub reasoning : Option String

-- The constructor's other arguments.
pub record Setup : Type 0 where
  pub snapshot : FlowSnapshot
  pub limits : Limits
  pub task_id : String
  pub subtask_order : Option ℕ
  pub region : Option (List String)
  pub disabled_nodes : List String
  pub node_overrides : Dict NodeOverride

pub record FlowRunResult : Type 0 where
  pub status : Status
  pub final_node : String
  pub stuck_loop : Option String
  pub limit_name : Option String
  pub failure_report_path : Option String

-- What leaves `run` as an exception. `internal_error` is `EngineInternalError`, `cancelled` is
-- `FlowCancelled`, and `host_raised` one that a runner or a hook raised.
pub data Fault : Type 0 where
  no_runner : Kind → Fault
  internal_error : String → String → Fault
  not_one_entry : Fault
  key_error : String → Fault
  type_error : String → Fault
  assertion_error : Fault
  cancelled : String → Fault
  host_raised : String → Fault

-- The engine's mutable fields, and the world.
pub record Engine (W : Type 0) : Type 0 where
  pub run_state : FlowRunState
  pub stall_fp : Dict String
  pub stall_streak : Dict ℕ
  pub world : W

pub record Stuck : Type 0 where
  pub loop : Option String
  pub limit_name : String
