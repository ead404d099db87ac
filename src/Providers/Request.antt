-- ===== src/Providers/Request.antt =====
-- providers/base.py: what an adapter is handed and what it gives back. Paths are strings, and a
-- price, which is a float, is kept as its literal. An exit code
-- is a sign and a magnitude.
use wastech_orchestrator.Prelude.{ℕ, Bool, String, Option, List}
use wastech_orchestrator.Prelude.Int.{ℤ}
use wastech_orchestrator.Prelude.Json.{Value}
use wastech_orchestrator.Providers.Base.{ErrorClass, NormalizedError, RunStatus}

-- runtime_layout.py
pub record ProviderWriteGuardPolicy : Type 0 where
  pub exchange_root : Option String
  pub git_dir : String
  pub git_common_dir : String
  pub hooks_dir : String
  pub tasks_dir : String

pub record AgentRunRequest : Type 0 where
  pub task_id : String
  pub node_id : String
  pub working_directory : String
  pub prompt : String
  pub permission_profile : String
  pub timeout_seconds : ℕ
  pub attempt : ℕ
  pub node_run_id : ℕ
  pub task_path : Option String
  pub plan_path : Option String
  pub diff_path : Option String
  pub change_overview_path : Option String
  pub diff_base : Option String
  pub check_artifacts_path : Option String
  pub review_artifacts_path : Option String
  pub human_input_path : Option String
  pub conflicts_path : Option String
  pub rework_report_path : Option String
  pub supervisor_packet_path : Option String
  pub output_schema : Option Value
  pub model : Option String
  pub extra_args : List String
  pub reasoning : Option String
  pub session_id : Option String
  pub continuation_prompt : Option String
  pub resume_baseline_output_tokens : Option ℕ
  pub network_access : Bool
  pub git_evidence : Bool
  pub write_guard : Option ProviderWriteGuardPolicy
  pub security_preamble : Option String
  pub change_guidance : Option String
  pub required_skills : List String
  pub allow_skills : Bool

pub data UsageScope : Type 0 where
  session_cumulative per_invocation : UsageScope

pub record NormalizedUsage : Type 0 where
  pub scope : UsageScope
  pub input_total : Option ℤ
  pub cache_read : Option ℤ
  pub cache_write : Option ℤ
  pub uncached_input : Option ℤ
  pub output_total : Option ℤ
  pub reasoning_output : Option ℤ
  pub cost : Option String

pub record AgentRunResult : Type 0 where
  pub status : RunStatus
  pub provider : String
  pub node_id : String
  pub attempt : ℕ
  pub exit_code : Option (Bool × ℕ)
  pub started_at : String
  pub finished_at : String
  pub final_message : Option String
  pub structured_output : Option Value
  pub usage : Option Value
  pub normalized_usage : Option NormalizedUsage
  pub model : Option String
  pub reasoning : Option String
  pub stdout_path : Option String
  pub stderr_path : Option String
  pub event_log_path : Option String
  pub error : Option NormalizedError

pub record ProviderError : Type 0 where
  pub error_class : ErrorClass
  pub message : String
  pub resets_at : Option String
  pub result : Option AgentRunResult
