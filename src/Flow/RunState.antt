-- ===== src/Flow/RunState.antt =====
-- core/flow/run_state.py: the checkpoint of one traversal. A method that mutates `self` returns the
-- new record.
pub mod Keys
pub mod Counters
use wastech_orchestrator.Prelude.{
  ℕ, ◌+◌, Bool, ◌||◌, String, Option, none, List, [], ◌∷◌, ◌++◌, concat, starts_with, str_eq,
  filter,
}
use wastech_orchestrator.Prelude.Dict.{Dict}
use wastech_orchestrator.Prelude.Dict

abbrev pub global_fix_key : String
global_fix_key = "global_fix_iterations"

abbrev pub total_prefix : String
total_prefix = "total_fix:"

pub record FlowRunState : Type 0 where
  pub flow_fingerprint : String
  pub current_node : Option String
  pub completed_nodes : List String
  pub loop_counters : Dict ℕ

-- FlowRunState(flow_fingerprint=...)
abbrev pub new_run_state : String → FlowRunState
new_run_state fingerprint = record {
  flow_fingerprint = fingerprint;
  current_node = none;
  completed_nodes = [];
  loop_counters = [];
}

abbrev pub counter : FlowRunState → String → ℕ
counter s key = Dict.get_or s.loop_counters key 0

abbrev pub fix_iterations : FlowRunState → ℕ
fix_iterations s = Dict.get_or s.loop_counters global_fix_key 0

abbrev pub total_key : String → String
total_key loop = concat total_prefix loop

abbrev pub total : FlowRunState → String → ℕ
total s loop = Dict.get_or s.loop_counters (total_key loop) 0

-- The source's `bump` also returns the new value, which no caller of the engine reads.
unfoldable pub bump : FlowRunState → String → FlowRunState
bump s key = record s { loop_counters = Dict.put s.loop_counters key (counter s key + 1) }

unfoldable pub reset : FlowRunState → String → FlowRunState
reset s key = record s { loop_counters = Dict.pop s.loop_counters key }

abbrev pub mark_completed : FlowRunState → String → FlowRunState
mark_completed s node_id = record s { completed_nodes = s.completed_nodes ++ node_id ∷ [] }

-- Which keys survive a fresh fix budget.
abbrev pub preserved : String × ℕ → Bool
preserved (key, value) = str_eq key global_fix_key || starts_with key total_prefix

unfoldable pub reset_consecutive_fix_budget : FlowRunState → FlowRunState
reset_consecutive_fix_budget s = record s { loop_counters = filter preserved s.loop_counters }
