-- ===== src/Examples/Graphs.antt =====
-- A valid flow whose middle is run once for each subtask, and the theorems at it.
use wastech_orchestrator.Prelude.{
  ℕ, ◌≡◌, refl, ◌↔◌, inl, true, false, String, Option, none, some, List, [], ◌∷◌, In,
}
use wastech_orchestrator.Prelude.Dict
use wastech_orchestrator.Flow.Contracts.{fresh_disposable, read_only, code_change, pull_request}
use wastech_orchestrator.Flow.Schema.{
  FlowNode, agent, checks, publish, command_profile, Edge, DecompositionConfig, FlowDoc,
}
use wastech_orchestrator.Flow.Snapshot.{FlowSnapshot, build_snapshot, load_flow, loaded}
use wastech_orchestrator.Flow.RunState.{new_run_state}
use wastech_orchestrator.Flow.Routing.{select_edge, entry_node_id, entry, count_edges, zero_keys}
use wastech_orchestrator.Flow.Host.{Engine, Setup}
use wastech_orchestrator.Flow.Engine.{new_engine, iterate, next}
use wastech_orchestrator.Flow.Engine.Step.{IsIndexed}
use wastech_orchestrator.Flow.Snapshot.Build.{load_flow-indexes}
use wastech_orchestrator.Flow.Engine.Visits.{here, then}
use wastech_orchestrator.Flow.Reach.{reachable_nodes}
use wastech_orchestrator.Flow.Reach.Correct.{Reaches}
use wastech_orchestrator.Flow.Reach.Enough.{targets, reachable_nodes_iff}
use wastech_orchestrator.Flow.Exhausted.{ExhaustedLoop, exhausted_fix_loops}
use wastech_orchestrator.Flow.Exhausted.Ahead.{IsSpent, exhausted_fix_loops_iff}
use wastech_orchestrator.Flow.Validator.{
  check_graph, entries, check_edge, check_outcomes, check_bounded, check_loop, check_reached,
  check_entries, terminals, check_terminals, check_lineage, check_decomposition, zero_incoming,
  group,
}
use wastech_orchestrator.Flow.Validator.WellFormed.{IsWellFormed, Way, check_graph-IsWellFormed}
use wastech_orchestrator.Flow.Validator.Entry.{entry_node_id-Way}
use wastech_orchestrator.Flow.Validator.Runs.{AtKnown, Visits-AtKnown}
use wastech_orchestrator.Flow.Disabled.{check_disabled_nodes}
use wastech_orchestrator.Flow.Disabled.Skips.{Skippable, check_disabled_nodes-Skippable}
use wastech_orchestrator.Flow.Phases.{DecompositionRegions, partitioned, partition_decomposition}
use wastech_orchestrator.Flow.Phases.Found.{IsPartition, partition_decomposition-IsPartition}
use wastech_orchestrator.Examples.Data.{host}

abbrev pub agent_named : String → FlowNode
agent_named id = agent (record {
  id = id;
  role_file = "role.md";
  resume_role_file = none;
  session_scope = fresh_disposable;
  lineage_affinity = none;
  permission_profile = none;
  network_access = none;
  git_evidence = none;
  skills = [];
  allow_skills = none;
  provider = none;
  model = none;
  reasoning = none;
  timeout_seconds = none;
  output_schema = none;
  output_artifact = none;
  output_file = none;
  best_effort = false;
  hitl = none;
  extra_args = [];
  when = none;
})

abbrev pub edge_between : String → String → Option String → Option String → Edge
edge_between a b outcome loop = record {
  from_node = a;
  to = b;
  outcome = outcome;
  budget = none;
  loop = loop;
}

abbrev pub split : DecompositionConfig
split = record { proposed_by = "plan"; sub_flow = "work" ∷ "test" ∷ []; shared_budget = none }

abbrev pub doc : FlowDoc
doc = record {
  name = "split";
  task_type = "code";
  permission_ceiling = read_only;
  output_policy = code_change;
  publishing = pull_request;
  nodes =
      agent_named "plan"
      ∷ agent_named "work"
      ∷ checks
          (record { id = "test"; checker = command_profile; manifest = "default"; when = none })
      ∷ publish (record { id = "out"; policy = pull_request; when = none })
      ∷ [];
  edges =
      edge_between "plan" "work" none none
      ∷ edge_between "work" "test" none none
      ∷ edge_between "test" "work" (some "fail") (some "test_fix")
      ∷ edge_between "test" "out" (some "pass") none
      ∷ [];
  budgets = ("test_fix", 2) ∷ [];
  report_dir = none;
  network_policy = none;
  decomposition = some split;
  supervisor = none;
}

abbrev pub snapshot : FlowSnapshot
snapshot = build_snapshot doc "f"

load_flow-doc : load_flow doc "f" ≡ loaded snapshot
unfolding load_flow build_snapshot
load_flow-doc = refl

pub snapshot-IsIndexed : IsIndexed snapshot
snapshot-IsIndexed = record {
  at_id = λ key n h. (load_flow-indexes doc "f" snapshot load_flow-doc).1 key n h;
}

doc-check_graph : check_graph snapshot ≡ []
unfolding check_graph check_edge check_outcomes check_bounded check_loop check_reached check_entries
    terminals check_terminals check_lineage check_decomposition zero_incoming count_edges zero_keys
    group build_snapshot Dict.get Dict.put Dict.keys entries
doc-check_graph = refl

check_graph-IsWellFormed_example : IsWellFormed snapshot
check_graph-IsWellFormed_example = check_graph-IsWellFormed snapshot doc-check_graph

reachable_nodes_iff_example :
    (found : List String) × (reachable_nodes snapshot "work" ≡ some found)
    × ((b : String) → In b found ↔ Reaches (targets snapshot) ("work" ∷ []) b)
reachable_nodes_iff_example = reachable_nodes_iff doc "f" snapshot "work" load_flow-doc

exhausted_fix_loops_iff_example :
    (found : List ExhaustedLoop) × (exhausted_fix_loops snapshot (("test_fix", 2) ∷ []) 3 "plan"
      ≡ some found)
    × ((x : ExhaustedLoop) → In x found ↔ IsSpent snapshot (("test_fix", 2) ∷ []) 3 "plan" x)
exhausted_fix_loops_iff_example =
    exhausted_fix_loops_iff snapshot (("test_fix", 2) ∷ []) 3 doc "f" "plan" load_flow-doc

entry_node_id-Way_example :
    (a : String) × (entry_node_id snapshot ≡ entry a)
    × (entries doc ≡ a ∷ [])
    × (Dict.has snapshot.nodes_by_id a ≡ true)
    × ((k : String) → Dict.has snapshot.nodes_by_id k ≡ true → Way doc.edges a k)
entry_node_id-Way_example = entry_node_id-Way doc "f" snapshot load_flow-doc doc-check_graph

abbrev pub setup : Setup
setup = record {
  snapshot = snapshot;
  limits = record { max_fix_cycles = 3; max_total_fix_iterations = 5 };
  task_id = "t";
  subtask_order = none;
  region = none;
  disabled_nodes = [];
  node_overrides = [];
}

abbrev planning : Engine ℕ
planning = new_engine (record (new_run_state "f") { current_node = some "plan" }) 0

abbrev working : Engine ℕ
working = record planning {
  run_state = record planning.run_state {
    current_node = some "work";
    completed_nodes = "plan" ∷ [];
  };
}

planned : iterate host setup planning ≡ next working
unfolding iterate Dict.get build_snapshot Dict.put select_edge
planned = refl

Visits-AtKnown_example : AtKnown snapshot working
unfolding build_snapshot Dict.get Dict.put
Visits-AtKnown_example =
    Visits-AtKnown host setup doc "f" {e = planning} {e' = working} "plan" load_flow-doc
      doc-check_graph refl refl (then here planned)

check_disabled_nodes-Skippable_example : Skippable snapshot "test"
unfolding check_disabled_nodes build_snapshot Dict.get Dict.put
check_disabled_nodes-Skippable_example =
    check_disabled_nodes-Skippable snapshot ("test" ∷ []) "test" refl (inl refl)

partition_decomposition-IsPartition_example :
    (r : DecompositionRegions) × (partition_decomposition (λ xs. xs) snapshot ≡ partitioned r)
    × IsPartition snapshot split r
unfolding build_snapshot
partition_decomposition-IsPartition_example =
    partition_decomposition-IsPartition (λ xs. xs) doc "f" snapshot split
      (λ xs x. ((λ i. i), λ i. i)) load_flow-doc doc-check_graph refl
