-- ===== src/Examples/Data.antt =====
-- A flow of three nodes: `implement` leads to `verify`, which sends the work back on a failure, at most
-- twice, and on to `publish` otherwise.
use wastech_orchestrator.Prelude.{
  ℕ, zero, suc, ◌+◌, ◌≤◌, ◌<◌, ◌≡◌, refl, subst, String, Option, none, some, [], ◌∷◌, In, inl, inr,
  true, false, arith, str_eq, eq_iff, if◌then◌else◌,
}
use wastech_orchestrator.Prelude.Dict
use wastech_orchestrator.Prelude.Chars.{occurs}
use wastech_orchestrator.Flow.Contracts.{read_only, code_change, pull_request}
use wastech_orchestrator.Flow.Schema.{
  FlowNode, checks, tool, publish, command_profile, Edge, FlowDoc, is_rework, node_id,
}
use wastech_orchestrator.Flow.Snapshot.{FlowSnapshot, build_snapshot, load_flow, loaded}
use wastech_orchestrator.Flow.Snapshot.Build.{load_flow-indexes, outgoing-declared}
use wastech_orchestrator.Flow.RunState.{FlowRunState, new_run_state}
use wastech_orchestrator.Flow.RunState.Keys.{IsPlain}
use wastech_orchestrator.Flow.Host.{
  Kind, NodeContext, Ran, returned, NodeRunner, Host, Setup, Engine,
}
use wastech_orchestrator.Flow.Routing.{plain_outcome}
use wastech_orchestrator.Flow.Charging.Counters.{IsPlainEdge}
use wastech_orchestrator.Flow.Engine.{new_engine}
use wastech_orchestrator.Flow.Engine.Step.{IsIndexed}
use wastech_orchestrator.Flow.Engine.Budgets.{HasPlainLoops, IsWithin}
use wastech_orchestrator.Flow.Engine.Termination.{IsRanked}

abbrev pub implement : FlowNode
implement =
    tool
      (record { id = "implement"; tool = "edit"; args = []; timeout_seconds = none; when = none })

abbrev pub verify : FlowNode
verify =
    checks (record { id = "verify"; checker = command_profile; manifest = "default"; when = none })

abbrev pub publish_node : FlowNode
publish_node = publish (record { id = "publish"; policy = pull_request; when = none })

abbrev pub onward : Edge
onward = record {
  from_node = "implement";
  to = "verify";
  outcome = none;
  budget = none;
  loop = none;
}

abbrev pub back : Edge
back = record {
  from_node = "verify";
  to = "implement";
  outcome = some "fail";
  budget = none;
  loop = some "test_fix";
}

abbrev pub out : Edge
out = record {
  from_node = "verify";
  to = "publish";
  outcome = some "pass";
  budget = none;
  loop = none;
}

abbrev pub doc : FlowDoc
doc = record {
  name = "small";
  task_type = "code";
  permission_ceiling = read_only;
  output_policy = code_change;
  publishing = pull_request;
  nodes = implement ∷ verify ∷ publish_node ∷ [];
  edges = onward ∷ back ∷ out ∷ [];
  budgets = ("test_fix", 2) ∷ [];
  report_dir = none;
  network_policy = none;
  decomposition = none;
  supervisor = none;
}

abbrev pub snapshot : FlowSnapshot
snapshot = build_snapshot doc "f"

pub load_flow-doc : load_flow doc "f" ≡ loaded snapshot
unfolding load_flow build_snapshot
load_flow-doc = refl

pub snapshot-IsIndexed : IsIndexed snapshot
snapshot-IsIndexed = record {
  at_id = λ key n h. (load_flow-indexes doc "f" snapshot load_flow-doc).1 key n h;
}

pub test_fix-IsPlain : IsPlain "test_fix"
unfolding occurs
test_fix-IsPlain = record {
  no_colon = refl;
  not_global = λ h. ground (arith, (eq_iff "test_fix" "global_fix_iterations").1 h);
}

pub doc-IsPlainEdge : (edge : Edge) → In edge doc.edges → IsPlainEdge edge
doc-IsPlainEdge edge (inl e) = record { loop_plain = λ l h. absurd (ground (arith, e, h)) }
doc-IsPlainEdge edge (inr (inl e)) = record {
  loop_plain = λ l h. subst IsPlain (ground (arith, e, h)) test_fix-IsPlain;
}
doc-IsPlainEdge edge (inr (inr (inl e))) = record {
  loop_plain = λ l h. absurd (ground (arith, e, h));
}
doc-IsPlainEdge edge (inr (inr (inr e))) = absurd e

pub snapshot-HasPlainLoops : HasPlainLoops snapshot
snapshot-HasPlainLoops = record {
  plain_at = λ n e h. doc-IsPlainEdge e (outgoing-declared doc "f" snapshot n e load_flow-doc h).0;
}

abbrev pub rank : String → ℕ
rank id = if str_eq id "implement" then 2 else if str_eq id "verify" then 1 else 0

rank_bounded : (id : String) → rank id ≤ 2
rank_bounded id = ground arith

rank_descends :
    (edge : Edge) → In edge doc.edges → is_rework edge ≡ false → rank edge.to < rank edge.from_node
rank_descends edge (inl e) r = rw e (omega arith)
rank_descends edge (inr (inl e)) r = absurd (ground (arith, e, r))
rank_descends edge (inr (inr (inl e))) r = rw e (omega arith)
rank_descends edge (inr (inr (inr e))) r = absurd e

pub snapshot-IsRanked : IsRanked snapshot rank 2
snapshot-IsRanked = record {
  bounded = rank_bounded;
  descends = λ node edge h r.
      let (m, at) = outgoing-declared doc "f" snapshot node edge load_flow-doc h in
      subst (λ n. rank edge.to < rank n) at (rank_descends edge m r);
}

-- The world counts the calls of the checks; the first of them fails.
abbrev answer : String → NodeContext → FlowNode → ℕ → Ran × ℕ
answer kind context node w =
    (returned (record { node_id = node_id node; outcome = plain_outcome kind; node_run_id = w }), w)

abbrev runner : Kind → Option (NodeRunner ℕ)
runner Kind.checks_kind =
    some (λ node context w. answer (elim w [ zero ↦ "fail" | suc _ ↦ "pass" ]) context node (w + 1))
runner _ = some (λ node context w. answer "done" context node w)

abbrev pub host : Host ℕ
host = record {
  runners = runner;
  facts = λ fact w. true;
  is_cancelled = λ w. (false, w);
  post_node = none;
  diff_fingerprint = none;
  repeated_findings = none;
  record_skip = λ node reason order w. w;
  save_checkpoint = λ s w. w;
  write_failure_report = λ node loop limit s order w. ("report", w);
}

abbrev pub setup : Setup
setup = record {
  snapshot = snapshot;
  limits = record { max_fix_cycles = 3; max_total_fix_iterations = 5 };
  task_id = "t";
  subtask_order = none;
  region = none;
  disabled_nodes = [];
  node_overrides = [];
}

-- At the checks, the first time.
abbrev pub at_verify : FlowRunState
at_verify = record (new_run_state "f") { current_node = some "verify" }

abbrev pub checking : Engine ℕ
checking = new_engine at_verify 0

-- The same, after they failed.
abbrev pub sent_back : Engine ℕ
sent_back = record checking {
  run_state = record {
    flow_fingerprint = "f";
    current_node = some "implement";
    completed_nodes = "verify" ∷ [];
    loop_counters = ("global_fix_iterations", 1) ∷ ("test_fix", 1) ∷ ("total_fix:test_fix", 1) ∷ [];
  };
  world = 1;
}

pub at_verify-IsWithin : IsWithin setup at_verify
unfolding Dict.get
at_verify-IsWithin = record { global = omega arith; loops = λ loop p. omega arith }
