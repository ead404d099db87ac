-- ===== src/Flow/Execution.antt =====
-- core/flow/engine.py, `FlowEngine._execute_node` and what it calls: overrides, skips, the runner,
-- the hook.
use wastech_orchestrator.Prelude.{
  Bool, true, false, not, ◌||◌, String, Option, none, some, List, [], ◌∷◌, contains, concat, str_eq,
  is_some, or_default, if◌then◌else◌,
}
use wastech_orchestrator.Prelude.Dict
use wastech_orchestrator.Flow.Schema.{
  FlowNode, agent, evaluator, Edge, WhenPredicate, node_id, node_when,
}
use wastech_orchestrator.Flow.Snapshot.{outgoing}
use wastech_orchestrator.Flow.RunState.{FlowRunState}
use wastech_orchestrator.Flow.LoopControl.{ReworkRefusal, rework_refusal}
use wastech_orchestrator.Flow.Host.{
  NodeOutcome, NodeResult, NodeContext, returned, raised, node_kind, Host, NodeOverride, Setup,
  Fault, no_runner, host_raised,
}
use wastech_orchestrator.Flow.Routing.{skip_outcome}

pub data Executed : Type 0 where
  outcome : NodeOutcome → Executed
  failed : Fault → Executed

abbrev pick {ℓ} : {A : Type ℓ} → Option A → Option A → Option A
pick none old = old
pick (some new) old = some new

-- `replace(node, **fields)`; a field that the node's class lacks is a TypeError.
unfoldable pub replace_fields : FlowNode → NodeOverride → Option FlowNode
replace_fields (agent n) o = some (
    agent (record n {
      provider = pick o.provider n.provider;
      model = pick o.model n.model;
      reasoning = pick o.reasoning n.reasoning;
    }))
replace_fields (evaluator n) o = some (
    evaluator (record n {
      provider = pick o.provider n.provider;
      model = pick o.model n.model;
      reasoning = pick o.reasoning n.reasoning;
    }))
replace_fields node o =
    if is_some o.provider || is_some o.model || is_some o.reasoning then none else some node

abbrev edge_shown : Bool → String
edge_shown true = "True"
edge_shown false = "False"

-- One phrase for the limit that refuses an edge.
unfoldable pub describe_refusal : ReworkRefusal → String
describe_refusal r =
    if str_eq r.limit_name "max_fix_cycles"
    then concat "fix loop '" (
        concat (or_default r.loop "None")
          "' budget spent (min of its flow budget and max_fix_cycles)")
    else if str_eq r.limit_name "max_total_fix_iterations"
    then "global fix backstop spent (max_total_fix_iterations)"
    else concat "inline rework budget spent (" (concat r.limit_name ")")

module _ (setup : Setup) where
  open setup use {snapshot, limits, subtask_order}

  unfoldable pub apply_overrides : FlowNode → Option FlowNode
  unfolding replace_fields
  apply_overrides node = elim (Dict.get setup.node_overrides (node_id node)) [
    | none ↦ some node
    | some fields ↦ replace_fields node fields
  ]

  unfoldable pub skip_reason : FlowNode → String
  skip_reason node =
      if contains setup.disabled_nodes (node_id node)
      then concat "disabled by task: nodes." (concat (node_id node) ".enabled=false")
      else elim (node_when node) [
        | none ↦ "deterministic skip: when ? != True"
        | some when ↦
            concat "deterministic skip: when "
              (concat when.fact (concat " != " (edge_shown when.equals)))
      ]

  abbrev refusal : FlowRunState → Edge → Option ReworkRefusal
  refusal s edge = rework_refusal snapshot s edge limits

  -- The first refused `rework` edge, in operator words.
  unfoldable pub first_refusal : FlowRunState → List Edge → Option String
  unfolding describe_refusal
  first_refusal s [] = none
  first_refusal s (edge ∷ rest) =
      let others = first_refusal s rest in
      elim edge.outcome [
        | none ↦ others
        | some kind ↦
            if str_eq kind "rework"
            then elim (refusal s edge) [ none ↦ others | some r ↦ some (describe_refusal r) ]
            else others
      ]

  unfoldable pub node_rework_refusal : FlowRunState → FlowNode → Option String
  unfolding first_refusal
  node_rework_refusal s node = first_refusal s (outgoing snapshot (node_id node))

  abbrev context : FlowRunState → FlowNode → NodeContext
  context s node = record {
    snapshot = snapshot;
    run_state = s;
    node = node;
    task_id = setup.task_id;
    subtask_order = subtask_order;
    rework_refusal = node_rework_refusal s node;
  }

module _ {W : Type 0} (host : Host W) where
  -- The hook after an executed node.
  unfoldable pub run_post_node : FlowNode → NodeResult → W → Executed × W
  run_post_node node result w = elim host.post_node [
    | none ↦ (outcome result.outcome, w)
    | some hook ↦
        let (exception, w') = hook node result.outcome result.node_run_id w in
        (elim exception [ none ↦ outcome result.outcome | some x ↦ failed (host_raised x) ], w')
  ]

module _ {W : Type 0} (host : Host W) (setup : Setup) where
  abbrev when_fails : Option WhenPredicate → W → Bool
  when_fails none w = false
  when_fails (some when) w =
      if when.equals then not (host.facts when.fact w) else host.facts when.fact w

  unfoldable pub should_skip : FlowNode → W → Bool
  should_skip node w =
      if contains setup.disabled_nodes (node_id node) then true else when_fails (node_when node) w

  unfoldable pub execute_node : FlowNode → FlowRunState → W → Executed × W
  unfolding should_skip skip_reason run_post_node
  execute_node node s w =
      if should_skip node w
      then (
        outcome (skip_outcome node),
        host.record_skip node (skip_reason setup node) setup.subtask_order w,
      )
      else elim (host.runners (node_kind node)) [
        | none ↦ (failed (no_runner (node_kind node)), w)
        | some runner ↦
            let (ran, w') = runner node (context setup s node) w in
            elim ran [
              | raised x ↦ (failed (host_raised x), w')
              | returned result ↦ run_post_node host node result w'
            ]
      ]
