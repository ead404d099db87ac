-- ===== src/Flow/Engine/Step.antt =====
-- What one round of `run` does when the run goes on: it took one declared edge out of the current
-- node, and charged or cleared the counters of that node.
use wastech_orchestrator.Prelude.{
  ◌≡◌, refl, sym, ap, ◌∙◌, inl, inr, true, false, String, none, some, [], ◌∷◌, ◌++◌, In, Bool-cases,
  Option-cases, arith,
}
use wastech_orchestrator.Prelude.Dict
use wastech_orchestrator.Flow.Schema.{
  FlowNode, agent, evaluator, checks, tool, hitl, publish, Edge, node_id, is_rework,
}
use wastech_orchestrator.Flow.Snapshot.{FlowSnapshot, outgoing}
use wastech_orchestrator.Flow.RunState.{FlowRunState, mark_completed}
use wastech_orchestrator.Flow.LoopControl.{Limits, rework_refusal}
use wastech_orchestrator.Flow.Host.{Host, Setup, Engine, NodeOverride}
use wastech_orchestrator.Flow.Execution.{
  replace_fields, apply_overrides, execute_node, Executed, outcome, failed,
}
use wastech_orchestrator.Flow.Charging.{charge_counters, reset_edges}
use wastech_orchestrator.Flow.Engine.Parts.{Taken, leave-next}
use wastech_orchestrator.Flow.Engine.{next, work, visit, iterate, leaves_region}

-- Each node of the index stands under its own id, as `load_flow` builds it.
pub record IsIndexed (snapshot : FlowSnapshot) : Type 0 where
  pub at_id :
      (key : String) (node : FlowNode)
      → Dict.get snapshot.nodes_by_id key ≡ some node
      → node_id node ≡ key

-- What a round did to the engine, between two visits.
pub record Transition {W : Type 0} (setup : Setup) (e e' : Engine W) : Type 0 where
  pub node : String
  pub edge : Edge
  pub here : e.run_state.current_node ≡ some node
  pub declared : In edge (outgoing setup.snapshot node)
  pub arrived : e'.run_state.current_node ≡ some edge.to
  pub trace : e'.run_state.completed_nodes ≡ e.run_state.completed_nodes ++ node ∷ []
  pub inside : leaves_region setup edge.to ≡ false
  pub charged :
      is_rework edge ≡ true
      → (rework_refusal setup.snapshot e.run_state edge setup.limits ≡ none)
        × (e'.run_state.loop_counters ≡ (charge_counters edge e.run_state).loop_counters)
  -- `prior` is `e` with its trace, its world and nothing else changed
  pub prior : Engine W
  pub prior_counters : prior.run_state.loop_counters ≡ e.run_state.loop_counters
  pub cleared :
      is_rework edge ≡ false
      → e'.run_state.loop_counters
        ≡ (reset_edges (outgoing setup.snapshot node) prior).run_state.loop_counters

node_id-replace_fields :
    (n : FlowNode) (o : NodeOverride) (m : FlowNode)
    → replace_fields n o ≡ some m
    → node_id m ≡ node_id n
unfolding replace_fields
node_id-replace_fields (agent n) o m h = ground arith
node_id-replace_fields (evaluator n) o m h = ground arith
node_id-replace_fields (checks n) o m h = ground arith
node_id-replace_fields (tool n) o m h = ground arith
node_id-replace_fields (hitl n) o m h = ground arith
node_id-replace_fields (publish n) o m h = ground arith

-- An override never changes a node's id.
pub node_id-apply_overrides :
    (setup : Setup) (n m : FlowNode) → apply_overrides setup n ≡ some m → node_id m ≡ node_id n
unfolding apply_overrides
node_id-apply_overrides setup n m h =
    elim (Option-cases (Dict.get setup.node_overrides (node_id n))) [
      | inl e ↦ ground arith
      | inr (o, e) ↦ ground (arith, node_id-replace_fields n o m)
    ]

-- The trace does not enter a budget.
rework_refusal-mark_completed :
    (snapshot : FlowSnapshot) (s : FlowRunState) (id : String) (edge : Edge) (limits : Limits)
    → rework_refusal snapshot (mark_completed s id) edge limits
      ≡ rework_refusal snapshot s edge limits
unfolding rework_refusal
rework_refusal-mark_completed snapshot s id edge limits = refl

loop_counters-mark_completed :
    (s : FlowRunState) (id : String) (edge : Edge)
    → (charge_counters edge (mark_completed s id)).loop_counters
      ≡ (charge_counters edge s).loop_counters
unfolding charge_counters
loop_counters-mark_completed s id edge = ground arith

module _ {W : Type 0} (host : Host W) (setup : Setup) where
  open setup use {snapshot, limits}

  completed : FlowNode → Engine W → W → Engine W
  completed node e w = record e { run_state = mark_completed e.run_state (node_id node); world = w }

  work-next :
      (node : FlowNode) (e e' : Engine W)
      → work host setup node e ≡ next e'
      → (edge : Edge) × (w : W) × In edge (outgoing snapshot (node_id node))
        × Taken host setup edge (outgoing snapshot (node_id node)) (completed node e w) e'
  unfolding work completed
  work-next node e e' h = go (execute_node host setup node e.run_state e.world) refl
    where
      go :
          (x : Executed × W)
          → execute_node host setup node e.run_state e.world ≡ x
          → (edge : Edge) × (w : W) × In edge (outgoing snapshot (node_id node))
            × Taken host setup edge (outgoing snapshot (node_id node)) (completed node e w) e'
      go (failed f, w) q = absurd (ground arith)
      go (outcome o, w) q =
          let (edge, m, taken) =
            leave-next host setup node (outgoing snapshot (node_id node)) o (completed node e w) e'
              (ground arith) in
          (edge, w, m, taken)

  visit-next :
      (current : String) (e e' : Engine W)
      → visit host setup current e ≡ next e'
      → (declared node : FlowNode) × (w : W) × (Dict.get snapshot.nodes_by_id current
          ≡ some declared)
        × (apply_overrides setup declared ≡ some node)
        × (work host setup node (record e { world = w }) ≡ next e')
  unfolding visit
  visit-next current e e' h = elim (Bool-cases (host.is_cancelled e.world).0) [
    | inl c ↦ absurd (ground arith)
    | inr c ↦ elim (Option-cases (Dict.get snapshot.nodes_by_id current)) [
      | inl p ↦ absurd (ground arith)
      | inr (declared, p) ↦ elim (Option-cases (apply_overrides setup declared)) [
        | inl q ↦ absurd (ground arith)
        | inr (node, q) ↦ (declared, node, (host.is_cancelled e.world).1, p, q, ground arith)
      ]
    ]
  ]

  assemble :
      (node : FlowNode) (edge : Edge) (e e' : Engine W) (v w : W)
      → e.run_state.current_node ≡ some (node_id node)
      → In edge (outgoing snapshot (node_id node))
      → Taken host setup edge
          (outgoing snapshot (node_id node))
          (completed node (record e { world = v }) w)
          e'
      → Transition setup e e'
  unfolding completed
  assemble node edge e e' v w here m taken = record {
    node = node_id node;
    edge = edge;
    here = here;
    declared = m;
    arrived = taken.arrived;
    trace = taken.trace;
    inside = taken.inside;
    charged = λ r. (
      sym (rework_refusal-mark_completed snapshot e.run_state (node_id node) edge limits)
          ∙ (taken.charged r).0,
      (taken.charged r).1 ∙ loop_counters-mark_completed e.run_state (node_id node) edge,
    );
    prior = completed node (record e { world = v }) w;
    prior_counters = refl;
    cleared = taken.cleared;
  }

  -- Where every node is indexed under its id: a round that goes on took an edge declared at the
  -- current node, appended that node to the trace, and stayed in the region. A rework edge was not
  -- refused, and its charge is the change of the counters; any other edge reset the loops at the
  -- node.
  pub iterate-Transition :
      (e e' : Engine W)
      → IsIndexed snapshot
      → iterate host setup e ≡ next e'
      → Transition setup e e'
  unfolding iterate
  iterate-Transition e e' indexed h = elim (Option-cases e.run_state.current_node) [
    | inl p ↦ absurd (ground arith)
    | inr (current, p) ↦
        let (declared, node, w, found, overridden, worked) =
          visit-next current e e' (ground arith) in
        let id : node_id node ≡ current =
          node_id-apply_overrides setup declared node overridden
          ∙ indexed.at_id current declared found in
        let (edge, w', m, taken) = work-next node (record e { world = w }) e' worked in
        assemble node edge e e' w w' (p ∙ ap some (sym id)) m taken
  ]
