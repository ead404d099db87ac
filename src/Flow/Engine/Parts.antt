-- ===== src/Flow/Engine/Parts.antt =====
-- The parts of one round of `run` that a round which goes on has passed: the guard of a rework edge,
-- the move, and the choice of the edge.
use wastech_orchestrator.Prelude.{
  ◌≡◌, refl, ap, ◌∙◌, inl, inr, true, false, String, none, some, List, [], ◌∷◌, In, Bool-cases,
  Option-cases, arith,
}
use wastech_orchestrator.Flow.Schema.{FlowNode, Edge, node_id, is_rework}
use wastech_orchestrator.Flow.Snapshot.{outgoing}
use wastech_orchestrator.Flow.RunState.{FlowRunState}
use wastech_orchestrator.Flow.LoopControl.{rework_refusal}
use wastech_orchestrator.Flow.Host.{Host, Setup, Engine, NodeOutcome}
use wastech_orchestrator.Flow.Routing.{Selected, chosen, unmatched, select_edge}
use wastech_orchestrator.Flow.Routing.Select.{select_edge-Takes}
use wastech_orchestrator.Flow.Charging.{
  charge_counters, charge_rework, check_stall, guard_rework, reset_edges, reset_loops_at,
}
use wastech_orchestrator.Flow.Charging.Counters.{reset_edges_keeps}
use wastech_orchestrator.Flow.Engine.{next, rework, move, park, take_edge, leave, leaves_region}

module _ {W : Type 0} (host : Host W) (setup : Setup) where
  open setup use {snapshot, limits}

  run_state-check_stall :
      (node loop : String) (e : Engine W) → (check_stall host node loop e).1.run_state ≡ e.run_state
  unfolding check_stall
  run_state-check_stall node loop e = ground arith

  charge_rework-none :
      (edge : Edge) (s : FlowRunState)
      → (charge_rework setup edge s).0 ≡ none
      → (rework_refusal snapshot s edge limits ≡ none)
        × ((charge_rework setup edge s).1 ≡ charge_counters edge s)
  unfolding charge_rework
  charge_rework-none edge s h = elim (Option-cases (rework_refusal snapshot s edge limits)) [
    | inl e ↦ (e, ground arith)
    | inr (r, e) ↦ absurd (ground arith)
  ]

  -- A rework edge that is taken was not refused, and was charged once.
  pub guard_rework-none :
      (node : FlowNode) (edge : Edge) (e : Engine W)
      → (guard_rework host setup node edge e).0 ≡ none
      → (rework_refusal snapshot e.run_state edge limits ≡ none)
        × ((guard_rework host setup node edge e).1.run_state ≡ charge_counters edge e.run_state)
  unfolding guard_rework
  guard_rework-none node edge e h = elim (Option-cases edge.loop) [
    | inl p ↦ ground (arith, charge_rework-none edge e.run_state)
    | inr (l, p) ↦ ground (
      arith,
      run_state-check_stall (node_id node) l e,
      charge_rework-none edge e.run_state,
      charge_rework-none edge (check_stall host (node_id node) l e).1.run_state,
    )
  ]

  -- The parts of `move`, `take_edge` and `leave` that a round which goes on has seen.
  pub record Taken (edge : Edge) (edges : List Edge) (e e' : Engine W) : Type 0 where
    pub arrived : e'.run_state.current_node ≡ some edge.to
    pub trace : e'.run_state.completed_nodes ≡ e.run_state.completed_nodes
    pub inside : leaves_region setup edge.to ≡ false
    pub charged :
        is_rework edge ≡ true
        → (rework_refusal snapshot e.run_state edge limits ≡ none)
          × (e'.run_state.loop_counters ≡ (charge_counters edge e.run_state).loop_counters)
    pub cleared :
        is_rework edge ≡ false
        → e'.run_state.loop_counters ≡ (reset_edges edges e).run_state.loop_counters

  move-next :
      (node : FlowNode) (edge : Edge) (e e' : Engine W)
      → move host setup node edge e ≡ next e'
      → (leaves_region setup edge.to ≡ false)
        × (e'.run_state ≡ record e.run_state { current_node = some edge.to })
  unfolding move
  move-next node edge e e' h = elim (Bool-cases (leaves_region setup edge.to)) [
    | inl r ↦ absurd (ground arith)
    | inr r ↦ (r, ground arith)
  ]

  rework-next :
      (node : FlowNode) (edge : Edge) (e e' : Engine W)
      → rework host setup node edge e ≡ next e'
      → (leaves_region setup edge.to ≡ false)
        × (rework_refusal snapshot e.run_state edge limits ≡ none)
        × (e'.run_state ≡ record (charge_counters edge e.run_state) { current_node = some edge.to })
  unfolding rework park
  rework-next node edge e e' h = elim (Option-cases (guard_rework host setup node edge e).0) [
    | inr (s, q) ↦ absurd (ground arith)
    | inl q ↦
        let guarded = guard_rework-none node edge e q in
        ground (arith, move-next node edge (guard_rework host setup node edge e).1 e')
  ]

  completed-charge :
      (edge : Edge) (s : FlowRunState)
      → (charge_counters edge s).completed_nodes ≡ s.completed_nodes
  unfolding charge_counters
  completed-charge edge s = ground arith

  take_edge-next :
      (node : FlowNode) (edge : Edge) (e e' : Engine W)
      → take_edge host setup node edge e ≡ next e'
      → Taken edge (outgoing snapshot (node_id node)) e e'
  unfolding take_edge
  take_edge-next node edge e e' h = elim (Bool-cases (is_rework edge)) [
    | inl r ↦
        let (i, q, s) = rework-next node edge e e' (ground arith) in
        record {
          arrived = ap (λ (x : FlowRunState). x.current_node) s;
          trace =
              ap (λ (x : FlowRunState). x.completed_nodes) s ∙ completed-charge edge e.run_state;
          inside = i;
          charged = λ _. (q, ap (λ (x : FlowRunState). x.loop_counters) s);
          cleared = λ f. cc;
        }
    | inr r ↦
        let e2 = reset_loops_at snapshot (node_id node) e in
        let (i, s) = move-next node edge e2 e' (ground arith) in
        record {
          arrived = ap (λ (x : FlowRunState). x.current_node) s;
          trace =
              ap (λ (x : FlowRunState). x.completed_nodes) s
              ∙ (reset_edges_keeps (outgoing snapshot (node_id node)) e).1;
          inside = i;
          charged = λ f. cc;
          cleared = λ _. ap (λ (x : FlowRunState). x.loop_counters) s;
        }
  ]

  pub leave-next :
      (node : FlowNode) (edges : List Edge) (o : NodeOutcome) (e e' : Engine W)
      → leave host setup node edges o e ≡ next e'
      → (edge : Edge) × In edge edges × Taken edge (outgoing snapshot (node_id node)) e e'
  unfolding leave
  leave-next node [] o e e' h = absurd (ground arith)
  leave-next node (x ∷ xs) o e e' h = go (select_edge (node_id node) (x ∷ xs) o.kind) refl
    where
      go :
          (s : Selected)
          → select_edge (node_id node) (x ∷ xs) o.kind ≡ s
          → (edge : Edge) × In edge (x ∷ xs) × Taken edge (outgoing snapshot (node_id node)) e e'
      go (unmatched f) q = absurd (ground arith)
      go (chosen edge) q = (
        edge,
        (select_edge-Takes (node_id node) (x ∷ xs) o.kind edge q).0,
        take_edge-next node edge e e' (ground arith),
      )
