-- ===== src/Flow/Validator/Parts.antt =====
-- core/flow/validator.py, `_check_graph`: what it means that a check finds nothing.
use wastech_orchestrator.Prelude.{
  ◌≡◌, Bool, ◌||◌, true, false, not, ◌&&◌, String, some, is_some, List, [], ◌++◌, append_nil_left,
  append_nil_right, arith,
}
use wastech_orchestrator.Prelude.Dict
use wastech_orchestrator.Flow.Schema.{Edge, is_rework}
use wastech_orchestrator.Flow.Snapshot.{FlowSnapshot}
use wastech_orchestrator.Flow.Violations.{
  found_if, collect, unknown_source, unknown_target, unbounded, undeclared_loop, Violation,
}
use wastech_orchestrator.Flow.Validator.{
  check_edge, check_outcomes, check_bounded, check_loop, entries, check_entries, terminals,
  check_terminals, check_lineage, check_decomposition, check_graph,
}
use wastech_orchestrator.Flow.Validator.Graph.{found_if-nil}

append_nil : (xs : List Violation) {ys : List Violation} → xs ++ ys ≡ [] → (xs ≡ []) × (ys ≡ [])
append_nil xs {ys} h = (append_nil_left xs ys h, append_nil_right xs ys h)

module _ (snap : FlowSnapshot) where
  pub check_edge-nil :
      (e : Edge)
      → check_edge snap e ≡ []
      → (Dict.has snap.nodes_by_id e.from_node ≡ true) × (Dict.has snap.nodes_by_id e.to ≡ true)
  unfolding check_edge
  check_edge-nil e h =
      let from =
        found_if (not (Dict.has snap.nodes_by_id e.from_node)) (unknown_source e.from_node) in
      let to = found_if (not (Dict.has snap.nodes_by_id e.to)) (unknown_target e.to) in
      (
        is_known (
            found_if-nil (not (Dict.has snap.nodes_by_id e.from_node)) (unknown_source e.from_node)
              (append_nil_left from to h)),
        is_known (
            found_if-nil (not (Dict.has snap.nodes_by_id e.to)) (unknown_target e.to)
              (append_nil_right from to h)),
      )
    where
      is_known : {b : Bool} → not b ≡ false → b ≡ true
      is_known h = ground (arith, h)

  pub check_bounded-nil :
      (e : Edge)
      → check_bounded e ≡ []
      → is_rework e ≡ true
      → (is_some e.budget || is_some e.loop) ≡ true
  unfolding check_bounded
  check_bounded-nil e h r =
      let quiet =
        found_if-nil (is_rework e && (not (is_some e.budget) && not (is_some e.loop))) (unbounded e)
          h in
      ground (arith, quiet, r)

  pub check_loop-nil :
      (e : Edge) (loop : String)
      → check_loop snap.doc e ≡ []
      → e.loop ≡ some loop
      → Dict.has snap.doc.budgets loop ≡ true
  unfolding check_loop
  check_loop-nil e loop h q =
      let quiet : found_if (not (Dict.has snap.doc.budgets loop)) (undeclared_loop loop) ≡ [] =
        rw (check_loop, q) at h in
      ground (arith, quiet)

  pub check_graph-parts :
      check_graph snap ≡ []
      → (collect (check_edge snap) snap.doc.edges ≡ [])
        × (collect check_bounded snap.doc.edges ≡ [])
        × (collect (check_loop snap.doc) snap.doc.edges ≡ [])
        × (check_entries snap (entries snap.doc) ≡ [])
        × (check_terminals snap (terminals snap) ≡ [])
        × (check_decomposition snap snap.doc.decomposition ≡ [])
  unfolding check_graph
  check_graph-parts h =
      let outcomes = collect (check_outcomes snap) snap.adjacency in
      let owned = collect (check_lineage snap) snap.doc.nodes in
      let (edges, h2) = append_nil (collect (check_edge snap) snap.doc.edges) h in
      let (_, h3) = append_nil outcomes h2 in
      let (bounds, h4) = append_nil (collect check_bounded snap.doc.edges) h3 in
      let (loops, h5) = append_nil (collect (check_loop snap.doc) snap.doc.edges) h4 in
      let (entered, h6) = append_nil (check_entries snap (entries snap.doc)) h5 in
      let (ended, h7) = append_nil (check_terminals snap (terminals snap)) h6 in
      let (_, split) = append_nil owned h7 in (edges, bounds, loops, entered, ended, split)
