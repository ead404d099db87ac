-- ===== src/Flow/Validator/Region.antt =====
-- core/flow/validator.py, `_check_graph`: a decomposition without violations.
use wastech_orchestrator.Prelude.{
  ◌≡◌, refl, true, false, not, ◌&&◌, String, some, List, [], ◌∷◌, ◌++◌, any, append_nil_left,
  append_nil_right, if◌then◌else◌, arith,
}
use wastech_orchestrator.Prelude.Dict
use wastech_orchestrator.Flow.Schema.{DecompositionConfig}
use wastech_orchestrator.Flow.Snapshot.{FlowSnapshot, outgoing}
use wastech_orchestrator.Flow.Violations.{
  found_if, collect, no_region_entry, no_region_exit, no_proposer, no_sub_flow_node,
}
use wastech_orchestrator.Flow.Validator.{
  enters, exits, check_region, check_shared_budget, check_decomposition,
}
use wastech_orchestrator.Flow.Validator.Graph.{found_if-nil}

-- A valid flow's region can be entered and left.
pub check_region-nil :
    (snap : FlowSnapshot) (dec : DecompositionConfig)
    → check_region snap dec ≡ []
    → (any (enters dec.sub_flow) (outgoing snap dec.proposed_by) ≡ true)
      × (any (λ id. any (exits dec.sub_flow) (outgoing snap id)) dec.sub_flow ≡ true)
check_region-nil snap dec h =
    let entered = any (enters dec.sub_flow) (outgoing snap dec.proposed_by) in
    let left = any (λ id. any (exits dec.sub_flow) (outgoing snap id)) dec.sub_flow in
    let first = found_if (not entered) no_region_entry in
    let second = found_if (not left) no_region_exit in
    let a = found_if-nil (not entered) no_region_entry (append_nil_left first second h) in
    let b = found_if-nil (not left) no_region_exit (append_nil_right first second h) in
    (ground (arith, a), ground (arith, b))

collect-unknown :
    (snap : FlowSnapshot) (ids : List String)
    → collect (λ id. found_if (not (Dict.has snap.nodes_by_id id)) (no_sub_flow_node id)) ids ≡ []
    → any (λ id. not (Dict.has snap.nodes_by_id id)) ids ≡ false
collect-unknown snap [] h = refl
collect-unknown snap (id ∷ ids) h =
    let first = found_if (not (Dict.has snap.nodes_by_id id)) (no_sub_flow_node id) in
    let rest =
      collect (λ id. found_if (not (Dict.has snap.nodes_by_id id)) (no_sub_flow_node id)) ids in
    let known =
      found_if-nil (not (Dict.has snap.nodes_by_id id)) (no_sub_flow_node id)
        (append_nil_left first rest h) in
    rw known (collect-unknown snap ids (append_nil_right first rest h))

pub check_decomposition-nil :
    (snap : FlowSnapshot) (dec : DecompositionConfig)
    → check_decomposition snap (some dec) ≡ []
    → check_region snap dec ≡ []
unfolding check_decomposition
check_decomposition-nil snap dec h =
    let known = Dict.has snap.nodes_by_id in
    let proposer = found_if (not (known dec.proposed_by)) (no_proposer dec.proposed_by) in
    let members = collect (λ id. found_if (not (known id)) (no_sub_flow_node id)) dec.sub_flow in
    let budget = check_shared_budget snap.doc dec.shared_budget in
    let region =
      if known dec.proposed_by && not (any (λ id. not (known id)) dec.sub_flow)
      then check_region snap dec
      else [] in
    let h2 = append_nil_right proposer (members ++ (budget ++ region)) h in
    let a =
      found_if-nil (not (known dec.proposed_by)) (no_proposer dec.proposed_by)
        (append_nil_left proposer (members ++ (budget ++ region)) h) in
    let b = collect-unknown snap dec.sub_flow (append_nil_left members (budget ++ region) h2) in
    let h3 = append_nil_right budget region (append_nil_right members (budget ++ region) h2) in
    let proposed : known dec.proposed_by ≡ true = ground (arith, a) in rw (proposed, b) at h3
