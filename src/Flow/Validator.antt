-- ===== src/Flow/Validator.antt =====
-- core/flow/validator.py: the graph checks, `_check_graph`. A set that is iterated or
-- searched is a list, in some order.
pub mod Graph
pub mod Incoming
pub mod Parts
pub mod Region
pub mod WellFormed
pub mod Entry
pub mod Runs
use wastech_orchestrator.Prelude.{
  ℕ, ◌==◌, Bool, true, false, not, ◌&&◌, ◌||◌, String, str_eq, starts_with, contains, Option, none,
  some, is_some, or_default, List, [], ◌∷◌, ◌++◌, map, any, filter, if◌then◌else◌,
}
use wastech_orchestrator.Prelude.Dict
use wastech_orchestrator.Prelude.Dict.{Dict}
use wastech_orchestrator.Providers.Base.{ProviderId, same_provider}
use wastech_orchestrator.Flow.Contracts.{
  SessionScope, fresh_disposable, editing_lineage, resume_own_lineage,
}
use wastech_orchestrator.Flow.Schema.{
  FlowNode, agent, evaluator, checks, tool, AgentNode, Edge, is_rework, node_id,
  DecompositionConfig, FlowDoc,
}
use wastech_orchestrator.Flow.Snapshot.{FlowSnapshot, outgoing}
use wastech_orchestrator.Flow.Reach.{search_from, enough}
use wastech_orchestrator.Flow.Routing.{count_edges, zero_keys}
use wastech_orchestrator.Flow.Violations.{
  Violation, unknown_source, unknown_target, bad_outcome, unbounded, undeclared_loop, not_one_entry,
  unreachable, no_terminal, trapped, lineage_not_found, lineage_not_editing, lineage_chain,
  lineage_providers, no_proposer, no_sub_flow_node, no_shared_budget, no_region_entry,
  no_region_exit, out_of_fuel, found_if, collect, same_outcome,
}

-- 1. Edges resolve.
unfoldable pub check_edge : FlowSnapshot → Edge → List Violation
check_edge snap edge =
    found_if (not (Dict.has snap.nodes_by_id edge.from_node)) (unknown_source edge.from_node)
    ++ found_if (not (Dict.has snap.nodes_by_id edge.to)) (unknown_target edge.to)

-- 2. Outcomes are allowed for the node's kind. An outcome may be None.
abbrev pub allowed_outcomes : FlowNode → List (Option String)
allowed_outcomes (evaluator _) = some "accept" ∷ some "rework" ∷ []
allowed_outcomes (checks _) = some "pass" ∷ some "fail" ∷ []
allowed_outcomes (tool _) = some "pass" ∷ some "fail" ∷ []
allowed_outcomes _ = none ∷ []

abbrev is_route : Option String → Bool
is_route none = false
is_route (some o) = starts_with o "route:"

unfoldable pub check_outcome : String → FlowNode → Edge → List Violation
check_outcome id node edge =
    found_if
      (not (is_route edge.outcome) && not (any (same_outcome edge.outcome) (allowed_outcomes node)))
      (bad_outcome id edge.outcome)

unfoldable pub check_outcomes : FlowSnapshot → String × List Edge → List Violation
unfolding check_outcome
check_outcomes snap (id, edges) = elim (Dict.get snap.nodes_by_id id) [
  | none ↦ []
  | some node ↦ collect (check_outcome id node) edges
]

-- 3. and 4. Rework edges are bounded, and named loops are declared.
unfoldable pub check_bounded : Edge → List Violation
check_bounded edge =
    found_if (is_rework edge && (not (is_some edge.budget) && not (is_some edge.loop)))
      (unbounded edge)

unfoldable pub check_loop : FlowDoc → Edge → List Violation
check_loop doc edge = elim edge.loop [
  | none ↦ []
  | some loop ↦ found_if (not (Dict.has doc.budgets loop)) (undeclared_loop loop)
]

-- `d.setdefault(key(edge), []).append(value(edge))`
unfoldable pub group :
    (Edge → String) → (Edge → String) → Dict (List String) → List Edge → Dict (List String)
group key value d [] = d
group key value d (edge ∷ edges) =
    group key value (Dict.put d (key edge) (Dict.get_or d (key edge) [] ++ value edge ∷ [])) edges

abbrev pub from_of : Edge → String
from_of e = e.from_node

abbrev pub to_of : Edge → String
to_of e = e.to

-- `adj.get(x, [])`, and `reverse.get(x, [])`
abbrev pub forward : FlowDoc → String → List String
forward doc x = Dict.get_or (group from_of to_of [] doc.edges) x []

abbrev pub backward : FlowDoc → String → List String
backward doc x = Dict.get_or (group to_of from_of [] doc.edges) x []

-- `set(snap.nodes_by_id) - seen`
abbrev pub outside : FlowSnapshot → List String → List String
outside snap seen = filter (λ id. not (contains seen id)) (Dict.keys snap.nodes_by_id)

abbrev pub if_any : List String → Violation → List Violation
if_any [] v = []
if_any (_ ∷ _) v = v ∷ []

-- 5. One entry, from which every node is reached.
unfoldable pub zero_incoming : Dict ℕ → List FlowNode → Dict ℕ
zero_incoming d [] = d
zero_incoming d (n ∷ nodes) = zero_incoming (Dict.put d (node_id n) 0) nodes

unfoldable pub entries : FlowDoc → List String
unfolding zero_incoming count_edges zero_keys
entries doc = zero_keys (count_edges (zero_incoming [] doc.nodes) doc.edges)

unfoldable pub check_reached :
    FlowSnapshot → (String → List String) → List String → (List String → Violation) → List Violation
unfolding search_from
check_reached snap next starts missing =
    elim (search_from next (enough snap.doc.edges starts) [] starts) [
      | none ↦ out_of_fuel ∷ []
      | some seen ↦ if_any (outside snap seen) (missing (outside snap seen))
    ]

unfoldable pub check_entries : FlowSnapshot → List String → List Violation
unfolding check_reached group
check_entries snap (id ∷ []) = check_reached snap (forward snap.doc) (id ∷ []) unreachable
check_entries snap ids = not_one_entry ids ∷ []

-- 6. Some node is terminal, and every node can reach a terminal one.
unfoldable pub terminals : FlowSnapshot → List String
terminals snap = outside snap (map from_of snap.doc.edges)

unfoldable pub check_terminals : FlowSnapshot → List String → List Violation
unfolding check_reached group
check_terminals snap [] = no_terminal ∷ []
check_terminals snap (id ∷ ids) = check_reached snap (backward snap.doc) (id ∷ ids) trapped

-- 7. A lineage is owned by an agent that edits.
abbrev is_editing : SessionScope → Bool
is_editing editing_lineage = true
is_editing fresh_disposable = false
is_editing resume_own_lineage = false

abbrev differ : Option ProviderId → Option ProviderId → Bool
differ (some p) (some q) = not (same_provider p q)
differ _ _ = false

abbrev check_target : AgentNode → Option FlowNode → List Violation
unfolding same_provider
check_target n none = lineage_not_found n.id ∷ []
check_target n (some (agent target)) =
    if not (is_editing target.session_scope)
    then lineage_not_editing n.id ∷ []
    else if is_some target.lineage_affinity
    then lineage_chain n.id ∷ []
    else if differ n.provider target.provider
    then lineage_providers n.id ∷ []
    else []
check_target n (some _) = lineage_not_editing n.id ∷ []

unfoldable pub check_lineage : FlowSnapshot → FlowNode → List Violation
unfolding check_target
check_lineage snap (agent n) = elim n.lineage_affinity [
  | none ↦ []
  | some owner ↦ check_target n (Dict.get snap.nodes_by_id owner)
]
check_lineage snap _ = []

-- 8. A decomposition refers to nodes, and its region is connected.
abbrev pub enters : List String → Edge → Bool
enters region e = contains region e.to

abbrev pub exits : List String → Edge → Bool
exits region e = not (contains region e.to) && not (is_rework e)

abbrev pub check_region : FlowSnapshot → DecompositionConfig → List Violation
check_region snap dec =
    found_if (not (any (enters dec.sub_flow) (outgoing snap dec.proposed_by))) no_region_entry
    ++ found_if (not (any (λ id. any (exits dec.sub_flow) (outgoing snap id)) dec.sub_flow))
        no_region_exit

abbrev pub check_shared_budget : FlowDoc → Option String → List Violation
check_shared_budget doc none = []
check_shared_budget doc (some budget) =
    found_if (not (Dict.has doc.budgets budget)) (no_shared_budget budget)

unfoldable pub check_decomposition : FlowSnapshot → Option DecompositionConfig → List Violation
check_decomposition snap none = []
check_decomposition snap (some dec) =
    let known = Dict.has snap.nodes_by_id in
    found_if (not (known dec.proposed_by)) (no_proposer dec.proposed_by)
    ++ (collect (λ id. found_if (not (known id)) (no_sub_flow_node id)) dec.sub_flow
        ++ (check_shared_budget snap.doc dec.shared_budget
            ++ (if known dec.proposed_by && not (any (λ id. not (known id)) dec.sub_flow)
                then check_region snap dec
                else [])))

unfoldable pub check_graph : FlowSnapshot → List Violation
unfolding check_edge check_outcomes check_bounded check_loop entries check_entries terminals
    check_terminals check_lineage check_decomposition
check_graph snap =
    collect (check_edge snap) snap.doc.edges
    ++ (collect (check_outcomes snap) snap.adjacency
        ++ (collect check_bounded snap.doc.edges
            ++ (collect (check_loop snap.doc) snap.doc.edges
                ++ (check_entries snap (entries snap.doc)
                    ++ (check_terminals snap (terminals snap)
                        ++ (collect (check_lineage snap) snap.doc.nodes
                            ++ check_decomposition snap snap.doc.decomposition))))))
