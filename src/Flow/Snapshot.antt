-- ===== src/Flow/Snapshot.antt =====
-- core/flow/snapshot.py: the resolved snapshot, built from a parsed document (the second half of
-- `load_flow`). Reading the file and its YAML is left out, with the file's path, and the fingerprint
-- (a SHA-256 of `hashlib`) is an argument.
pub mod Build
use wastech_orchestrator.Prelude.{
  String, Option, none, some, List, [], ◌∷◌, ◌++◌, contains, if◌then◌else◌,
}
use wastech_orchestrator.Prelude.Dict.{Dict}
use wastech_orchestrator.Prelude.Dict
use wastech_orchestrator.Flow.Schema.{FlowNode, Edge, FlowDoc, node_id}

pub record FlowSnapshot : Type 0 where
  pub doc : FlowDoc
  pub nodes_by_id : Dict FlowNode
  pub adjacency : Dict (List Edge)
  pub flow_fingerprint : String

-- `snapshot.adjacency.get(node_id, ())`
abbrev pub outgoing : FlowSnapshot → String → List Edge
outgoing snapshot node = Dict.get_or snapshot.adjacency node []

pub data Loaded : Type 0 where
  loaded : FlowSnapshot → Loaded
  duplicate_node_id : String → Loaded

-- The loop over `seen_ids`: the first id that occurs twice.
unfoldable pub duplicate_id : List String → List FlowNode → Option String
duplicate_id seen [] = none
duplicate_id seen (n ∷ rest) =
    if contains seen (node_id n) then some (node_id n) else duplicate_id (node_id n ∷ seen) rest

-- `{n.id: n for n in doc.nodes}`
unfoldable pub index_nodes : Dict FlowNode → List FlowNode → Dict FlowNode
index_nodes d [] = d
index_nodes d (n ∷ rest) = index_nodes (Dict.put d (node_id n) n) rest

-- `adj.setdefault(edge.from_node, []).append(edge)`
unfoldable pub index_edges : Dict (List Edge) → List Edge → Dict (List Edge)
index_edges adj [] = adj
index_edges adj (edge ∷ rest) =
    index_edges (Dict.put adj edge.from_node (Dict.get_or adj edge.from_node [] ++ edge ∷ [])) rest

unfoldable pub build_snapshot : FlowDoc → String → FlowSnapshot
unfolding index_nodes index_edges
build_snapshot doc fingerprint = record {
  doc = doc;
  nodes_by_id = index_nodes [] doc.nodes;
  adjacency = index_edges [] doc.edges;
  flow_fingerprint = fingerprint;
}

unfoldable pub load_flow : FlowDoc → String → Loaded
unfolding duplicate_id build_snapshot
load_flow doc fingerprint = elim (duplicate_id [] doc.nodes) [
  | none ↦ loaded (build_snapshot doc fingerprint)
  | some node ↦ duplicate_node_id node
]
