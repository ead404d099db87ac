-- ===== src/Flow/Snapshot/Build.antt =====
-- The lookup structures that `load_flow` derives from the document.
use wastech_orchestrator.Prelude.{
  subst, ◌≡◌, refl, sym, ap, ◌∙◌, inl, inr, Bool, true, String, none, some, List, [], ◌∷◌, ◌++◌, In,
  contains, filter, Bool-cases, Option-cases, str_eq, eq_iff, arith,
}
use mathlib.Core.List.{append-nil, append_assoc}
use wastech_orchestrator.Prelude.Dict
use wastech_orchestrator.Prelude.Dict.{Dict, get-put}
use wastech_orchestrator.Flow.Schema.{FlowNode, Edge, FlowDoc, node_id}
use wastech_orchestrator.Flow.Snapshot.{
  FlowSnapshot, loaded, outgoing, duplicate_id, index_nodes, index_edges, build_snapshot, load_flow,
}

-- Every entry stands under its own id.
abbrev Indexed : Dict FlowNode → Type 0
Indexed d = (key : String) (n : FlowNode) → Dict.get d key ≡ some n → node_id n ≡ key

Indexed-put : (d : Dict FlowNode) (n : FlowNode) → Indexed d → Indexed (Dict.put d (node_id n) n)
Indexed-put d n h key m found = elim (Bool-cases (str_eq (node_id n) key)) [
  | inl e ↦ ground (arith, get-put d (node_id n) key n, eq_iff (node_id n) key)
  | inr e ↦ h key m (ground (arith, get-put d (node_id n) key n))
]

Indexed-index_nodes :
    (d : Dict FlowNode) (nodes : List FlowNode) → Indexed d → Indexed (index_nodes d nodes)
unfolding index_nodes
Indexed-index_nodes d [] h = h
Indexed-index_nodes d (n ∷ rest) h =
    Indexed-index_nodes (Dict.put d (node_id n) n) rest (Indexed-put d n h)

pub nodes_by_id-at :
    (doc : FlowDoc) (fingerprint key : String) (n : FlowNode)
    → Dict.get (build_snapshot doc fingerprint).nodes_by_id key ≡ some n
    → node_id n ≡ key
unfolding build_snapshot
nodes_by_id-at doc fingerprint =
    Indexed-index_nodes [] doc.nodes (λ key n h. absurd (nothing key n h))
  where
    nothing : (key : String) (n : FlowNode) → Dict.get {V = FlowNode} [] key ≡ some n → ⊥
    nothing key n h = unfold Dict.get in cc h

abbrev pub leaves_from : String → Edge → Bool
leaves_from node edge = str_eq edge.from_node node

get_or-index_edges :
    (adj : Dict (List Edge)) (edges : List Edge) (node : String)
    → Dict.get_or (index_edges adj edges) node []
      ≡ Dict.get_or adj node [] ++ filter (leaves_from node) edges
unfolding index_edges
get_or-index_edges adj [] node = sym (append-nil (Dict.get_or adj node []))
get_or-index_edges adj (edge ∷ rest) node =
    let old = Dict.get_or adj edge.from_node [] in
    let adj' = Dict.put adj edge.from_node (old ++ edge ∷ []) in
    elim (Bool-cases (str_eq edge.from_node node)) [
      | inl e ↦
          let same : edge.from_node ≡ node = (eq_iff edge.from_node node).0 e in
          let here : Dict.get_or adj' node [] ≡ Dict.get_or adj node [] ++ edge ∷ [] =
            ground (arith, get-put adj edge.from_node node (old ++ edge ∷ [])) in
          get_or-index_edges adj' rest node
          ∙ ap (λ (l : List Edge). l ++ filter (leaves_from node) rest) here
          ∙ append_assoc (Dict.get_or adj node []) (edge ∷ []) (filter (leaves_from node) rest)
          ∙ ap (λ l. Dict.get_or adj node [] ++ l) (ground arith)
      | inr e ↦
          let here : Dict.get_or adj' node [] ≡ Dict.get_or adj node [] =
            ground (arith, get-put adj edge.from_node node (old ++ edge ∷ [])) in
          get_or-index_edges adj' rest node
          ∙ ap (λ (l : List Edge). l ++ filter (leaves_from node) rest) here
          ∙ ap (λ l. Dict.get_or adj node [] ++ l) (ground arith)
    ]

-- An id that was seen before is not written again.
get-index_nodes_seen :
    (seen : List String) (d : Dict FlowNode) (nodes : List FlowNode) (key : String)
    → duplicate_id seen nodes ≡ none
    → contains seen key ≡ true
    → Dict.get (index_nodes d nodes) key ≡ Dict.get d key
unfolding duplicate_id index_nodes
get-index_nodes_seen seen d [] key h k = refl
get-index_nodes_seen seen d (n ∷ rest) key h k = ground (
  arith,
  get-index_nodes_seen (node_id n ∷ seen) (Dict.put d (node_id n) n) rest key,
  get-put d (node_id n) key n,
  eq_iff (node_id n) key,
)

get-index_nodes :
    (seen : List String) (d : Dict FlowNode) (nodes : List FlowNode) (m : FlowNode)
    → duplicate_id seen nodes ≡ none
    → In m nodes
    → Dict.get (index_nodes d nodes) (node_id m) ≡ some m
unfolding duplicate_id index_nodes
get-index_nodes seen d [] m h i = absurd i
get-index_nodes seen d (n ∷ rest) m h (inl e) = rw e (
    ground (
      arith,
      get-index_nodes_seen (node_id n ∷ seen) (Dict.put d (node_id n) n) rest (node_id n),
      get-put d (node_id n) (node_id n) n,
      eq_iff (node_id n) (node_id n),
    ))
get-index_nodes seen d (n ∷ rest) m h (inr i) =
    get-index_nodes (node_id n ∷ seen) (Dict.put d (node_id n) n) rest m (ground arith) i

pub load_flow-cases :
    (doc : FlowDoc) (fingerprint : String) (snapshot : FlowSnapshot)
    → load_flow doc fingerprint ≡ loaded snapshot
    → (duplicate_id [] doc.nodes ≡ none) × (snapshot ≡ build_snapshot doc fingerprint)
unfolding load_flow
load_flow-cases doc fingerprint snapshot h = elim (Option-cases (duplicate_id [] doc.nodes)) [
  | inl e ↦ (e, ground arith)
  | inr (id, e) ↦ absurd (ground arith)
]

-- A snapshot that `load_flow` returns has every declared node under its id and no node under
-- another id, and lists at each node the edges that leave it, in the order of the document.
pub load_flow-indexes :
    (doc : FlowDoc) (fingerprint : String) (snapshot : FlowSnapshot)
    → load_flow doc fingerprint ≡ loaded snapshot
    → ((n : FlowNode) → In n doc.nodes → Dict.get snapshot.nodes_by_id (node_id n) ≡ some n)
      × ((key : String) (n : FlowNode)
          → Dict.get snapshot.nodes_by_id key ≡ some n
          → node_id n ≡ key)
      × ((node : String) → outgoing snapshot node ≡ filter (leaves_from node) doc.edges)
unfolding build_snapshot Dict.get
load_flow-indexes doc fingerprint snapshot h =
    let (unique, e) = load_flow-cases doc fingerprint snapshot h in
    rw e (
      λ n i. get-index_nodes [] [] doc.nodes n unique i,
      nodes_by_id-at doc fingerprint,
      λ node. get_or-index_edges [] doc.edges node,
    )

In-leaves_from :
    (node : String) (edges : List Edge) (edge : Edge)
    → In edge (filter (leaves_from node) edges)
    → In edge edges × (edge.from_node ≡ node)
In-leaves_from node [] edge h = absurd h
In-leaves_from node (e ∷ edges) edge h =
    ground (arith, In-leaves_from node edges edge, eq_iff e.from_node node)

-- An edge that a loaded flow lists at a node is one of the document's, and leaves that node.
pub outgoing-declared :
    (doc : FlowDoc) (fingerprint : String) (snapshot : FlowSnapshot) (node : String) (edge : Edge)
    → load_flow doc fingerprint ≡ loaded snapshot
    → In edge (outgoing snapshot node)
    → In edge doc.edges × (edge.from_node ≡ node)
outgoing-declared doc fingerprint snapshot node edge h i =
    let (_, _, lists) = load_flow-indexes doc fingerprint snapshot h in
    In-leaves_from node doc.edges edge (subst (In edge) (lists node) i)

pub doc-load_flow :
    (doc : FlowDoc) (fingerprint : String) (snapshot : FlowSnapshot)
    → load_flow doc fingerprint ≡ loaded snapshot
    → snapshot.doc ≡ doc
unfolding build_snapshot
doc-load_flow doc fingerprint snapshot h =
    ap (λ s. s.doc) (load_flow-cases doc fingerprint snapshot h).1
