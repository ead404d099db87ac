-- ===== src/Flow/Validator/Entry.antt =====
-- core/flow/validator.py against core/flow/engine.py: both look for the node without incoming edges, the
-- validator in the document's edges and the engine in the snapshot's adjacency.
use wastech_orchestrator.Prelude.{
  ℕ, ◌≡◌, refl, sym, ap, subst, ◌∙◌, inl, inr, true, String, str_eq, List, [], ◌∷◌, ◌++◌, In, ◌==◌,
  arith, Bool-cases,
}
use wastech_orchestrator.Prelude.Dict
use wastech_orchestrator.Prelude.Dict.{Dict}
use wastech_orchestrator.Flow.Schema.{FlowNode, Edge, FlowDoc, node_id}
use wastech_orchestrator.Flow.Snapshot.{
  FlowSnapshot, index_nodes, index_edges, build_snapshot, load_flow, loaded,
}
use wastech_orchestrator.Flow.Snapshot.Build.{load_flow-cases, doc-load_flow}
use wastech_orchestrator.Flow.Routing.{
  zero_counts, count_edge, count_edges, count_incoming, zero_keys, the_entry, entry_node_id, entry,
}
use wastech_orchestrator.Flow.Validator.{zero_incoming, entries, check_graph}
use wastech_orchestrator.Flow.Validator.Graph.{In-keys}
use wastech_orchestrator.Flow.Validator.Incoming.{bump, count_edge-bump}
use wastech_orchestrator.Flow.Validator.WellFormed.{Way, check_graph-IsWellFormed}

zero_counts-put :
    (d : Dict FlowNode) (k : String) (n : FlowNode)
    → zero_counts (Dict.put d k n) ≡ Dict.put (zero_counts d) k 0
unfolding zero_counts Dict.put
zero_counts-put [] k n = refl
zero_counts-put ((j, m) ∷ d) k n = elim (Bool-cases (str_eq j k)) [
  | inl e ↦ rw (e) refl
  | inr e ↦ rw (e) (ap (λ c. (j, 0) ∷ c) (zero_counts-put d k n))
]

zero_counts-index_nodes :
    (d : Dict FlowNode) (nodes : List FlowNode)
    → zero_counts (index_nodes d nodes) ≡ zero_incoming (zero_counts d) nodes
unfolding index_nodes zero_incoming
zero_counts-index_nodes d [] = refl
zero_counts-index_nodes d (n ∷ nodes) =
    zero_counts-index_nodes (Dict.put d (node_id n) n) nodes
    ∙ ap (λ c. zero_incoming c nodes) (zero_counts-put d (node_id n) n)

bump-bump : (d : Dict ℕ) (j k : String) → bump (bump d j) k ≡ bump (bump d k) j
unfolding bump
bump-bump [] j k = refl
bump-bump ((i, n) ∷ d) j k = ground (arith, bump-bump d j k)

count_edges-bump :
    (d : Dict ℕ) (k : String) (edges : List Edge)
    → count_edges (bump d k) edges ≡ bump (count_edges d edges) k
unfolding count_edges
count_edges-bump d k [] = refl
count_edges-bump d k (e ∷ edges) =
    let swapped : count_edge (bump d k) e ≡ bump (count_edge d e) k =
      count_edge-bump (bump d k) e
      ∙ bump-bump d k e.to
      ∙ ap (λ c. bump c k) (sym (count_edge-bump d e)) in
    ap (λ c. count_edges c edges) swapped ∙ count_edges-bump (count_edge d e) k edges

count_edges-snoc :
    (d : Dict ℕ) (edges : List Edge) (e : Edge)
    → count_edges d (edges ++ e ∷ []) ≡ bump (count_edges d edges) e.to
unfolding count_edges
count_edges-snoc d [] e = count_edge-bump d e
count_edges-snoc d (f ∷ edges) e = count_edges-snoc (count_edge d f) edges e

count_incoming-bump :
    (d : Dict ℕ) (k : String) (adj : Dict (List Edge))
    → count_incoming (bump d k) adj ≡ bump (count_incoming d adj) k
unfolding count_incoming
count_incoming-bump d k [] = refl
count_incoming-bump d k ((j, edges) ∷ adj) =
    ap (λ c. count_incoming c adj) (count_edges-bump d k edges)
    ∙ count_incoming-bump (count_edges d edges) k adj

count_incoming-put :
    (d : Dict ℕ) (adj : Dict (List Edge)) (k : String) (e : Edge)
    → count_incoming d (Dict.put adj k (Dict.get_or adj k [] ++ e ∷ []))
      ≡ bump (count_incoming d adj) e.to
unfolding count_incoming count_edges Dict.put Dict.get
count_incoming-put d [] k e = count_edge-bump d e
count_incoming-put d ((j, edges) ∷ adj) k e = elim (Bool-cases (str_eq j k)) [
  | inl q ↦
      rw (Dict.put, Dict.get, q)
        (ap (λ c. count_incoming c adj) (count_edges-snoc d edges e)
          ∙ count_incoming-bump (count_edges d edges) e.to adj)
  | inr q ↦ rw (Dict.put, Dict.get, q) (count_incoming-put (count_edges d edges) adj k e)
]

count_incoming-index_edges :
    (d : Dict ℕ) (adj : Dict (List Edge)) (edges : List Edge)
    → count_incoming d (index_edges adj edges) ≡ count_edges (count_incoming d adj) edges
unfolding index_edges count_edges
count_incoming-index_edges d adj [] = refl
count_incoming-index_edges d adj (e ∷ edges) =
    let adj' = Dict.put adj e.from_node (Dict.get_or adj e.from_node [] ++ e ∷ []) in
    count_incoming-index_edges d adj' edges
    ∙ ap (λ c. count_edges c edges)
        (count_incoming-put d adj e.from_node e ∙ sym (count_edge-bump (count_incoming d adj) e))

-- The engine and the validator find the same nodes without incoming edges.
pub entry_node_id-entries :
    (doc : FlowDoc) (fingerprint : String)
    → entry_node_id (build_snapshot doc fingerprint) ≡ the_entry (entries doc)
unfolding entry_node_id build_snapshot entries zero_counts count_incoming
entry_node_id-entries doc fingerprint =
    ap (λ c. the_entry (zero_keys c))
      (count_incoming-index_edges (zero_counts (index_nodes [] doc.nodes)) [] doc.edges
        ∙ ap (λ c. count_edges c doc.edges) (zero_counts-index_nodes [] doc.nodes))

keys-bump : (d : Dict ℕ) (k : String) → Dict.keys (bump d k) ≡ Dict.keys d
unfolding bump Dict.keys
keys-bump [] k = refl
keys-bump ((j, n) ∷ d) k = ground (arith, keys-bump d k)

keys-count_edges : (d : Dict ℕ) (edges : List Edge) → Dict.keys (count_edges d edges) ≡ Dict.keys d
unfolding count_edges
keys-count_edges d [] = refl
keys-count_edges d (e ∷ edges) =
    keys-count_edges (count_edge d e) edges ∙ ap Dict.keys (count_edge-bump d e) ∙ keys-bump d e.to

keys-zero_counts : (d : Dict FlowNode) → Dict.keys (zero_counts d) ≡ Dict.keys d
unfolding zero_counts Dict.keys
keys-zero_counts [] = refl
keys-zero_counts ((j, n) ∷ d) = ap (λ c. j ∷ c) (keys-zero_counts d)

In-zero_keys : (d : Dict ℕ) (k : String) → In k (zero_keys d) → In k (Dict.keys d)
unfolding zero_keys Dict.keys
In-zero_keys [] k i = absurd i
In-zero_keys ((j, n) ∷ d) k i = elim (Bool-cases (n == 0)) [
  | inl e ↦
      let same : zero_keys ((j, n) ∷ d) ≡ j ∷ zero_keys d = rw (zero_keys, e) refl in
      elim (subst (In k) same i) [ inl q ↦ inl q | inr r ↦ inr (In-zero_keys d k r) ]
  | inr e ↦ inr (In-zero_keys d k (rw (zero_keys, e) at i))
]

entries-known :
    (doc : FlowDoc) (fingerprint a : String)
    → In a (entries doc)
    → Dict.has (build_snapshot doc fingerprint).nodes_by_id a ≡ true
unfolding entries build_snapshot zero_counts Dict.keys
entries-known doc fingerprint a i =
    let counts = zero_incoming [] doc.nodes in
    In-keys (index_nodes [] doc.nodes) a (
      subst (In a)
        (keys-count_edges counts doc.edges
          ∙ ap Dict.keys (sym (zero_counts-index_nodes [] doc.nodes))
          ∙ keys-zero_counts (index_nodes [] doc.nodes))
        (In-zero_keys (count_edges counts doc.edges) a i))

-- A loaded flow without violations has a node from which the engine starts; it is the only one that the
-- validator counts without incoming edges, and a way along the flow's edges leads from it to every node.
pub entry_node_id-Way :
    (doc : FlowDoc) (fingerprint : String) (snap : FlowSnapshot)
    → load_flow doc fingerprint ≡ loaded snap
    → check_graph snap ≡ []
    → (a : String) × (entry_node_id snap ≡ entry a)
      × (entries doc ≡ a ∷ [])
      × (Dict.has snap.nodes_by_id a ≡ true)
      × ((k : String) → Dict.has snap.nodes_by_id k ≡ true → Way doc.edges a k)
entry_node_id-Way doc fingerprint snap h v =
    let same : snap.doc ≡ doc = doc-load_flow doc fingerprint snap h in
    let built : snap ≡ build_snapshot doc fingerprint =
      (load_flow-cases doc fingerprint snap h).1 in
    let good = check_graph-IsWellFormed snap v in
    let only : entries doc ≡ good.entry ∷ [] =
      subst (λ d. entries d ≡ good.entry ∷ []) same good.one_entry in
    (
      good.entry,
      ap entry_node_id built ∙ entry_node_id-entries doc fingerprint ∙ ap the_entry only,
      only,
      subst (λ s. Dict.has s.nodes_by_id good.entry ≡ true) (sym built)
          (entries-known doc fingerprint good.entry (subst (In good.entry) (sym only) (inl refl))),
      λ k known. subst (λ d. Way d.edges good.entry k) same (good.from_entry k known),
    )
