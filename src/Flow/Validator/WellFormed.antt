-- ===== src/Flow/Validator/WellFormed.antt =====
-- core/flow/validator.py, `_check_graph`: a flow that passes is well formed.
use wastech_orchestrator.Prelude.{
  ◌≡◌, refl, sym, subst, inl, inr, ◌||◌, true, String, some, is_some, List, [], ◌∷◌, In, arith,
}
use wastech_orchestrator.Prelude.Dict
use wastech_orchestrator.Flow.Schema.{FlowNode, node_id, Edge, is_rework}
use wastech_orchestrator.Flow.Snapshot.{FlowSnapshot}
use wastech_orchestrator.Flow.Reach.Correct.{Reaches, start, step}
use wastech_orchestrator.Flow.Violations.{
  unreachable, trapped, not_one_entry, no_terminal, Violation,
}
use wastech_orchestrator.Flow.Validator.{
  check_edge, check_bounded, check_loop, from_of, to_of, forward, backward, entries, check_entries,
  terminals, check_terminals, check_graph,
}
use wastech_orchestrator.Flow.Validator.Graph.{
  collect-nil, In-group, check_reached-nil, In-terminals,
}
use wastech_orchestrator.Flow.Validator.Incoming.{entries-no_edge, no_edge-entries}
use wastech_orchestrator.Flow.Validator.Parts.{
  check_edge-nil, check_bounded-nil, check_loop-nil, check_graph-parts,
}

the_only : (a x : String) → In x (a ∷ []) → x ≡ a
the_only a x (inl q) = q
the_only a x (inr i) = absurd i

not_nil : (v : Violation) (vs : List Violation) → v ∷ vs ≡ [] → ⊥
not_nil v vs h = ground arith

-- A way from `a` along edges.
pub data Way (edges : List Edge) (a : String) : String → Type 0 where
  stay : Way edges a a
  along :
      {b c : String} (e : Edge)
      → Way edges a b
      → In e edges
      → e.from_node ≡ b
      → e.to ≡ c
      → Way edges a c

module _ {edges : List Edge} where
  joined : {a b c : String} → Way edges a b → Way edges b c → Way edges a c
  joined w stay = w
  joined w (along e v i p q) = along e (joined w v) i p q

  ahead :
      {a c : String} (e : Edge) → In e edges → e.from_node ≡ a → Way edges e.to c → Way edges a c
  ahead e i p w = joined (along e stay i p refl) w

-- Nothing leaves a terminal node.
abbrev pub IsTerminal : FlowSnapshot → String → Type 0
IsTerminal snap t =
    (Dict.has snap.nodes_by_id t ≡ true) × ((e : Edge) → In e snap.doc.edges → ¬ (e.from_node ≡ t))

abbrev pub EndsFrom : FlowSnapshot → String → Type 0
EndsFrom snap k = (t : String) × IsTerminal snap t × Way snap.doc.edges k t

pub record IsWellFormed (snap : FlowSnapshot) : Type 0 where
  pub has_source : (e : Edge) → In e snap.doc.edges → Dict.has snap.nodes_by_id e.from_node ≡ true
  pub has_target : (e : Edge) → In e snap.doc.edges → Dict.has snap.nodes_by_id e.to ≡ true
  pub bounded :
      (e : Edge)
      → In e snap.doc.edges
      → is_rework e ≡ true
      → (is_some e.budget || is_some e.loop) ≡ true
  pub declared :
      (e : Edge) (loop : String)
      → In e snap.doc.edges
      → e.loop ≡ some loop
      → Dict.has snap.doc.budgets loop ≡ true
  pub entry : String
  pub one_entry : entries snap.doc ≡ entry ∷ []
  pub not_entered : (e : Edge) → In e snap.doc.edges → ¬ (e.to ≡ entry)
  pub others_entered :
      (n : FlowNode)
      → In n snap.doc.nodes
      → ((e : Edge) → In e snap.doc.edges → ¬ (e.to ≡ node_id n))
      → node_id n ≡ entry
  pub from_entry : (k : String) → Dict.has snap.nodes_by_id k ≡ true → Way snap.doc.edges entry k
  pub ends : (k : String) → Dict.has snap.nodes_by_id k ≡ true → EndsFrom snap k

module _ (snap : FlowSnapshot) where
  Reaches-forward :
      (a : String) {k : String} → Reaches (forward snap.doc) (a ∷ []) k → Way snap.doc.edges a k
  Reaches-forward a (start b (inl q)) = subst (Way snap.doc.edges a) (sym q) stay
  Reaches-forward a (start b (inr i)) = absurd i
  Reaches-forward a (step {b} c r i) =
      let (e, j, p, q) = In-group from_of to_of snap.doc.edges b c i in
      along e (Reaches-forward a r) j p q

  Reaches-backward : {k : String} → Reaches (backward snap.doc) (terminals snap) k → EndsFrom snap k
  Reaches-backward (start t i) = (t, In-terminals snap t i, stay)
  Reaches-backward (step {b} c r i) =
      let (t, last, way) = Reaches-backward r in
      let (e, j, p, q) = In-group to_of from_of snap.doc.edges b c i in
      (t, last, ahead e j q (subst (λ x. Way snap.doc.edges x t) (sym p) way))

  check_entries-nil :
      (ids : List String)
      → check_entries snap ids ≡ []
      → (entry : String) × (ids ≡ entry ∷ [])
        × ((k : String) → Dict.has snap.nodes_by_id k ≡ true → Way snap.doc.edges entry k)
  unfolding check_entries
  check_entries-nil [] h = absurd (not_nil (not_one_entry []) [] h)
  check_entries-nil (id ∷ []) h = (
    id,
    refl,
    λ k known.
        Reaches-forward id
          (check_reached-nil snap (forward snap.doc) (id ∷ []) unreachable h k known),
  )
  check_entries-nil (id ∷ id' ∷ ids) h = absurd (not_nil (not_one_entry (id ∷ id' ∷ ids)) [] h)

  check_terminals-nil :
      (ids : List String)
      → check_terminals snap ids ≡ []
      → (k : String) → Dict.has snap.nodes_by_id k ≡ true
      → Reaches (backward snap.doc) ids k
  unfolding check_terminals
  check_terminals-nil [] h = absurd (not_nil no_terminal [] h)
  check_terminals-nil (id ∷ ids) h = check_reached-nil snap (backward snap.doc) (id ∷ ids) trapped h

  -- Where the graph checks find nothing, the edges join nodes of the flow; every edge that sends work
  -- back has a budget or a loop, and every loop that an edge names is declared; no edge leads to the
  -- entry, every node that no edge leads to is the entry, and a way along the edges leads from it to
  -- every node; and from every node a way leads to one that no edge leaves.
  pub check_graph-IsWellFormed : check_graph snap ≡ [] → IsWellFormed snap
  check_graph-IsWellFormed h =
      let (edges, bounds, loops, entered, ended, _) = check_graph-parts snap h in
      let (entry, only, reached) = check_entries-nil (entries snap.doc) entered in
      record {
        has_source = λ e i.
            (check_edge-nil snap e (collect-nil (check_edge snap) snap.doc.edges e edges i)).0;
        has_target = λ e i.
            (check_edge-nil snap e (collect-nil (check_edge snap) snap.doc.edges e edges i)).1;
        bounded =
            λ e i. check_bounded-nil snap e (collect-nil check_bounded snap.doc.edges e bounds i);
        declared = λ e loop i.
            check_loop-nil snap e loop (collect-nil (check_loop snap.doc) snap.doc.edges e loops i);
        entry = entry;
        one_entry = only;
        not_entered = entries-no_edge snap.doc entry (subst (In entry) (sym only) (inl refl));
        others_entered = λ n i h.
            the_only entry (node_id n)
              (subst (In (node_id n)) only (no_edge-entries snap.doc n i h));
        from_entry = reached;
        ends = λ k known. Reaches-backward (check_terminals-nil (terminals snap) ended k known);
      }
