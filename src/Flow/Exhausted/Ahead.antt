-- ===== src/Flow/Exhausted/Ahead.antt =====
-- core/loop_control.py, `exhausted_fix_loops`: exactly the loops ahead that are spent.
use wastech_orchestrator.Prelude.{
  ℕ, ◌≤◌, ◌≡◌, refl, sym, subst, ◌↔◌, inl, inr, true, ◌&&◌, String, some, List, [], ◌∷◌, leb,
  leb→le, le→leb, flat_map, In, In-flat_map, flat_map-In, arith, Bool-cases, Option-cases,
}
use wastech_orchestrator.Prelude.Dict
use wastech_orchestrator.Prelude.Dict.{Dict}
use wastech_orchestrator.Flow.Schema.{Edge, FlowDoc, is_rework}
use wastech_orchestrator.Flow.Snapshot.{FlowSnapshot, outgoing, load_flow, loaded}
use wastech_orchestrator.Flow.Reach.Correct.{Reaches}
use wastech_orchestrator.Flow.Reach.Enough.{targets, reachable_nodes_iff}
use wastech_orchestrator.Flow.LoopControl.{loop_cap}
use wastech_orchestrator.Flow.Exhausted.{
  ExhaustedLoop, exhausted_at, exhausted_edge, exhausted_node, exhausted_fix_loops,
}

module _ (snapshot : FlowSnapshot) (counters : Dict ℕ) (max_fix_cycles : ℕ) where
  -- A loop whose counter is at its cap or over it, of a rework edge at a node that a run from `start`
  -- may come to.
  pub record IsSpent (start : String) (x : ExhaustedLoop) : Type 0 where
    pub edge : Edge
    pub ahead : Reaches (targets snapshot) (start ∷ []) x.node
    pub leaves : In edge (outgoing snapshot x.node)
    pub reworks : is_rework edge ≡ true
    pub named : edge.loop ≡ some x.loop
    pub counted : x.counter ≡ Dict.get_or counters x.loop 0
    pub capped : x.cap ≡ loop_cap snapshot.doc.budgets max_fix_cycles x.loop
    pub spent : x.cap ≤ x.counter

  edge-IsSpent :
      (start node : String) (edge : Edge) (x : ExhaustedLoop)
      → Reaches (targets snapshot) (start ∷ []) node
      → In edge (outgoing snapshot node)
      → In x (exhausted_edge snapshot counters max_fix_cycles node edge)
      → IsSpent start x
  edge-IsSpent start node edge x r i j = elim (Option-cases edge.loop) [
    | inl e ↦ absurd (rw e at j)
    | inr (loop, e) ↦
        let found = exhausted_at snapshot counters max_fix_cycles node loop in
        elim (Bool-cases (is_rework edge && leb found.cap found.counter)) [
          | inr c ↦ absurd (rw (e, c) at j)
          | inl c ↦
              let here : In x (found ∷ []) = rw (e, c) at j in
              let spent : IsSpent start found = record {
                edge = edge;
                ahead = r;
                leaves = i;
                reworks = ground (arith, c);
                named = e;
                counted = refl;
                capped = refl;
                spent = leb→le found.cap found.counter (ground (arith, c));
              } in
              elim here [ inl q ↦ subst (IsSpent start) (sym q) spent | inr k ↦ absurd k ]
        ]
  ]

  IsSpent-edge :
      (start : String) (x : ExhaustedLoop) (p : IsSpent start x)
      → In x (exhausted_edge snapshot counters max_fix_cycles x.node p.edge)
  IsSpent-edge start x p =
      let found = exhausted_at snapshot counters max_fix_cycles x.node x.loop in
      let same : x ≡ found =
        λ i. record { loop = x.loop; node = x.node; counter = p.counted i; cap = p.capped i } in
      let over : leb found.cap found.counter ≡ true =
        subst (λ y. leb y.cap y.counter ≡ true) same (le→leb x.cap x.counter p.spent) in
      rw (p.named, p.reworks, over) (inl same)

  -- Of a loaded flow, the search for exhausted loops ends, and has found exactly the named loops of rework
  -- edges at nodes that a way leads to from where it starts, whose counter is at the cap or over it.
  pub exhausted_fix_loops_iff :
      (doc : FlowDoc) (fingerprint start : String)
      → load_flow doc fingerprint ≡ loaded snapshot
      → (found : List ExhaustedLoop) × (exhausted_fix_loops snapshot counters max_fix_cycles start
          ≡ some found)
        × ((x : ExhaustedLoop) → In x found ↔ IsSpent start x)
  unfolding exhausted_fix_loops
  exhausted_fix_loops_iff doc fingerprint start h =
      let (nodes, e, reached) = reachable_nodes_iff doc fingerprint snapshot start h in
      let at_node = exhausted_node snapshot counters max_fix_cycles in
      let at_edge = exhausted_edge snapshot counters max_fix_cycles in
      (
        flat_map at_node nodes,
        rw (exhausted_fix_loops, e) refl,
        λ x. (
          λ i.
              let (node, j, k) = In-flat_map at_node x nodes i in
              let (edge, l, m) = In-flat_map (at_edge node) x (outgoing snapshot node) k in
              edge-IsSpent start node edge x ((reached node).0 j) l m,
          λ p. flat_map-In at_node x.node x nodes ((reached x.node).1 p.ahead) (
              flat_map-In (at_edge x.node) p.edge x (outgoing snapshot x.node) p.leaves
                (IsSpent-edge start x p)),
        ),
      )
