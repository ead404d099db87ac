-- ===== src/Flow/Charging/Counters.antt =====
-- What a charge and a reset do to each counter, where loop names are plain.
use wastech_orchestrator.Prelude.{
  ◌+◌, ◌≡◌, refl, sym, ap, subst, ◌∙◌, ◌≤◌, ◌≢◌, inl, inr, true, String, some, List, [], ◌∷◌, In,
  Bool-cases, Option-cases, arith,
}
use wastech_orchestrator.Flow.Schema.{Edge, is_rework}
use wastech_orchestrator.Flow.RunState.{
  FlowRunState, global_fix_key, total_key, counter, fix_iterations, total, bump, reset,
}
use wastech_orchestrator.Flow.RunState.Keys.{
  IsPlain, total_key-ne-global, edge_key-ne-global, total_key-ne-plain, edge_key-ne-plain,
}
use wastech_orchestrator.Flow.RunState.Counters.{
  counter-bump_self, counter-bump_ne, counter-reset_self, counter-reset_ne, counter-reset_le,
}
use wastech_orchestrator.Flow.LoopControl.{edge_key}
use wastech_orchestrator.Flow.Host.{Engine}
use wastech_orchestrator.Flow.Charging.{charge_counters, reset_edge, reset_edges}

-- The loop that an edge names, if it names one, is not a reserved key.
pub record IsPlainEdge (edge : Edge) : Type 0 where
  pub loop_plain : (loop : String) → edge.loop ≡ some loop → IsPlain loop

-- Charging an edge adds one to the global fix counter, if the loop that it names, if any, is plain.
pub fix_iterations-charge :
    (edge : Edge) (s : FlowRunState)
    → IsPlainEdge edge
    → fix_iterations (charge_counters edge s) ≡ fix_iterations s + 1
unfolding charge_counters
fix_iterations-charge edge s plain = elim (Option-cases edge.loop) [
  | inr (l, e) ↦
      let p = plain.loop_plain l e in
      rw e (
        ground (
          arith,
          counter-bump_self s global_fix_key,
          counter-bump_ne (bump s global_fix_key) l global_fix_key p.not_global,
          counter-bump_ne (bump (bump s global_fix_key) l) (total_key l) global_fix_key
              (total_key-ne-global l),
        ))
  | inl e ↦ rw e (elim (Option-cases edge.budget) [
    | inl b ↦ rw b (counter-bump_self s global_fix_key)
    | inr (n, b) ↦ rw b (
        ground (
          arith,
          counter-bump_self s global_fix_key,
          counter-bump_ne (bump s global_fix_key) (edge_key edge) global_fix_key
              (edge_key-ne-global edge),
        ))
  ])
]

-- A named loop's own counter and its cumulative total both grow by one.
pub counter-charge_self :
    (edge : Edge) (s : FlowRunState) (l : String)
    → edge.loop ≡ some l
    → IsPlain l
    → (counter (charge_counters edge s) l ≡ counter s l + 1)
      × (total (charge_counters edge s) l ≡ total s l + 1)
unfolding charge_counters
counter-charge_self edge s l e p =
    let g = bump s global_fix_key in
    rw e (
      ground (
        arith,
        counter-bump_ne s global_fix_key l (λ q. p.not_global (sym q)),
        counter-bump_ne s global_fix_key (total_key l) (λ q. total_key-ne-global l (sym q)),
        counter-bump_self g l,
        counter-bump_ne g l (total_key l) (λ q. total_key-ne-plain l l p (sym q)),
        counter-bump_self (bump g l) (total_key l),
        counter-bump_ne (bump g l) (total_key l) l (total_key-ne-plain l l p),
      ))

-- Another loop's counter stays.
pub counter-charge_ne :
    (edge : Edge) (s : FlowRunState) (l : String)
    → edge.loop ≢ some l
    → IsPlain l
    → counter (charge_counters edge s) l ≡ counter s l
unfolding charge_counters
counter-charge_ne edge s l h p =
    let g = bump s global_fix_key in
    let global = counter-bump_ne s global_fix_key l (λ q. p.not_global (sym q)) in
    elim (Option-cases edge.loop) [
      | inr (m, e) ↦ rw e (
          ground (
            arith,
            global,
            counter-bump_ne g m l (λ q. h (rw e (ap some q))),
            counter-bump_ne (bump g m) (total_key m) l (total_key-ne-plain m l p),
          ))
      | inl e ↦ rw e (elim (Option-cases edge.budget) [
        | inl b ↦ rw b global
        | inr (n, b) ↦ rw b (
            ground
              (arith, global, counter-bump_ne g (edge_key edge) l (edge_key-ne-plain edge l p)))
      ])
    ]

module _ {W : Type 0} where
  fix_iterations-reset_edge :
      (edge : Edge) (e : Engine W)
      → IsPlainEdge edge
      → fix_iterations (reset_edge edge e).run_state ≡ fix_iterations e.run_state
  unfolding reset_edge
  fix_iterations-reset_edge edge e plain = elim (Bool-cases (is_rework edge)) [
    | inl r ↦ rw r (elim (Option-cases edge.loop) [
      | inr (l, p) ↦
          rw p (counter-reset_ne e.run_state l global_fix_key (plain.loop_plain l p).not_global)
      | inl p ↦ rw p (elim (Option-cases edge.budget) [
        | inl b ↦ rw b
        | inr (n, b) ↦
            rw b (
              counter-reset_ne e.run_state (edge_key edge) global_fix_key (edge_key-ne-global edge))
      ])
    ])
    | inr r ↦ rw r
  ]

  -- A forward edge leaves the global counter alone.
  pub fix_iterations-reset_edges :
      (edges : List Edge) (e : Engine W)
      → ((edge : Edge) → In edge edges → IsPlainEdge edge)
      → fix_iterations (reset_edges edges e).run_state ≡ fix_iterations e.run_state
  unfolding reset_edges
  fix_iterations-reset_edges [] e plain = refl
  fix_iterations-reset_edges (edge ∷ rest) e plain =
      fix_iterations-reset_edges rest (reset_edge edge e) (λ x m. plain x (inr m))
      ∙ fix_iterations-reset_edge edge e (plain edge (inl refl))

  counter-reset_edge_le :
      (edge : Edge) (e : Engine W) (k : String)
      → counter (reset_edge edge e).run_state k ≤ counter e.run_state k
  unfolding reset_edge
  counter-reset_edge_le edge e k = elim (Bool-cases (is_rework edge)) [
    | inl r ↦ rw r (elim (Option-cases edge.loop) [
      | inr (l, p) ↦ rw p (counter-reset_le e.run_state l k)
      | inl p ↦ rw p (elim (Option-cases edge.budget) [
        | inl b ↦ rw b (omega arith)
        | inr (n, b) ↦ rw b (counter-reset_le e.run_state (edge_key edge) k)
      ])
    ])
    | inr r ↦ rw r (omega arith)
  ]

  -- No counter grows on a forward edge.
  pub counter-reset_edges_le :
      (edges : List Edge) (e : Engine W) (k : String)
      → counter (reset_edges edges e).run_state k ≤ counter e.run_state k
  unfolding reset_edges
  counter-reset_edges_le [] e k = omega arith
  counter-reset_edges_le (edge ∷ rest) e k =
      omega
        (arith, counter-reset_edges_le rest (reset_edge edge e) k, counter-reset_edge_le edge e k)

  counter-reset_edge_zero :
      (edge : Edge) (e : Engine W) (l : String)
      → is_rework edge ≡ true
      → edge.loop ≡ some l
      → counter (reset_edge edge e).run_state l ≡ 0
  unfolding reset_edge
  counter-reset_edge_zero edge e l r p = rw (r, p) (counter-reset_self e.run_state l)

  -- The reset at a node sets to zero the counter of every loop that a rework edge of the node
  -- names.
  pub counter-reset_edges_zero :
      (edges : List Edge) (edge : Edge) (e : Engine W) (l : String)
      → In edge edges
      → is_rework edge ≡ true
      → edge.loop ≡ some l
      → counter (reset_edges edges e).run_state l ≡ 0
  unfolding reset_edges
  counter-reset_edges_zero [] edge e l m r p = absurd m
  counter-reset_edges_zero (x ∷ rest) edge e l (inl q) r p =
      let here =
        counter-reset_edge_zero x e l (subst (λ y. is_rework y ≡ true) q r)
          (ap (λ (y : Edge). y.loop) (sym q) ∙ p) in
      omega (arith, counter-reset_edges_le rest (reset_edge x e) l)
  counter-reset_edges_zero (x ∷ rest) edge e l (inr m) r p =
      counter-reset_edges_zero rest edge (reset_edge x e) l m r p

  -- What else a reset keeps.
  pub reset_edges_keeps :
      (edges : List Edge) (e : Engine W)
      → ((reset_edges edges e).run_state.current_node ≡ e.run_state.current_node)
        × ((reset_edges edges e).run_state.completed_nodes ≡ e.run_state.completed_nodes)
  unfolding reset_edges reset_edge reset
  reset_edges_keeps [] e = (refl, refl)
  reset_edges_keeps (edge ∷ rest) e = ground (arith, reset_edges_keeps rest (reset_edge edge e))
