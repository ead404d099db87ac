-- ===== src/Flow/Engine/Budgets.antt =====
-- The counters over a whole run: no round takes one past its cap.
use wastech_orchestrator.Prelude.{
  ℕ, ◌+◌, ◌≤◌, ◌<◌, ◌≡◌, ap, ◌∙◌, ◌⊎◌, inl, inr, true, false, String, some, In, Bool-cases,
  Option-cases, some_inj, subst, sym, str_eq, eq_iff, arith,
}
use wastech_orchestrator.Prelude.Dict
use wastech_orchestrator.Prelude.Dict.{Dict}
use wastech_orchestrator.Flow.Schema.{Edge, is_rework}
use wastech_orchestrator.Flow.Snapshot.{FlowSnapshot, outgoing}
use wastech_orchestrator.Flow.RunState.{FlowRunState, counter, fix_iterations, global_fix_key}
use wastech_orchestrator.Flow.RunState.Keys.{IsPlain}
use wastech_orchestrator.Flow.LoopControl.{loop_cap, global_cap}
use wastech_orchestrator.Flow.LoopControl.Refusal.{refusal_none_iff}
use wastech_orchestrator.Flow.Host.{Host, Setup, Engine}
use wastech_orchestrator.Flow.Charging.Counters.{
  IsPlainEdge, fix_iterations-charge, counter-charge_self, counter-charge_ne,
  fix_iterations-reset_edges, counter-reset_edges_le, counter-reset_edges_zero,
}
use wastech_orchestrator.Flow.Engine.Step.{IsIndexed, Transition, iterate-Transition}
use wastech_orchestrator.Flow.Engine.{next, iterate}
use wastech_orchestrator.Flow.Charging.{charge_counters}

-- No edge of the flow names a reserved key as its loop.
pub record HasPlainLoops (snapshot : FlowSnapshot) : Type 0 where
  pub plain_at : (node : String) (edge : Edge) → In edge (outgoing snapshot node) → IsPlainEdge edge

counters_eq : {d d' : Dict ℕ} (k : String) → d ≡ d' → Dict.get_or d k 0 ≡ Dict.get_or d' k 0
counters_eq k h = ap (λ d. Dict.get_or d k 0) h

module _ (setup : Setup) where
  open setup use {snapshot, limits}

  abbrev pub cap : ℕ
  cap = global_cap snapshot.doc.budgets limits.max_total_fix_iterations

  abbrev pub cap_of : String → ℕ
  cap_of = loop_cap snapshot.doc.budgets limits.max_fix_cycles

  -- Every counter of a plain loop stays within its cap, and the global one within its own.
  pub record IsWithin (s : FlowRunState) : Type 0 where
    pub global : fix_iterations s ≤ cap
    pub loops : (loop : String) → IsPlain loop → counter s loop ≤ cap_of loop

module _ {W : Type 0} (setup : Setup) where
  open setup use {snapshot, limits}

  -- What a transition does to the global fix counter.
  pub Transition-fix_iterations :
      {e e' : Engine W} (t : Transition setup e e')
      → HasPlainLoops snapshot
      → ((is_rework t.edge ≡ true)
          × (fix_iterations e'.run_state ≡ fix_iterations e.run_state + 1)
          × (fix_iterations e.run_state < cap setup))
        ⊎ ((is_rework t.edge ≡ false) × (fix_iterations e'.run_state ≡ fix_iterations e.run_state))
  Transition-fix_iterations {e} {e'} t plain = elim (Bool-cases (is_rework t.edge)) [
    | inl r ↦
        let (allowed, counted) = t.charged r in
        let room = (refusal_none_iff snapshot e.run_state t.edge limits).0 allowed in
        inl (
          r,
          counters_eq global_fix_key counted
              ∙ fix_iterations-charge t.edge e.run_state (plain.plain_at t.node t.edge t.declared),
          room.global_room,
        )
    | inr r ↦ inr (
      r,
      counters_eq global_fix_key (t.cleared r)
          ∙ fix_iterations-reset_edges (outgoing snapshot t.node) t.prior (plain.plain_at t.node)
          ∙ counters_eq global_fix_key t.prior_counters,
    )
  ]

  loop_within :
      {e e' : Engine W} (t : Transition setup e e') (loop : String)
      → IsPlain loop
      → counter e.run_state loop ≤ cap_of setup loop
      → counter e'.run_state loop ≤ cap_of setup loop
  loop_within {e} {e'} t loop p h = elim (Bool-cases (is_rework t.edge)) [
    | inr r ↦ omega (
      arith,
      counters_eq loop (t.cleared r),
      counter-reset_edges_le (outgoing snapshot t.node) t.prior loop,
      counters_eq loop t.prior_counters,
    )
    | inl r ↦
        let (allowed, counted) = t.charged r in
        let room = (refusal_none_iff snapshot e.run_state t.edge limits).0 allowed in
        let same = counters_eq loop counted in
        elim (Option-cases t.edge.loop) [
          | inl q ↦ omega (arith, same, counter-charge_ne t.edge e.run_state loop (λ f. cc) p)
          | inr (m, q) ↦ elim (Bool-cases (str_eq m loop)) [
            | inl y ↦
                let named : t.edge.loop ≡ some loop = q ∙ ap some ((eq_iff m loop).0 y) in
                omega (
                  arith,
                  same,
                  (counter-charge_self t.edge e.run_state loop named p).0,
                  room.loop_room loop named,
                )
            | inr n ↦ omega (
              arith,
              same,
              counter-charge_ne t.edge e.run_state loop (λ f. ground (arith, eq_iff m loop)) p,
            )
          ]
        ]
  ]

  pub Transition-IsWithin :
      {e e' : Engine W}
      → Transition setup e e'
      → HasPlainLoops snapshot
      → IsWithin setup e.run_state
      → IsWithin setup e'.run_state
  Transition-IsWithin {e} {e'} t plain h = record {
    global = ground (arith, Transition-fix_iterations t plain, h.global);
    loops = λ loop p. loop_within t loop p (h.loops loop p);
  }

module _ {W : Type 0} (host : Host W) (setup : Setup) where
  open setup use {snapshot}

  -- Where every node is indexed under its id and no loop has a reserved name: a round that goes on took
  -- an edge declared at the current node. A rework edge added one to the global fix counter, which was
  -- below its cap, and a forward edge left it as it was.
  pub iterate-fix_iterations :
      (e e' : Engine W)
      → IsIndexed snapshot
      → HasPlainLoops snapshot
      → iterate host setup e ≡ next e'
      → (node : String) × (edge : Edge) × (e.run_state.current_node ≡ some node)
        × In edge (outgoing snapshot node)
        × (e'.run_state.current_node ≡ some edge.to)
        × (((is_rework edge ≡ true)
              × (fix_iterations e'.run_state ≡ fix_iterations e.run_state + 1)
              × (fix_iterations e.run_state < cap setup))
            ⊎ ((is_rework edge ≡ false)
                × (fix_iterations e'.run_state ≡ fix_iterations e.run_state)))
  iterate-fix_iterations e e' indexed plain h =
      let t = iterate-Transition host setup e e' indexed h in
      (t.node, t.edge, t.here, t.declared, t.arrived, Transition-fix_iterations setup t plain)

  -- Where every node is indexed under its id, and a rework edge out of the current node names a loop: a
  -- round that goes on took an edge declared at that node. If it is a rework edge, its charge is the
  -- change of the counters; if it is a forward edge, the counter of the loop is zero afterwards.
  pub iterate-counter_zero :
      (e e' : Engine W) (node : String) (back : Edge) (loop : String)
      → IsIndexed snapshot
      → e.run_state.current_node ≡ some node
      → In back (outgoing snapshot node)
      → is_rework back ≡ true
      → back.loop ≡ some loop
      → iterate host setup e ≡ next e'
      → (edge : Edge) × In edge (outgoing snapshot node)
        × (e'.run_state.current_node ≡ some edge.to)
        × (((is_rework edge ≡ true)
              × (e'.run_state.loop_counters ≡ (charge_counters edge e.run_state).loop_counters))
            ⊎ ((is_rework edge ≡ false) × (counter e'.run_state loop ≡ 0)))
  iterate-counter_zero e e' node back loop indexed here m r named h =
      let t = iterate-Transition host setup e e' indexed h in
      let same : t.node ≡ node = some_inj (sym t.here ∙ here) in
      let m' = subst (λ n. In back (outgoing snapshot n)) (sym same) m in
      (
        t.edge,
        subst (λ n. In t.edge (outgoing snapshot n)) same t.declared,
        t.arrived,
        elim (Bool-cases (is_rework t.edge)) [
          | inl forth ↦ inl (forth, (t.charged forth).1)
          | inr forward ↦ inr (
            forward,
            counters_eq loop (t.cleared forward)
                ∙ counter-reset_edges_zero (outgoing snapshot t.node) back t.prior loop m' r named,
          )
        ],
      )
