-- ===== src/Flow/LoopControl/Refusal.antt =====
-- When `rework_refusal` lets an edge pass.
use wastech_orchestrator.Prelude.{
  ℕ, ◌<◌, ◌≡◌, inl, inr, ◌↔◌, false, String, none, some, Bool-cases, Option-cases, leb, leb→gt,
  gt→leb, arith,
}
use wastech_orchestrator.Flow.Schema.{Edge}
use wastech_orchestrator.Flow.Snapshot.{FlowSnapshot}
use wastech_orchestrator.Flow.RunState.{FlowRunState, counter, fix_iterations}
use wastech_orchestrator.Flow.LoopControl.{
  loop_cap, global_cap, edge_key, Limits, edge_refusal, rework_refusal,
}

module _ (snapshot : FlowSnapshot) (s : FlowRunState) (edge : Edge) (limits : Limits) where
  abbrev gcap : ℕ
  gcap = global_cap snapshot.doc.budgets limits.max_total_fix_iterations

  abbrev lcap : String → ℕ
  lcap = loop_cap snapshot.doc.budgets limits.max_fix_cycles

  -- There is room for one more round under every limit that the edge is charged to.
  pub record HasRoom : Type 0 where
    pub global_room : fix_iterations s < gcap
    pub loop_room : (loop : String) → edge.loop ≡ some loop → counter s loop < lcap loop
    pub inline_room :
        (budget : ℕ)
        → edge.loop ≡ none
        → edge.budget ≡ some budget
        → counter s (edge_key edge) < budget

  loop_free :
      (loop : String)
      → edge.loop ≡ some loop
      → edge_refusal snapshot s edge limits ≡ none
      → leb (lcap loop) (counter s loop) ≡ false
  unfolding edge_refusal
  loop_free loop e p = ground arith

  inline_free :
      (budget : ℕ)
      → edge.loop ≡ none
      → edge.budget ≡ some budget
      → edge_refusal snapshot s edge limits ≡ none
      → leb budget (counter s (edge_key edge)) ≡ false
  unfolding edge_refusal
  inline_free budget e b p = ground arith

  refusal_none-HasRoom : rework_refusal snapshot s edge limits ≡ none → HasRoom
  unfolding rework_refusal
  refusal_none-HasRoom h = elim (Option-cases (edge_refusal snapshot s edge limits)) [
    | inr (r, p) ↦ absurd (ground arith)
    | inl p ↦ elim (Bool-cases (leb gcap (fix_iterations s))) [
      | inl q ↦ absurd (ground arith)
      | inr q ↦ record {
        global_room = leb→gt _ _ q;
        loop_room = λ loop e. leb→gt _ _ (loop_free loop e p);
        inline_room = λ budget e b. leb→gt _ _ (inline_free budget e b p);
      }
    ]
  ]

  edge_refusal-HasRoom : HasRoom → edge_refusal snapshot s edge limits ≡ none
  unfolding edge_refusal
  edge_refusal-HasRoom room = elim (Option-cases edge.loop) [
    | inr (loop, e) ↦ rw (e, edge_refusal, gt→leb _ _ (room.loop_room loop e))
    | inl e ↦ elim (Option-cases edge.budget) [
      | inl b ↦ rw (e, edge_refusal, b)
      | inr (budget, b) ↦ rw (e, b, edge_refusal, gt→leb _ _ (room.inline_room budget e b))
    ]
  ]

  HasRoom-refusal_none : HasRoom → rework_refusal snapshot s edge limits ≡ none
  unfolding rework_refusal
  HasRoom-refusal_none room =
      let free = edge_refusal-HasRoom room in
      let below = gt→leb _ _ room.global_room in ground arith

  -- An edge is let through exactly when every limit that it is charged to has room: fewer rounds
  -- than the cap of the loop that it names, or than its inline budget if it names none, and than
  -- the global cap.
  pub refusal_none_iff : (rework_refusal snapshot s edge limits ≡ none) ↔ HasRoom
  refusal_none_iff = (refusal_none-HasRoom, HasRoom-refusal_none)
