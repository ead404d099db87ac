-- ===== src/Flow/Disabled/Skips.antt =====
-- core/flow/validator.py, `validate_disabled_nodes`, against the engine: a node that may be disabled can
-- be skipped.
use wastech_orchestrator.Prelude.{
  ◌==◌, ◌≡◌, refl, sym, subst, append_nil_left, append_nil_right, ◌∙◌, ◌⊎◌, inl, inr, true, false,
  not, String, str_eq, eq_iff, some, List, [], ◌∷◌, any, find, filter, length, starts_with, In,
  arith, Bool-cases, Option-cases,
}
use wastech_orchestrator.Prelude.Dict
use wastech_orchestrator.Flow.Schema.{FlowNode, agent, evaluator, checks, tool, hitl, publish, Edge}
use wastech_orchestrator.Flow.Snapshot.{FlowSnapshot, outgoing}
use wastech_orchestrator.Flow.Routing.{
  skip_outcome, outcome_is, is_unconditional, only, chosen, select_edge,
}
use wastech_orchestrator.Flow.Violations.{found_if, same_outcome, disables_unroutable}
use wastech_orchestrator.Flow.Disabled.{
  count_unconditional, is_routable, check_disabled, check_disabled_nodes,
}

any-find :
    (kind : String) (edges : List Edge)
    → any (λ e. same_outcome e.outcome (some kind)) edges ≡ true
    → (edge : Edge) × (find (outcome_is kind) edges ≡ some edge)
any-find kind [] h = absurd (ground arith)
any-find kind (e ∷ edges) h = elim (Bool-cases (outcome_is kind e)) [
  | inl q ↦ (e, rw q)
  | inr q ↦ let (found, f) = any-find kind edges (other q) in (found, rw q f)
]
  where
    other : outcome_is kind e ≡ false → any (λ e. same_outcome e.outcome (some kind)) edges ≡ true
    other q = elim (Option-cases e.outcome) [
      | inl o ↦ ground (arith, h, o)
      | inr (k, o) ↦ ground (arith, h, o, q, eq_iff k kind)
    ]

count_unconditional-eq :
    (edges : List Edge) → count_unconditional edges ≡ length (filter is_unconditional edges)
count_unconditional-eq [] = refl
count_unconditional-eq (e ∷ edges) = elim (Option-cases e.outcome) [
  | inl o ↦ ground (arith, o, count_unconditional-eq edges)
  | inr (k, o) ↦ ground (arith, o, count_unconditional-eq edges)
]

length-only : (edges : List Edge) → length edges ≡ 1 → (edge : Edge) × (only edges ≡ some edge)
length-only [] h = absurd (ground arith)
length-only (e ∷ []) h = (e, refl)
length-only (e ∷ f ∷ edges) h = absurd (omega (arith, h))

is_routable-chosen :
    (id kind : String) (edges : List Edge)
    → starts_with kind "route:" ≡ false
    → is_routable kind edges ≡ true
    → (edge : Edge) × (select_edge id edges kind ≡ chosen edge)
unfolding select_edge
is_routable-chosen id kind edges plain h = elim (Option-cases (find (outcome_is kind) edges)) [
  | inr (edge, e) ↦ (edge, rw (select_edge, plain, e))
  | inl e ↦ elim (Bool-cases (any (λ e. same_outcome e.outcome (some kind)) edges)) [
    | inl a ↦ absurd (ground (arith, e, (any-find kind edges a).1))
    | inr a ↦
        let is_done : str_eq kind "done" ≡ true = ground (arith, h, a) in
        let one : (count_unconditional edges == 1) ≡ true = ground (arith, h, a) in
        let (edge, o) =
          length-only (filter is_unconditional edges)
            (sym (count_unconditional-eq edges) ∙ ground (arith, one)) in
        (edge, rw (select_edge, plain, e, is_done, o))
  ]
]

skip_outcome_plain : (node : FlowNode) → starts_with (skip_outcome node).kind "route:" ≡ false
unfolding skip_outcome
skip_outcome_plain (agent n) = refl
skip_outcome_plain (evaluator n) = refl
skip_outcome_plain (checks n) = refl
skip_outcome_plain (tool n) = refl
skip_outcome_plain (hitl n) = refl
skip_outcome_plain (publish n) = refl

-- A node with this id exists, and it is terminal, or the engine finds an edge for its skip outcome.
abbrev pub Skippable : FlowSnapshot → String → Type 0
Skippable snap id =
    (node : FlowNode) × (Dict.get snap.nodes_by_id id ≡ some node)
    × ((outgoing snap id ≡ [])
        ⊎ ((edge : Edge) × (select_edge id (outgoing snap id) (skip_outcome node).kind
              ≡ chosen edge)))

routed :
    (node : FlowNode) (id : String) (edges : List Edge)
    → (elim edges [
      | [] ↦ []
      | f ∷ fs ↦
          found_if (not (is_routable (skip_outcome node).kind (f ∷ fs))) (disables_unroutable id)
    ])
      ≡ []
    → (edges ≡ []) ⊎ ((edge : Edge) × (select_edge id edges (skip_outcome node).kind ≡ chosen edge))
routed node id [] h = inl refl
routed node id (f ∷ fs) h = elim (Bool-cases (is_routable (skip_outcome node).kind (f ∷ fs))) [
  | inl e ↦
      inr (is_routable-chosen id (skip_outcome node).kind (f ∷ fs) (skip_outcome_plain node) e)
  | inr e ↦ absurd (ground (arith, h, e))
]

check_disabled-Skippable :
    (snap : FlowSnapshot) (id : String) → check_disabled snap id ≡ [] → Skippable snap id
unfolding check_disabled
check_disabled-Skippable snap id h = elim (Option-cases (Dict.get snap.nodes_by_id id)) [
  | inl e ↦ absurd (ground (arith, h, e))
  | inr (node, e) ↦ (node, e, routed node id (outgoing snap id) (rw (check_disabled, e) at h))
]

-- Where the check of the disabled nodes finds nothing, each of them is a node of the flow, and it is
-- terminal, or the engine finds an edge for the outcome of skipping it.
pub check_disabled_nodes-Skippable :
    (snap : FlowSnapshot) (disabled : List String) (id : String)
    → check_disabled_nodes snap disabled ≡ []
    → In id disabled
    → Skippable snap id
unfolding check_disabled_nodes
check_disabled_nodes-Skippable snap [] id h i = absurd i
check_disabled_nodes-Skippable snap (d ∷ ds) id h (inl e) = check_disabled-Skippable snap id (
    subst (λ x. check_disabled snap x ≡ []) (sym e)
      (append_nil_left (check_disabled snap d) (check_disabled_nodes snap ds) h))
check_disabled_nodes-Skippable snap (d ∷ ds) id h (inr i) =
    check_disabled_nodes-Skippable snap ds id
      (append_nil_right (check_disabled snap d) (check_disabled_nodes snap ds) h) i
