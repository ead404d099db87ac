-- ===== src/Flow/Disabled.antt =====
-- core/flow/validator.py, `validate_disabled_nodes`: whether the nodes that a task disables can be
-- skipped in its flow.
pub mod Skips
use wastech_orchestrator.Prelude.{
  ℕ, suc, ◌==◌, Bool, not, ◌&&◌, ◌||◌, String, str_eq, Option, none, some, is_some, List, [], ◌∷◌,
  any, if◌then◌else◌,
}
use wastech_orchestrator.Prelude.Dict
use wastech_orchestrator.Flow.Schema.{Edge}
use wastech_orchestrator.Flow.Snapshot.{FlowSnapshot, outgoing}
use wastech_orchestrator.Flow.Routing.{skip_outcome}
use wastech_orchestrator.Flow.Violations.{
  Violation, disables_unknown, disables_unroutable, found_if, collect, same_outcome,
}

abbrev pub count_unconditional : List Edge → ℕ
count_unconditional [] = 0
count_unconditional (e ∷ edges) =
    let rest = count_unconditional edges in if is_some e.outcome then rest else suc rest

abbrev pub is_routable : String → List Edge → Bool
is_routable kind edges =
    any (λ e. same_outcome e.outcome (some kind)) edges
    || (str_eq kind "done" && count_unconditional edges == 1)

-- The violations of one disabled node.
unfoldable pub check_disabled : FlowSnapshot → String → List Violation
unfolding skip_outcome
check_disabled snap id = elim (Dict.get snap.nodes_by_id id) [
  | none ↦ disables_unknown id ∷ []
  | some node ↦ elim (outgoing snap id) [
    | [] ↦ []
    | e ∷ edges ↦
        found_if (not (is_routable (skip_outcome node).kind (e ∷ edges))) (disables_unroutable id)
  ]
]

unfoldable pub check_disabled_nodes : FlowSnapshot → List String → List Violation
unfolding check_disabled
check_disabled_nodes snap disabled = collect (check_disabled snap) disabled
