-- ===== src/Decomposition.antt =====
-- core/decomposition.py: whether a proposed split of a task is accepted, and the index of its subtasks.
-- Writing the files is left out: a spec's path is written once, and the index is a list of entries.
pub mod Parse
pub mod Index
pub mod Accepted
use wastech_orchestrator.Prelude.{
  ℕ, suc, ltb, leb, ◌==◌, Bool, true, false, not, ◌&&◌, ◌||◌, String, Option, none, some, List, [],
  ◌∷◌, length, any, if◌then◌else◌,
}
use wastech_orchestrator.Prelude.Int.{ℤ, pos, pos_part, neg_part, lt_int, le_int, eq_int}

pub record SubtaskSpec : Type 0 where
  pub order : ℤ
  pub title : String
  pub slug : String
  pub acceptance_criteria : List String
  pub depends_on : List ℤ
  pub spec_body : Option String

-- The reason codes.
pub data Reason : Type 0 where
  gate_off not_recommended n_out_of_range malformed_subtask : Reason
  non_linear_dependencies accepted_split operator_authored : Reason

pub record DecompositionDecision : Type 0 where
  pub accepted : Bool
  pub reason : Reason
  pub n : ℕ
  pub subtasks : List SubtaskSpec

unfoldable pub single_unit : Reason → DecompositionDecision
single_unit reason = record { accepted = false; reason = reason; n = 1; subtasks = [] }

-- `sorted(specs, key=lambda s: s.order)`, which is stable.
unfoldable pub insert_spec : SubtaskSpec → List SubtaskSpec → List SubtaskSpec
insert_spec s [] = s ∷ []
insert_spec s (t ∷ ts) =
    let rest = insert_spec s ts in if le_int s.order t.order then s ∷ t ∷ ts else t ∷ rest

unfoldable pub sort_specs : List SubtaskSpec → List SubtaskSpec
unfolding insert_spec
sort_specs [] = []
sort_specs (s ∷ ss) = insert_spec s (sort_specs ss)

-- Some dependency is not on an earlier order.
abbrev pub bad_dependency : ℤ → List ℤ → Bool
bad_dependency order deps = any (λ d. lt_int d (pos 1) || le_int order d) deps

-- The loop that checks orders and dependencies.
unfoldable pub is_linear_from : ℕ → List SubtaskSpec → Bool
is_linear_from index [] = true
is_linear_from index (s ∷ ss) =
    eq_int s.order (pos index)
    && (not (bad_dependency s.order s.depends_on) && is_linear_from (suc index) ss)

unfoldable pub decide_from_specs : List SubtaskSpec → ℕ → DecompositionDecision
unfolding single_unit sort_specs is_linear_from
decide_from_specs specs max_subtasks =
    let n = length specs in
    let ordered = sort_specs specs in
    if ltb n 2 || ltb max_subtasks n
    then single_unit n_out_of_range
    else if is_linear_from 1 ordered
    then record { accepted = true; reason = accepted_split; n = n; subtasks = ordered }
    else single_unit non_linear_dependencies

unfoldable pub decide_operator_decomposition : List SubtaskSpec → ℕ → DecompositionDecision
unfolding decide_from_specs
decide_operator_decomposition specs max_subtasks =
    let decision = decide_from_specs specs max_subtasks in
    if decision.accepted then record decision { reason = operator_authored } else decision
