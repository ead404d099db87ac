-- ===== src/Examples/Subtasks.antt =====
-- The theorems on splits and recovery at small examples.
use wastech_orchestrator.Prelude.{
  ℕ, ◌+◌, ◌≡◌, refl, ◌↔◌, inl, inr, true, false, String, eq_iff, none, some, List, [], ◌∷◌, arith,
}
use wastech_orchestrator.Prelude.Int.{pos}
use wastech_orchestrator.Prelude.Json.{
  Value, bool, int, text, array, object, nil, cons, end, field, get_field,
}
use wastech_orchestrator.Decomposition.{SubtaskSpec, decide_from_specs}
use wastech_orchestrator.Decomposition.Parse.{decide_decomposition, decide_object, parse_subtasks}
use wastech_orchestrator.Decomposition.Accepted.{Proposes, IsSplit, decide_decomposition-IsSplit}
use wastech_orchestrator.Recovery.{
  TaskRow, SubtaskRow, resume, manual, ManualReason, reconcile_decomposed,
}
use wastech_orchestrator.Recovery.Resume.{
  IsConsistent, committed, reconcile_decomposed_iff, reconcile_decomposed_manual,
}

abbrev proposed : ℕ → String → Value
proposed order slug = object (
    field "order" (int (pos order)) (
      field "title" (text "t") (
        field "slug" (text slug) (
          field "acceptance_criteria" (array (cons (text "c") nil))
            (field "depends_on" (array nil) end)))))

abbrev output : Value
output = object (
    field "decompose" (bool true)
      (field "subtasks" (array (cons (proposed 2 "b") (cons (proposed 1 "a") nil))) end))

decide_decomposition-IsSplit_example :
    (true ≡ true)
    × (specs : List SubtaskSpec) × Proposes (some output) specs
    × IsSplit specs 3 (decide_decomposition (some output) true 3)
unfolding decide_decomposition decide_object parse_subtasks decide_from_specs get_field
decide_decomposition-IsSplit_example = decide_decomposition-IsSplit (some output) true 3 refl

abbrev task : TaskRow
task = record {
  task_id = "t";
  branch = some "b";
  subtask_count = some 3;
  decomposition_accepted = some true;
  subtasks_completed = 1;
}

abbrev rows : List SubtaskRow
rows = record { order = 1; commit_sha = some "c1" } ∷ record { order = 2; commit_sha = none } ∷ []

reconcile_decomposed_iff_example :
    (reconcile_decomposed (λ sha branch. true) task rows ≡ resume "t" (some (committed rows + 1)))
    ↔ IsConsistent (λ sha branch. true) task rows
reconcile_decomposed_iff_example = reconcile_decomposed_iff (λ sha branch. true) task rows

differ : false ≡ true → ⊥
differ h = ground arith

lost : ¬ IsConsistent (λ sha branch. false) task rows
lost ((first, _), _) = elim (first "c1" refl) [
  | inl e ↦ absurd (differ ((eq_iff "b" "").1 e))
  | inr e ↦ absurd (differ e)
]

reconcile_decomposed_manual_example :
    (reason : ManualReason) × (reconcile_decomposed (λ sha branch. false) task rows
      ≡ manual (some "t") reason ("t" ∷ []))
reconcile_decomposed_manual_example =
    reconcile_decomposed_manual (λ sha branch. false) task rows lost
