-- ===== src/Examples/Changes.antt =====
-- The theorems on globs, check sets and diffs at small examples.
use wastech_orchestrator.Prelude.{◌≡◌, ◌↔◌, true, false, none, some, [], ◌∷◌}
use wastech_orchestrator.Checks.Glob.{path_matches_any}
use wastech_orchestrator.Checks.Glob.Paths.{MatchesAny, path_matches_any_iff}
use wastech_orchestrator.Checks.Selection.{ResolvedCheckSet, select_check_sets}
use wastech_orchestrator.Checks.Selection.Selected.{IsSelection, select_check_sets-IsSelection}
use wastech_orchestrator.Checks.DangerousDiff.{ChangedPath, evaluate_diff_gate}
use wastech_orchestrator.Checks.DangerousDiff.Gated.{Decided, evaluate_diff_gate-Decided}

path_matches_any_iff_example :
    (path_matches_any "src/a/b.py" ("docs/*" ∷ "src/**/*.py" ∷ []) ≡ true)
    ↔ MatchesAny "src/a/b.py" ("docs/*" ∷ "src/**/*.py" ∷ [])
path_matches_any_iff_example = path_matches_any_iff "src/a/b.py" ("docs/*" ∷ "src/**/*.py" ∷ [])

abbrev python_checks : ResolvedCheckSet
python_checks = record {
  name = "python";
  paths = "**/*.py" ∷ [];
  checks = record { name = "ruff"; argv = "ruff" ∷ []; cwd = "." } ∷ [];
  timeout_seconds = none;
  skip_if_unavailable = false;
}

select_check_sets-IsSelection_example :
    IsSelection
      ("a.py" ∷ [])
      (python_checks ∷ python_checks ∷ [])
      (select_check_sets (python_checks ∷ python_checks ∷ []) (some ("a.py" ∷ [])))
select_check_sets-IsSelection_example =
    select_check_sets-IsSelection (python_checks ∷ python_checks ∷ []) "a.py" []

abbrev moved_lock : ChangedPath
moved_lock = record { status = "R100"; path = "old/uv.lock"; previous_path = some "uv.lock" }

evaluate_diff_gate-Decided_example :
    Decided
      (moved_lock ∷ [])
      "strict"
      ("secrets/**" ∷ [])
      (evaluate_diff_gate (moved_lock ∷ []) "strict" ("secrets/**" ∷ []))
evaluate_diff_gate-Decided_example =
    evaluate_diff_gate-Decided (moved_lock ∷ []) "strict" ("secrets/**" ∷ [])
