-- ===== src/Checks/Selection.antt =====
-- checks/selection.py and the shapes of checks/model.py: which command sets run for a change.
pub mod Selected
use wastech_orchestrator.Prelude.{
  ℕ, Bool, true, false, not, ◌&&◌, ◌||◌, String, contains, Option, none, some, List, [], ◌∷◌, any,
  if◌then◌else◌,
}
use wastech_orchestrator.Checks.Glob.{path_matches_any}

pub record ResolvedCheck : Type 0 where
  pub name : String
  pub argv : List String
  pub cwd : String

pub record ResolvedCheckSet : Type 0 where
  pub name : String
  pub paths : List String
  pub checks : List ResolvedCheck
  pub timeout_seconds : Option ℕ
  pub skip_if_unavailable : Bool

abbrev pub is_empty : List String → Bool
is_empty [] = true
is_empty (x ∷ xs) = false

-- `runs` of one set, for the changed paths; `path_matches_any` replaces the backslashes again.
unfoldable pub runs : List String → ResolvedCheckSet → Bool
unfolding path_matches_any
runs changed cset = is_empty cset.paths || any (λ path. path_matches_any path cset.paths) changed

-- The loop over the sets; `seen` are the names that were selected before.
unfoldable pub select_from :
    List String → List String → List ResolvedCheckSet → List ResolvedCheckSet
unfolding runs
select_from changed seen [] = []
select_from changed seen (cset ∷ sets) = elim (runs changed cset && not (contains seen cset.name)) [
  | true ↦ cset ∷ select_from changed (cset.name ∷ seen) sets
  | false ↦ select_from changed seen sets
]

unfoldable pub select_check_sets :
    List ResolvedCheckSet → Option (List String) → List ResolvedCheckSet
unfolding select_from
select_check_sets sets none = sets
select_check_sets sets (some []) = []
select_check_sets sets (some (path ∷ paths)) = select_from (path ∷ paths) [] sets
