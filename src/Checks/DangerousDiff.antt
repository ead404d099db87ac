-- ===== src/Checks/DangerousDiff.antt =====
-- core/dangerous_diff.py: which changes of a diff a person has to approve. A set is a list of its members.
pub mod Members
pub mod Gated
use wastech_orchestrator.Prelude.{
  ℕ, suc, ◌+◌, ltb, leb, ◌==◌, Bool, true, false, not, ◌&&◌, ◌||◌, String, str_eq, contains, Option,
  none, some, List, [], ◌∷◌, ◌++◌, any, filter, flat_map, if◌then◌else◌,
}
use wastech_orchestrator.Prelude.Chars.{codes}
use wastech_orchestrator.Prelude.Sorted.{sorted_set}
use wastech_orchestrator.Checks.Glob.{slash, star, normalized, path_matches_any}

-- git_manager.py, `ChangedPath`
pub record ChangedPath : Type 0 where
  pub status : String
  pub path : String
  pub previous_path : Option String

pub record DangerousDiff : Type 0 where
  pub risk : String
  pub paths : List String
  pub deleted_paths : List String
  pub dependency_paths : List String
  pub protected_paths : List String

abbrev pub dependency_patterns : List String
dependency_patterns =
    "pyproject.toml" ∷ "uv.lock" ∷ "poetry.lock" ∷ "Pipfile" ∷ "Pipfile.lock" ∷ "requirements*.txt"
    ∷ "setup.py" ∷ "setup.cfg" ∷ "package.json" ∷ "package-lock.json" ∷ "npm-shrinkwrap.json"
    ∷ "pnpm-lock.yaml" ∷ "yarn.lock" ∷ "bun.lock" ∷ "bun.lockb" ∷ "Cargo.toml" ∷ "Cargo.lock"
    ∷ "go.mod" ∷ "go.sum" ∷ "Gemfile" ∷ "Gemfile.lock" ∷ "composer.json" ∷ "composer.lock"
    ∷ "pom.xml" ∷ "build.gradle" ∷ "build.gradle.kts" ∷ "gradle.lockfile" ∷ "libs.versions.toml"
    ∷ "Package.swift" ∷ "Package.resolved" ∷ "Podfile" ∷ "Podfile.lock" ∷ "Cartfile"
    ∷ "Cartfile.resolved" ∷ "pubspec.yaml" ∷ "pubspec.lock" ∷ "mix.exs" ∷ "mix.lock" ∷ "*.csproj"
    ∷ "*.fsproj" ∷ "*.vbproj" ∷ "Directory.Packages.props" ∷ "packages.lock.json"
    ∷ "packages.config" ∷ "paket.dependencies" ∷ "paket.lock" ∷ "deps.edn" ∷ "project.clj"
    ∷ "build.sbt" ∷ "conanfile.py" ∷ "conanfile.txt" ∷ "conan.lock" ∷ "vcpkg.json" ∷ "MODULE.bazel"
    ∷ "WORKSPACE" ∷ "flake.nix" ∷ "flake.lock" ∷ ".terraform.lock.hcl" ∷ []

-- What follows the last slash.
unfoldable pub last_segment : List ℕ → List ℕ
last_segment [] = []
last_segment (c ∷ s) =
    let rest = last_segment s in
    if any (λ x. x == slash) s then rest else if c == slash then s else c ∷ s

-- The items from some place on satisfy `k`.
abbrev pub at_suffix : (List ℕ → Bool) → List ℕ → Bool
at_suffix k [] = k []
at_suffix k (c ∷ s) = k (c ∷ s) || at_suffix k s

-- `fnmatch.fnmatchcase`, of a pattern without `?` and `[`
unfoldable pub fnmatchcase : List ℕ → List ℕ → Bool
fnmatchcase [] [] = true
fnmatchcase [] (d ∷ s) = false
fnmatchcase (c ∷ p) s = elim (c == star) [
  | true ↦ at_suffix (fnmatchcase p) s
  | false ↦ same_first c (fnmatchcase p) s
]
  where
    same_first : ℕ → (List ℕ → Bool) → List ℕ → Bool
    same_first c k [] = false
    same_first c k (d ∷ s) = c == d && k s

unfoldable pub is_dependency_path : String → Bool
unfolding last_segment fnmatchcase
is_dependency_path path =
    let name = last_segment (normalized (codes path)) in
    any (λ pattern. fnmatchcase (codes pattern) name) dependency_patterns

-- The paths of an entry: the new one, and a rename's previous one.
abbrev pub candidates : ChangedPath → List String
candidates entry = elim entry.previous_path [
  | none ↦ entry.path ∷ []
  | some p ↦ entry.path ∷ p ∷ []
]

-- entry.status.upper()[:1]
abbrev pub has_code : ℕ → List ℕ → Bool
has_code letter [] = false
has_code letter (c ∷ _) = c == letter || c == letter + 32

abbrev pub deleted_of : ChangedPath → List String
deleted_of entry =
    if has_code b'D' (codes entry.status)
    then entry.path ∷ []
    else if has_code b'R' (codes entry.status)
    then (elim entry.previous_path [ none ↦ [] | some p ↦ p ∷ [] ])
    else []

unfoldable pub deleted_in : List ChangedPath → List String
deleted_in entries = flat_map deleted_of entries

unfoldable pub dependencies_in : List ChangedPath → List String
unfolding is_dependency_path
dependencies_in entries = filter is_dependency_path (flat_map candidates entries)

abbrev pub is_empty : List String → Bool
is_empty [] = true
is_empty (_ ∷ _) = false

unfoldable pub classify_dangerous_diff : List ChangedPath → Option DangerousDiff
unfolding deleted_in dependencies_in sorted_set
classify_dangerous_diff entries =
    let deleted = deleted_in entries in
    let dependencies = dependencies_in entries in
    if is_empty deleted && is_empty dependencies
    then none
    else some (record {
      risk =
          if not (is_empty deleted) && not (is_empty dependencies)
          then "other"
          else if not (is_empty deleted)
          then "deletion"
          else "dependency";
      paths = sorted_set (deleted ++ dependencies);
      deleted_paths = sorted_set deleted;
      dependency_paths = sorted_set dependencies;
      protected_paths = [];
    })

unfoldable pub protected_hits : List ChangedPath → List String → List String
unfolding path_matches_any sorted_set
protected_hits entries protected =
    if is_empty protected
    then []
    else sorted_set (filter (λ path. path_matches_any path protected) (flat_map candidates entries))

abbrev pub one_if_some : List String → ℕ
one_if_some [] = 0
one_if_some (_ ∷ _) = 1

unfoldable pub combined_risk : List String → List String → List String → String
combined_risk deleted dependencies protected =
    if ltb 1 (one_if_some deleted + (one_if_some dependencies + one_if_some protected))
    then "other"
    else if not (is_empty protected)
    then "protected"
    else if not (is_empty deleted)
    then "deletion"
    else "dependency"

abbrev pub deleted_paths_of : Option DangerousDiff → List String
deleted_paths_of none = []
deleted_paths_of (some d) = d.deleted_paths

abbrev pub dependency_paths_of : Option DangerousDiff → List String
dependency_paths_of none = []
dependency_paths_of (some d) = d.dependency_paths

-- From the hits and the base rule on.
unfoldable pub gate_from : List String → Option DangerousDiff → Option DangerousDiff
unfolding combined_risk sorted_set
gate_from protected base =
    let deleted = deleted_paths_of base in
    let dependencies = dependency_paths_of base in
    let gated = some (record {
      risk = combined_risk deleted dependencies protected;
      paths = sorted_set (deleted ++ (dependencies ++ protected));
      deleted_paths = deleted;
      dependency_paths = dependencies;
      protected_paths = protected;
    }) in
    elim base [ some _ ↦ gated | none ↦ if is_empty protected then none else gated ]

unfoldable pub evaluate_diff_gate : List ChangedPath → String → List String → Option DangerousDiff
unfolding protected_hits classify_dangerous_diff gate_from
evaluate_diff_gate entries trust_level protected_paths =
    gate_from (protected_hits entries protected_paths)
      (if str_eq trust_level "strict" then classify_dangerous_diff entries else none)
