-- ===== src/Checks/DangerousDiff/Members.antt =====
-- core/dangerous_diff.py: the members of the lists that the gate is made of.
use wastech_orchestrator.Prelude.{
  ◌≡◌, refl, subst, ◌⊎◌, inl, inr, ◌↔◌, true, false, ◌&&◌, String, str_eq, none, some, List, [],
  ◌∷◌, filter, flat_map, In, In-filter, filter-In, In-flat_map, flat_map-In, arith, Bool-cases,
  Option-cases,
}
use wastech_orchestrator.Prelude.Chars.{codes}
use wastech_orchestrator.Prelude.Sorted.{sorted_set_iff}
use wastech_orchestrator.Checks.Glob.{path_matches_any}
use wastech_orchestrator.Checks.Glob.Paths.{MatchesAny, path_matches_any_iff}
use wastech_orchestrator.Checks.DangerousDiff.{
  ChangedPath, DangerousDiff, is_dependency_path, candidates, has_code, deleted_of, deleted_in,
  dependencies_in, is_empty, classify_dangerous_diff, protected_hits, deleted_paths_of,
  dependency_paths_of,
}

-- An entry's path, or the path that it was renamed from.
abbrev pub Touches : ChangedPath → String → Type 0
Touches e x = (x ≡ e.path) ⊎ (e.previous_path ≡ some x)

abbrev pub Touched : List ChangedPath → String → Type 0
Touched entries x = (e : ChangedPath) × In e entries × Touches e x

-- A path that a deletion or a rename removes.
abbrev pub Removes : ChangedPath → String → Type 0
Removes e x =
    ((has_code b'D' (codes e.status) ≡ true) × (x ≡ e.path))
    ⊎ ((has_code b'R' (codes e.status) ≡ true) × (e.previous_path ≡ some x))

abbrev pub Removed : List ChangedPath → String → Type 0
Removed entries x = (e : ChangedPath) × In e entries × Removes e x

-- What has to be approved: what matches a protected glob, and under `strict` also what is removed and
-- what is a dependency manifest.
abbrev pub Gated : List ChangedPath → String → List String → String → Type 0
Gated entries trust protected x =
    (Touched entries x × MatchesAny x protected)
    ⊎ ((str_eq trust "strict" ≡ true)
        × (Removed entries x ⊎ (Touched entries x × (is_dependency_path x ≡ true))))

pub candidates_iff : (e : ChangedPath) (x : String) → In x (candidates e) ↔ Touches e x
candidates_iff e x = elim (Option-cases e.previous_path) [
  | inl p ↦ ground (arith, p)
  | inr (y, p) ↦ ground (arith, p)
]

pub candidates-Touched :
    (entries : List ChangedPath) (x : String)
    → In x (flat_map candidates entries) ↔ Touched entries x
candidates-Touched entries x = (
  (λ i. let (e, j, k) = In-flat_map candidates x entries i in (e, j, (candidates_iff e x).0 k)),
  λ (e, j, k). flat_map-In candidates e x entries j ((candidates_iff e x).1 k),
)

pub not_both : (s : List _) → has_code b'R' s ≡ true → has_code b'D' s ≡ false
not_both [] h = refl
not_both (c ∷ s) h = ground (arith, h)

pub deleted_of_iff : (e : ChangedPath) (x : String) → In x (deleted_of e) ↔ Removes e x
deleted_of_iff e x = elim (Option-cases e.previous_path) [
  | inl p ↦ ground (arith, p, not_both (codes e.status))
  | inr (y, p) ↦ ground (arith, p, not_both (codes e.status))
]

pub deleted_in-Removed :
    (entries : List ChangedPath) (x : String) → In x (deleted_in entries) ↔ Removed entries x
unfolding deleted_in
deleted_in-Removed entries x = (
  (λ i. let (e, j, k) = In-flat_map deleted_of x entries i in (e, j, (deleted_of_iff e x).0 k)),
  λ (e, j, k). flat_map-In deleted_of e x entries j ((deleted_of_iff e x).1 k),
)

pub dependencies_iff :
    (entries : List ChangedPath) (x : String)
    → In x (dependencies_in entries) ↔ (Touched entries x × (is_dependency_path x ≡ true))
unfolding dependencies_in
dependencies_iff entries x = (
  (λ i.
      let (j, t) = In-filter is_dependency_path (flat_map candidates entries) x i in
      ((candidates-Touched entries x).0 j, t)),
  λ (j, t).
      filter-In is_dependency_path (flat_map candidates entries) x
        ((candidates-Touched entries x).1 j) t,
)

pub protected_hits_iff :
    (entries : List ChangedPath) (protected : List String) (x : String)
    → In x (protected_hits entries protected) ↔ (Touched entries x × MatchesAny x protected)
unfolding protected_hits
protected_hits_iff entries [] x = ((λ i. absurd i), λ (t, m). let (_, i, _) = m in absurd i)
protected_hits_iff entries (p ∷ ps) x =
    let hits = filter (λ path. path_matches_any path (p ∷ ps)) (flat_map candidates entries) in
    let (to, from) = sorted_set_iff hits x in
    (
      (λ i.
          let (j, t) =
            In-filter (λ path. path_matches_any path (p ∷ ps)) (flat_map candidates entries) x
              (to i) in
          ((candidates-Touched entries x).0 j, (path_matches_any_iff x (p ∷ ps)).0 t)),
      λ (j, m). from (
          filter-In (λ path. path_matches_any path (p ∷ ps)) (flat_map candidates entries) x
            ((candidates-Touched entries x).1 j) ((path_matches_any_iff x (p ∷ ps)).1 m)),
    )

pub empty_lem : (xs : List String) (x : String) → is_empty xs ≡ true → ¬ (In x xs)
empty_lem [] x h i = absurd i
empty_lem (y ∷ ys) x h i = absurd (ground (arith, h))

pub nonempty_lem : (xs : List String) → is_empty xs ≡ false → (x : String) × In x xs
nonempty_lem [] h = absurd (ground (arith, h))
nonempty_lem (y ∷ ys) h = (y, inl refl)

-- What the base rule finds, or nothing.
pub classify-members :
    (entries : List ChangedPath) (x : String)
    → (In x (deleted_paths_of (classify_dangerous_diff entries)) ↔ In x (deleted_in entries))
      × (In x (dependency_paths_of (classify_dangerous_diff entries))
          ↔ In x (dependencies_in entries))
unfolding classify_dangerous_diff
classify-members entries x =
    elim (Bool-cases (is_empty (deleted_in entries) && is_empty (dependencies_in entries))) [
      | inl e ↦
          let a : ¬ (In x (deleted_in entries)) =
            empty_lem (deleted_in entries) x (ground (arith, e)) in
          let b : ¬ (In x (dependencies_in entries)) =
            empty_lem (dependencies_in entries) x (ground (arith, e)) in
          rw (classify_dangerous_diff, e)
            (((λ i. absurd i), λ i. absurd (a i)), ((λ i. absurd i), λ i. absurd (b i)))
      | inr e ↦
          rw (classify_dangerous_diff, e)
            (sorted_set_iff (deleted_in entries) x, sorted_set_iff (dependencies_in entries) x)
    ]

-- The base rule does not report an empty diff.
pub classify-some :
    (entries : List ChangedPath) (d : DangerousDiff)
    → classify_dangerous_diff entries ≡ some d
    → (x : String) × (In x d.deleted_paths ⊎ In x d.dependency_paths)
unfolding classify_dangerous_diff
classify-some entries d h =
    let deleted = deleted_in entries in
    let dependencies = dependencies_in entries in
    elim (Bool-cases (is_empty deleted)) [
      | inr a ↦
          let (x, i) = nonempty_lem deleted a in
          (x, inl (subst (λ o. In x (deleted_paths_of o)) h ((classify-members entries x).0.1 i)))
      | inl a ↦ elim (Bool-cases (is_empty dependencies)) [
        | inr b ↦
            let (x, i) = nonempty_lem dependencies b in
            (
              x,
              inr (
                  subst (λ o. In x (dependency_paths_of o)) h ((classify-members entries x).1.1 i)),
            )
        | inl b ↦ absurd (no_some (rw (classify_dangerous_diff, a, b) at h))
      ]
    ]
  where
    no_some : none ≡ some d → ⊥
    no_some q = ground arith
