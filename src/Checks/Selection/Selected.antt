-- ===== src/Checks/Selection/Selected.antt =====
-- checks/selection.py: the sets that are selected for a change that is known.
use wastech_orchestrator.Prelude.{
  any-In, ◌≡◌, ◌≢◌, ◌⊎◌, inl, inr, refl, sym, ap, subst, Bool, true, false, not, ◌&&◌, String,
  contains, some, List, [], ◌∷◌, In, any, arith, Bool-cases, eq_iff, str_eq,
}
use wastech_orchestrator.Checks.Glob.{path_matches_any}
use wastech_orchestrator.Checks.Glob.Paths.{MatchesAny, path_matches_any_iff}
use wastech_orchestrator.Checks.Selection.{
  ResolvedCheckSet, is_empty, runs, select_from, select_check_sets,
}

abbrev pub HasName : String → List ResolvedCheckSet → Type 0
HasName name sets = (cset : ResolvedCheckSet) × In cset sets × (cset.name ≡ name)

-- A set without globs, or one of whose globs a changed path matches.
abbrev pub Relevant : List String → ResolvedCheckSet → Type 0
Relevant changed cset =
    (cset.paths ≡ []) ⊎ ((path : String) × In path changed × MatchesAny path cset.paths)

-- No two sets have one name.
abbrev pub Distinct : List ResolvedCheckSet → Type 0
Distinct [] = Unit
Distinct (c ∷ cs) = ((d : ResolvedCheckSet) → In d cs → d.name ≢ c.name) × Distinct cs

In-any :
    (p : String → Bool) (xs : List String) (x : String) → In x xs → p x ≡ true → any p xs ≡ true
In-any p [] x h e = absurd h
In-any p (y ∷ ys) x (inl q) e = ground (arith, ap p q)
In-any p (y ∷ ys) x (inr i) e = ground (arith, In-any p ys x i e)

runs-Relevant :
    (changed : List String) (c : ResolvedCheckSet) → runs changed c ≡ true → Relevant changed c
unfolding runs
runs-Relevant changed c h = elim (Bool-cases (is_empty c.paths)) [
  | inl e ↦ inl (empty c.paths e)
  | inr e ↦
      let (path, i, m) =
        any-In (λ path. path_matches_any path c.paths) changed (ground (arith, h, e)) in
      inr (path, i, (path_matches_any_iff path c.paths).0 m)
]
  where
    empty : (xs : List String) → is_empty xs ≡ true → xs ≡ []
    empty [] e = refl
    empty (x ∷ xs) e = absurd (ground arith)

Relevant-runs :
    (changed : List String) (c : ResolvedCheckSet) → Relevant changed c → runs changed c ≡ true
unfolding runs
Relevant-runs changed c (inl e) = ground (arith, ap is_empty e)
Relevant-runs changed c (inr (path, i, m)) = ground (
  arith,
  In-any (λ (p : String). path_matches_any p c.paths) changed path i
      ((path_matches_any_iff path c.paths).1 m),
)

select_from-In :
    (changed seen : List String) (sets : List ResolvedCheckSet) (c : ResolvedCheckSet)
    → In c (select_from changed seen sets)
    → In c sets × (runs changed c ≡ true) × (contains seen c.name ≡ false)
unfolding select_from
select_from-In changed seen [] c h = absurd h
select_from-In changed seen (s ∷ sets) c h =
    elim (Bool-cases (runs changed s && not (contains seen s.name))) [
      | inl e ↦ elim (rw (select_from, e) at h) [
        | inl q ↦
            subst (λ x. In x (s ∷ sets) × (runs changed x ≡ true) × (contains seen x.name ≡ false))
              (sym q) (inl refl, ground (arith, e), ground (arith, e))
        | inr i ↦
            let (m, r, n) = select_from-In changed (s.name ∷ seen) sets c i in
            (inr m, r, ground (arith, n))
      ]
      | inr e ↦
          let (m, r, n) = select_from-In changed seen sets c (rw (select_from, e) at h) in
          (inr m, r, n)
    ]

select_from-HasName :
    (changed seen : List String) (sets : List ResolvedCheckSet) (c : ResolvedCheckSet)
    → In c sets
    → runs changed c ≡ true
    → contains seen c.name ≡ false
    → HasName c.name (select_from changed seen sets)
unfolding select_from
select_from-HasName changed seen [] c m r n = absurd m
select_from-HasName changed seen (s ∷ sets) c m r n =
    elim (Bool-cases (runs changed s && not (contains seen s.name))) [
      | inl e ↦ elim (Bool-cases (str_eq s.name c.name)) [
        | inl same ↦ rw (select_from, e) (s, inl refl, (eq_iff s.name c.name).0 same)
        | inr differ ↦ elim m [
          | inl q ↦ absurd (ground (arith, ap (λ x. x.name) q, eq_iff s.name c.name))
          | inr i ↦
              let (d, j, q) =
                select_from-HasName changed (s.name ∷ seen) sets c i r
                  (ground (arith, differ, n)) in
              rw (select_from, e) (d, inr j, q)
        ]
      ]
      | inr e ↦ elim m [
        | inl q ↦
            absurd (ground (arith, e, r, n, ap (runs changed) q, ap (λ x. contains seen x.name) q))
        | inr i ↦ rw (select_from, e) (select_from-HasName changed seen sets c i r n)
      ]
    ]

select_from-Distinct :
    (changed seen : List String) (sets : List ResolvedCheckSet)
    → Distinct (select_from changed seen sets)
unfolding select_from
select_from-Distinct changed seen [] = tt
select_from-Distinct changed seen (s ∷ sets) =
    elim (Bool-cases (runs changed s && not (contains seen s.name))) [
      | inl e ↦
          rw (select_from, e)
            (
              λ d i q. ground (
                arith,
                (select_from-In changed (s.name ∷ seen) sets d i).2,
                (eq_iff s.name d.name).1 (sym q),
              ),
              select_from-Distinct changed (s.name ∷ seen) sets,
            )
      | inr e ↦ rw (select_from, e) (select_from-Distinct changed seen sets)
    ]

-- What a selection for the changed paths has to be.
pub record IsSelection (changed : List String) (sets chosen : List ResolvedCheckSet) : Type 0 where
  pub sound : (c : ResolvedCheckSet) → In c chosen → In c sets × Relevant changed c
  pub complete : (c : ResolvedCheckSet) → In c sets → Relevant changed c → HasName c.name chosen
  pub distinct : Distinct chosen

-- For a known change that is not empty, the selected sets are sets of the list that have no globs or a
-- glob that a changed path matches; the name of each such set is among them, and no name twice.
pub select_check_sets-IsSelection :
    (sets : List ResolvedCheckSet) (path : String) (paths : List String)
    → IsSelection (path ∷ paths) sets (select_check_sets sets (some (path ∷ paths)))
unfolding select_check_sets
select_check_sets-IsSelection sets path paths = record {
  sound = λ c i.
      let (m, r, _) = select_from-In (path ∷ paths) [] sets c i in
      (m, runs-Relevant (path ∷ paths) c r);
  complete = λ c i r.
      select_from-HasName (path ∷ paths) [] sets c i (Relevant-runs (path ∷ paths) c r) refl;
  distinct = select_from-Distinct (path ∷ paths) [] sets;
}
