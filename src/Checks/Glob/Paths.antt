-- ===== src/Checks/Glob/Paths.antt =====
-- globmatch.py, `path_matches_any`: a path and a list of globs.
use wastech_orchestrator.Prelude.{
  ℕ, ◌≡◌, ◌↔◌, inl, inr, refl, sym, subst, Bool, true, String, List, [], ◌∷◌, any, In, arith,
  Bool-cases,
}
use wastech_orchestrator.Prelude.Chars.{codes}
use wastech_orchestrator.Checks.Glob.{normalized, compile_glob, fullmatch, path_matches_any}
use wastech_orchestrator.Checks.Glob.Meaning.{fullmatch_iff}
use wastech_orchestrator.Checks.Glob.Globs.{
  Globs, Turned, Turned-normalized, normalized-Turned, pieces_iff,
}

-- The glob stands for the path; in both, a backslash is a slash.
abbrev StandsFor : String → String → Type 0
StandsFor pattern path =
    (p : List ℕ) × (s : List ℕ) × Turned (codes pattern) p × Turned (codes path) s × Globs p s

-- Some glob of the list stands for the path.
abbrev pub MatchesAny : String → List String → Type 0
MatchesAny path patterns = (pattern : String) × In pattern patterns × StandsFor pattern path

compile_glob_iff :
    (pattern : String) (s : List ℕ)
    → (fullmatch (compile_glob pattern) s ≡ true) ↔ Globs (normalized (codes pattern)) s
unfolding compile_glob
compile_glob_iff pattern s =
    let (matched, found) = fullmatch_iff (compile_glob pattern) s in
    let (read, cut) = pieces_iff (normalized (codes pattern)) s in
    ((λ h. read (matched h)), λ g. found (cut g))

-- A path matches a list of globs exactly where one of them stands for it, a backslash being a slash in
-- both. In a glob, `**/` stands for any number of directories, `**` elsewhere for any text, `*` for any
-- text without a slash, `?` for one character but a slash, and any other character for itself. What `**/`
-- and `**` stand for has no newline.
pub path_matches_any_iff :
    (path : String) (patterns : List String)
    → (path_matches_any path patterns ≡ true) ↔ MatchesAny path patterns
unfolding path_matches_any
path_matches_any_iff path patterns = (to patterns, λ m. from patterns m)
  where
    target : List ℕ
    target = normalized (codes path)

    test : String → Bool
    test pattern = fullmatch (compile_glob pattern) target

    to : (ps : List String) → any test ps ≡ true → MatchesAny path ps
    to [] h = absurd (ground arith)
    to (p ∷ ps) h = elim (Bool-cases (test p)) [
      | inl e ↦ (
        p,
        inl refl,
        (
          normalized (codes p),
          target,
          normalized-Turned (codes p),
          normalized-Turned (codes path),
          (compile_glob_iff p target).0 e,
        ),
      )
      | inr e ↦ let (q, i, m) = to ps (ground arith) in (q, inr i, m)
    ]

    found :
        (q : String) (x s : List ℕ)
        → Turned (codes q) x
        → Turned (codes path) s
        → Globs x s
        → test q ≡ true
    found q x s a b g = (compile_glob_iff q target).1 (
        subst (λ y. Globs y target) (sym (Turned-normalized a))
          (subst (Globs x) (sym (Turned-normalized b)) g))

    from : (ps : List String) → MatchesAny path ps → any test ps ≡ true
    from [] (q, i, m) = absurd i
    from (p ∷ ps) (q, inl e, (x, s, a, b, g)) =
        let here : test p ≡ true = subst (λ r. test r ≡ true) e (found q x s a b g) in
        ground (arith, here)
    from (p ∷ ps) (q, inr i, m) = ground (arith, from ps (q, i, m))
