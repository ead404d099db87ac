-- ===== src/Checks/DangerousDiff/Gated.antt =====
-- core/dangerous_diff.py: exactly which paths have to be approved.
use wastech_orchestrator.Prelude.{
  ◌≡◌, refl, sym, subst, inl, inr, ◌↔◌, true, false, String, str_eq, Option, none, some, List, [],
  ◌∷◌, ◌++◌, In, In-append_left, In-append_right, In-append_cases, arith, Bool-cases, Option-cases,
  if◌then◌else◌,
}
use wastech_orchestrator.Prelude.Sorted.{sorted_set, sorted_set_iff}
use wastech_orchestrator.Checks.DangerousDiff.{
  ChangedPath, DangerousDiff, is_dependency_path, is_empty, classify_dangerous_diff, protected_hits,
  combined_risk, deleted_paths_of, dependency_paths_of, gate_from, evaluate_diff_gate,
}
use wastech_orchestrator.Checks.DangerousDiff.Members.{
  Touched, Removed, Gated, deleted_in-Removed, dependencies_iff, protected_hits_iff, empty_lem,
  nonempty_lem, classify-members, classify-some,
}

abbrev report_of : List String → Option DangerousDiff → DangerousDiff
report_of hits found = record {
  risk = combined_risk (deleted_paths_of found) (dependency_paths_of found) hits;
  paths = sorted_set (deleted_paths_of found ++ (dependency_paths_of found ++ hits));
  deleted_paths = deleted_paths_of found;
  dependency_paths = dependency_paths_of found;
  protected_paths = hits;
}

asks_if_some :
    (hits : List String) (d : DangerousDiff)
    → gate_from hits (some d) ≡ some (report_of hits (some d))
unfolding gate_from
asks_if_some hits d = refl

asks_if_hit :
    (hits : List String) → is_empty hits ≡ false → gate_from hits none ≡ some (report_of hits none)
unfolding gate_from
asks_if_hit [] h = absurd (ground (arith, h))
asks_if_hit (x ∷ hits) h = refl

module _ (entries : List ChangedPath) (trust : String) (protected : List String) where
  base : Option DangerousDiff
  base = if str_eq trust "strict" then classify_dangerous_diff entries else none

  hits : List String
  hits = protected_hits entries protected

  gated : List String
  gated = deleted_paths_of base ++ (dependency_paths_of base ++ hits)

  base_iff :
      (x : String)
      → (In x (deleted_paths_of base) ↔ ((str_eq trust "strict" ≡ true) × Removed entries x))
        × (In x (dependency_paths_of base)
            ↔ ((str_eq trust "strict" ≡ true) × Touched entries x × (is_dependency_path x ≡ true)))
  unfolding base
  base_iff x = elim (Bool-cases (str_eq trust "strict")) [
    | inr e ↦
        let not_strict : ¬ (str_eq trust "strict" ≡ true) = λ t. absurd (ground (arith, e, t)) in
        let same : base ≡ none = rw e refl in
        (
          (
            (λ i. absurd (subst (λ o. In x (deleted_paths_of o)) same i)),
            λ (t, _). absurd (not_strict t),
          ),
          (
            (λ i. absurd (subst (λ o. In x (dependency_paths_of o)) same i)),
            λ (t, _, _). absurd (not_strict t),
          ),
        )
    | inl e ↦
        let same : base ≡ classify_dangerous_diff entries = rw e refl in
        let ((to, from), (to', from')) = classify-members entries x in
        (
          (
            (λ i. (
              e,
              (deleted_in-Removed entries x).0 (to (subst (λ o. In x (deleted_paths_of o)) same i)),
            )),
            λ (_, r).
                subst (λ o. In x (deleted_paths_of o)) (sym same)
                  (from ((deleted_in-Removed entries x).1 r)),
          ),
          (
            (λ i.
                let (t, d) =
                  (dependencies_iff entries x).0
                    (to' (subst (λ o. In x (dependency_paths_of o)) same i)) in
                (e, t, d)),
            λ (_, t, d).
                subst (λ o. In x (dependency_paths_of o)) (sym same)
                  (from' ((dependencies_iff entries x).1 (t, d))),
          ),
        )
  ]

  gated_iff : (x : String) → In x gated ↔ Gated entries trust protected x
  unfolding gated hits
  gated_iff x =
      let deleted = deleted_paths_of base in
      let dependencies = dependency_paths_of base in
      let ((to, from), (to', from')) = base_iff x in
      let (to_hit, from_hit) = protected_hits_iff entries protected x in
      (
        (λ i. elim (In-append_cases x deleted (dependencies ++ hits) i) [
          | inl j ↦ let (t, r) = to j in inr (t, inl r)
          | inr j ↦ elim (In-append_cases x dependencies hits j) [
            | inl k ↦ let (t, r, d) = to' k in inr (t, inr (r, d))
            | inr k ↦ inl (to_hit k)
          ]
        ]),
        λ g. elim g [
          | inl h ↦
              In-append_right x deleted (dependencies ++ hits)
                (In-append_right x dependencies hits (from_hit h))
          | inr (t, inl r) ↦ In-append_left x deleted (dependencies ++ hits) (from (t, r))
          | inr (t, inr (r, d)) ↦
              In-append_right x deleted (dependencies ++ hits)
                (In-append_left x dependencies hits (from' (t, r, d)))
        ],
      )

  -- What the gate decides.
  pub data Decided : Option DangerousDiff → Type 0 where
    free : ((x : String) → ¬ (Gated entries trust protected x)) → Decided none
    asks :
        (d : DangerousDiff)
        → ((x : String) × In x d.paths)
        → ((x : String) → In x d.paths ↔ Gated entries trust protected x)
        → Decided (some d)

  base-member : (d : DangerousDiff) → base ≡ some d → (x : String) × In x gated
  unfolding base gated
  base-member d h = elim (Bool-cases (str_eq trust "strict")) [
    | inr e ↦ absurd (no_some (rw e at h))
    | inl e ↦
        let (x, i) = classify-some entries d (rw e at h) in
        let deleted = deleted_paths_of base in
        let dependencies = dependency_paths_of base in
        (
          x,
          elim i [
            | inl j ↦
                In-append_left x deleted (dependencies ++ hits)
                  (subst (λ o. In x (deleted_paths_of o)) (sym h) j)
            | inr j ↦ In-append_right x deleted (dependencies ++ hits) (
                In-append_left x dependencies hits
                  (subst (λ o. In x (dependency_paths_of o)) (sym h) j))
          ],
        )
  ]
    where
      no_some : none ≡ some d → ⊥
      no_some q = ground arith

  report : DangerousDiff
  report = report_of hits base

  asks_report : (x : String) → In x gated → Decided (some report)
  unfolding report gated
  asks_report x i =
      asks report (x, (sorted_set_iff gated x).1 i)
        (λ y.
          let (to, from) = sorted_set_iff gated y in
          let (to', from') = gated_iff y in ((λ j. to' (to j)), λ g. from (from' g)))

  nothing_gated : base ≡ none → is_empty hits ≡ true → Decided none
  unfolding gated
  nothing_gated e h = free (λ x g.
      let i : In x (deleted_paths_of none ++ (dependency_paths_of none ++ hits)) =
        subst (λ o. In x (deleted_paths_of o ++ (dependency_paths_of o ++ hits))) e
          ((gated_iff x).1 g) in
      empty_lem hits x h i)

  hit-member : (x : String) → In x hits → In x gated
  unfolding gated
  hit-member x i =
      In-append_right x (deleted_paths_of base) (dependency_paths_of base ++ hits)
        (In-append_right x (dependency_paths_of base) hits i)

  gate_from-some : (d : DangerousDiff) → base ≡ some d → gate_from hits base ≡ some report
  unfolding report
  gate_from-some d e =
      subst (λ b. gate_from hits b ≡ some (report_of hits b)) (sym e) (asks_if_some hits d)

  gate_from-hits : base ≡ none → is_empty hits ≡ false → gate_from hits base ≡ some report
  unfolding report
  gate_from-hits e h =
      subst (λ b. gate_from hits b ≡ some (report_of hits b)) (sym e) (asks_if_hit hits h)

  gate_from-none : base ≡ none → is_empty hits ≡ true → gate_from hits base ≡ none
  unfolding gate_from
  gate_from-none e h = rw (gate_from, e, h) refl

  -- The gate lets a diff pass exactly where no path of it has to be approved; otherwise it asks for at least
  -- one path, and for exactly the paths that have to be approved. Those are the new or old path of an entry
  -- that a protected glob matches, and under `strict` also each path that is deleted or renamed away and
  -- each new or old path that is a dependency manifest.
  pub evaluate_diff_gate-Decided : Decided (evaluate_diff_gate entries trust protected)
  unfolding evaluate_diff_gate base hits
  evaluate_diff_gate-Decided = elim (Option-cases base) [
    | inr (d, e) ↦
        let (x, i) = base-member d e in subst Decided (sym (gate_from-some d e)) (asks_report x i)
    | inl e ↦ elim (Bool-cases (is_empty hits)) [
      | inl h ↦ subst Decided (sym (gate_from-none e h)) (nothing_gated e h)
      | inr h ↦
          let (x, i) = nonempty_lem hits h in
          subst Decided (sym (gate_from-hits e h)) (asks_report x (hit-member x i))
    ]
  ]
