-- ===== src/Flow/Routing/Select.antt =====
-- What `select_edge` chooses.
use wastech_orchestrator.Prelude.{
  ◌≡◌, ◌⊎◌, inl, inr, Bool, true, String, none, some, List, [], ◌∷◌, In, find, find-In, filter,
  Bool-cases, Option-cases, str_eq, eq_iff, arith,
}
use wastech_orchestrator.Flow.Schema.{Edge}
use wastech_orchestrator.Flow.Routing.{
  chosen, outcome_is, is_unconditional, only, unconditional_for, select_edge,
}

-- The edge that an outcome takes: a declared one with that outcome, or for `done` one that has none.
abbrev pub Takes : List Edge → String → Edge → Type 0
Takes edges kind edge =
    In edge edges × ((edge.outcome ≡ some kind) ⊎ (kind ≡ "done") × (edge.outcome ≡ none))

outcome_is-eq :
    (kind : String) (edge : Edge) → outcome_is kind edge ≡ true → edge.outcome ≡ some kind
outcome_is-eq kind edge h = elim (Option-cases edge.outcome) [
  | inl e ↦ ground arith
  | inr (o, e) ↦ ground (arith, eq_iff o kind)
]

In-filter :
    (p : Edge → Bool) (xs : List Edge) (x : Edge) → In x (filter p xs) → In x xs × (p x ≡ true)
In-filter p [] x h = absurd h
In-filter p (y ∷ ys) x h = ground (arith, In-filter p ys x)

only-In : (xs : List Edge) (x : Edge) → only xs ≡ some x → In x xs
only-In (y ∷ []) x h = ground arith
only-In [] x h = ground arith
only-In (y ∷ z ∷ ys) x h = ground arith

unconditional-Takes :
    (kind : String) (edges : List Edge) (edge : Edge)
    → unconditional_for kind edges ≡ some edge
    → Takes edges kind edge
unconditional-Takes kind edges edge h = elim (Bool-cases (str_eq kind "done")) [
  | inl e ↦
      let (m, u) =
        In-filter is_unconditional edges edge
          (only-In (filter is_unconditional edges) edge (rw e at h)) in
      (m, inr ((eq_iff kind "done").0 e, none_of edge u))
  | inr e ↦ absurd (ground arith)
]
  where
    none_of : (x : Edge) → is_unconditional x ≡ true → x.outcome ≡ none
    none_of x u = ground arith

find-Takes :
    (kind : String) (edges : List Edge) (edge : Edge)
    → find (outcome_is kind) edges ≡ some edge
    → Takes edges kind edge
find-Takes kind edges edge h =
    let (m, o) = find-In (outcome_is kind) edges edge h in (m, inl (outcome_is-eq kind edge o))

-- The edge that an outcome takes is a declared one with that outcome, or for `done` one without
-- any.
pub select_edge-Takes :
    (node : String) (edges : List Edge) (kind : String) (edge : Edge)
    → select_edge node edges kind ≡ chosen edge
    → Takes edges kind edge
unfolding select_edge
select_edge-Takes node edges kind edge h = elim (Option-cases (find (outcome_is kind) edges)) [
  | inr (e, p) ↦ find-Takes kind edges edge (ground arith)
  | inl p ↦ unconditional-Takes kind edges edge (ground arith)
]
