-- ===== src/Flow/Validator/Graph.antt =====
-- core/flow/validator.py, `_check_graph`: what a flow without violations is like.
use mathlib.Core.List.{append-nil, append_assoc}
use wastech_orchestrator.Prelude.{
  ◌≡◌, refl, sym, ap, ◌∙◌, subst, inl, inr, Bool, true, false, not, String, str_eq, eq_iff,
  contains, contains-In, In-contains, List, [], ◌∷◌, ◌++◌, map, filter, In, In-filter, filter-In,
  In-map, map-In, append_nil_left, append_nil_right, arith, Bool-cases, Option-cases,
}
use wastech_orchestrator.Prelude.Dict
use wastech_orchestrator.Prelude.Dict.{Dict, get-put}
use wastech_orchestrator.Flow.Schema.{Edge}
use wastech_orchestrator.Flow.Snapshot.{FlowSnapshot}
use wastech_orchestrator.Flow.Reach.{search_from, enough}
use wastech_orchestrator.Flow.Reach.Correct.{Reaches, search_from_iff}
use wastech_orchestrator.Flow.Violations.{Violation, found_if, collect}
use wastech_orchestrator.Flow.Validator.{group, from_of, outside, if_any, check_reached, terminals}

pub collect-nil :
    {A : Type 0} (f : A → List Violation) (xs : List A) (x : A)
    → collect f xs ≡ []
    → In x xs
    → f x ≡ []
collect-nil f [] x h i = absurd i
collect-nil f (y ∷ ys) x h (inl e) =
    subst (λ z. f z ≡ []) (sym e) (append_nil_left (f y) (collect f ys) h)
collect-nil f (y ∷ ys) x h (inr i) = collect-nil f ys x (append_nil_right (f y) (collect f ys) h) i

pub found_if-nil : (b : Bool) (v : Violation) → found_if b v ≡ [] → b ≡ false
found_if-nil true v h = absurd (ground arith)
found_if-nil false v h = refl

module _ (key value : Edge → String) where
  get_or-group :
      (d : Dict (List String)) (edges : List Edge) (x : String)
      → Dict.get_or (group key value d edges) x []
        ≡ Dict.get_or d x [] ++ map value (filter (λ e. str_eq (key e) x) edges)
  unfolding group
  get_or-group d [] x = sym (append-nil (Dict.get_or d x []))
  get_or-group d (edge ∷ edges) x =
      let old = Dict.get_or d (key edge) [] in
      let d' = Dict.put d (key edge) (old ++ value edge ∷ []) in
      elim (Bool-cases (str_eq (key edge) x)) [
        | inl e ↦
            let same : key edge ≡ x = (eq_iff (key edge) x).0 e in
            let here : Dict.get_or d' x [] ≡ Dict.get_or d x [] ++ value edge ∷ [] =
              ground (arith, get-put d (key edge) x (old ++ value edge ∷ [])) in
            get_or-group d' edges x
            ∙ ap (λ (l : List String). l ++ map value (filter (λ e. str_eq (key e) x) edges)) here
            ∙ append_assoc (Dict.get_or d x []) (value edge ∷ [])
                (map value (filter (λ e. str_eq (key e) x) edges))
            ∙ rw e
        | inr e ↦
            let here : Dict.get_or d' x [] ≡ Dict.get_or d x [] =
              ground (arith, get-put d (key edge) x (old ++ value edge ∷ [])) in
            get_or-group d' edges x
            ∙ ap (λ (l : List String). l ++ map value (filter (λ e. str_eq (key e) x) edges)) here
            ∙ rw e
      ]

  -- What a grouping lists under `x` comes from an edge with that key.
  pub In-group :
      (edges : List Edge) (x y : String)
      → In y (Dict.get_or (group key value [] edges) x [])
      → (e : Edge) × In e edges × (key e ≡ x) × (value e ≡ y)
  unfolding Dict.get
  In-group edges x y h =
      let (e, i, q) =
        In-map value y (filter (λ e. str_eq (key e) x) edges)
          (subst (In y) (get_or-group [] edges x) h) in
      let (j, k) = In-filter (λ e. str_eq (key e) x) edges e i in (e, j, (eq_iff (key e) x).0 k, q)

module _ {V : Type 0} where
  pub keys-In : (d : Dict V) (k : String) → Dict.has d k ≡ true → In k (Dict.keys d)
  unfolding Dict.get Dict.keys
  keys-In [] k h = absurd (ground arith)
  keys-In ((j, v) ∷ d) k h = elim (Bool-cases (str_eq j k)) [
    | inl e ↦ inl (sym ((eq_iff j k).0 e))
    | inr e ↦ inr (keys-In d k (rw (Dict.get, e) at h))
  ]

  pub In-keys : (d : Dict V) (k : String) → In k (Dict.keys d) → Dict.has d k ≡ true
  unfolding Dict.get Dict.keys
  In-keys [] k i = absurd i
  In-keys ((j, v) ∷ d) k (inl q) = ground (arith, eq_iff j k, q)
  In-keys ((j, v) ∷ d) k (inr i) = ground (arith, In-keys d k i)

-- The items of the first list that the second lacks are none, so it has them all.
outside-nil :
    (snap : FlowSnapshot) (seen : List String) (k : String)
    → outside snap seen ≡ []
    → Dict.has snap.nodes_by_id k ≡ true
    → In k seen
outside-nil snap seen k h known = elim (Bool-cases (contains seen k)) [
  | inl e ↦ contains-In seen k e
  | inr e ↦ absurd (
      subst (In k) h (
        filter-In (λ id. not (contains seen id)) (Dict.keys snap.nodes_by_id) k
          (keys-In snap.nodes_by_id k known) (ground arith)))
]

if_any-nil : (ids : List String) (v : Violation) → if_any ids v ≡ [] → ids ≡ []
if_any-nil [] v h = refl
if_any-nil (id ∷ ids) v h = absurd (ground arith)

-- A search that reports nothing has reached every known node.
pub check_reached-nil :
    (snap : FlowSnapshot) (next : String → List String) (starts : List String)
    (missing : List String → Violation)
    → check_reached snap next starts missing ≡ []
    → (k : String) → Dict.has snap.nodes_by_id k ≡ true
    → Reaches next starts k
unfolding check_reached
check_reached-nil snap next starts missing h k known =
    let fuel = enough snap.doc.edges starts in
    elim (Option-cases (search_from next fuel [] starts)) [
      | inl e ↦ absurd (ground arith)
      | inr (seen, e) ↦
          let quiet : if_any (outside snap seen) (missing (outside snap seen)) ≡ [] =
            rw (check_reached, e) at h in
          (search_from_iff next starts fuel seen e k).0 (
            outside-nil snap seen k
              (if_any-nil (outside snap seen) (missing (outside snap seen)) quiet) known)
    ]

pub In-terminals :
    (snap : FlowSnapshot) (t : String)
    → In t (terminals snap)
    → (Dict.has snap.nodes_by_id t ≡ true)
      × ((e : Edge) → In e snap.doc.edges → ¬ (e.from_node ≡ t))
unfolding terminals
In-terminals snap t i =
    let (j, e) =
      In-filter (λ id. not (contains (map from_of snap.doc.edges) id)) (Dict.keys snap.nodes_by_id)
        t i in
    (
      In-keys snap.nodes_by_id t j,
      λ edge k same.
          let found : contains (map from_of snap.doc.edges) t ≡ true =
            In-contains (map from_of snap.doc.edges) t (
              subst (λ x. In x (map from_of snap.doc.edges)) same
                (map-In from_of edge snap.doc.edges k)) in
          ground arith,
    )
