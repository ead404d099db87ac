-- ===== src/Flow/Reach/Enough.antt =====
-- core/flow/snapshot.py, `reachable_nodes`: a search ends, since each edge is pushed once.
use wastech_orchestrator.Prelude.{
  ℕ, zero, suc, ◌+◌, ◌≤◌, ◌<◌, ◌≡◌, refl, sym, ap, subst, ◌∙◌, ◌↔◌, Bool, true, false, not, String,
  contains, str_eq, eq_iff, some, List, [], ◌∷◌, ◌++◌, map, reverse, filter, length, length-append,
  length-reverse, In, arith, Bool-cases, inl, inr,
}
use wastech_orchestrator.Flow.Schema.{Edge, FlowDoc}
use wastech_orchestrator.Flow.Snapshot.{FlowSnapshot, outgoing, load_flow, loaded}
use wastech_orchestrator.Flow.Snapshot.Build.{leaves_from, load_flow-indexes, doc-load_flow}
use wastech_orchestrator.Flow.Reach.{search_from, enough, reachable_nodes}
use wastech_orchestrator.Flow.Reach.Correct.{Reaches, search_from_iff}

module _ (key : Edge → String) where
  -- The edges that are pushed for `x`, and those that may still be pushed.
  abbrev pub pushes : String → List Edge → ℕ
  pushes x edges = length (filter (λ e. str_eq (key e) x) edges)

  abbrev waiting : List String → List Edge → ℕ
  waiting seen edges = length (filter (λ e. not (contains seen (key e))) edges)

  waiting-cons :
      (x : String) (seen : List String) (edges : List Edge)
      → contains seen x ≡ false
      → waiting (x ∷ seen) edges + pushes x edges ≡ waiting seen edges
  waiting-cons x seen [] h = omega arith
  waiting-cons x seen (e ∷ edges) h = elim (Bool-cases (str_eq (key e) x)) [
    | inl q ↦
        let same : key e ≡ x = (eq_iff (key e) x).0 q in
        let fresh : contains seen (key e) ≡ false =
          subst (λ k. contains seen k ≡ false) (sym same) h in
        let here : str_eq x (key e) ≡ true = (eq_iff x (key e)).1 (sym same) in
        ground (arith, waiting-cons x seen edges h, q, fresh, here)
    | inr q ↦ ground (arith, waiting-cons x seen edges h, (eq_iff (key e) x), (eq_iff x (key e)))
  ]

  pub search_from-some :
      (next : String → List String) (edges : List Edge)
      → ((x : String) → length (next x) ≡ pushes x edges)
      → (fuel : ℕ) (seen stack : List String) → length stack + waiting seen edges < fuel
      → (found : List String) × (search_from next fuel seen stack ≡ some found)
  unfolding search_from
  search_from-some next edges counted zero seen stack h = absurd (omega arith)
  search_from-some next edges counted (suc fuel) seen [] h = (seen, refl)
  search_from-some next edges counted (suc fuel) seen (x ∷ stack) h =
      elim (Bool-cases (contains seen x)) [
        | inl e ↦
            let (found, q) = search_from-some next edges counted fuel seen stack (omega arith) in
            (found, rw (search_from, e) q)
        | inr e ↦
            let (found, q) =
              search_from-some next edges counted fuel (x ∷ seen) (reverse (next x) ++ stack) (
                omega (
                  arith,
                  length-append (reverse (next x)) stack,
                  length-reverse (next x),
                  counted x,
                  waiting-cons x seen edges e,
                )) in
            (found, rw (search_from, e) q)
      ]

length-filter : (p : Edge → Bool) (edges : List Edge) → length (filter p edges) ≤ length edges
length-filter p [] = omega arith
length-filter p (e ∷ edges) = ground (arith, length-filter p edges)

length-map : (f : Edge → String) (edges : List Edge) → length (map f edges) ≡ length edges
length-map f [] = refl
length-map f (e ∷ edges) = omega (arith, length-map f edges)

-- The targets of the edges that leave a node.
abbrev pub targets : FlowSnapshot → String → List String
targets snapshot node = map (λ e. e.to) (outgoing snapshot node)

-- Of a loaded flow, `reachable_nodes` ends, and has found exactly the nodes that a way along the
-- flow's edges leads to.
pub reachable_nodes_iff :
    (doc : FlowDoc) (fingerprint : String) (snapshot : FlowSnapshot) (start : String)
    → load_flow doc fingerprint ≡ loaded snapshot
    → (found : List String) × (reachable_nodes snapshot start ≡ some found)
      × ((b : String) → In b found ↔ Reaches (targets snapshot) (start ∷ []) b)
unfolding reachable_nodes
reachable_nodes_iff doc fingerprint snapshot start h =
    let edges = snapshot.doc.edges in
    let same : doc.edges ≡ edges =
      ap (λ d. d.edges) (sym (doc-load_flow doc fingerprint snapshot h)) in
    let (_, _, lists) = load_flow-indexes doc fingerprint snapshot h in
    let (found, e) =
      search_from-some (λ e. e.from_node) (targets snapshot) edges
        (λ x.
          length-map (λ e. e.to) (outgoing snapshot x)
          ∙ ap length (lists x)
          ∙ ap (λ es. length (filter (leaves_from x) es)) same)
        (enough edges (start ∷ [])) [] (start ∷ [])
        (omega (arith, length-filter (λ e. not (contains [] e.from_node)) edges)) in
    (
      found,
      e,
      λ b. search_from_iff (targets snapshot) (start ∷ []) (enough edges (start ∷ [])) found e b,
    )
