-- ===== src/Flow/Phases/Found.antt =====
-- core/flow/engine_driver.py, `partition_decomposition`: of a valid flow, it finds the phases.
use wastech_orchestrator.Prelude.{
  any-find, any-In, ◌≡◌, refl, sym, subst, ◌∙◌, inl, inr, ◌↔◌, true, false, not, ◌&&◌, String,
  contains, contains-In, In-contains, some, List, [], ◌∷◌, any, find, find-In, In, In-filter,
  filter-In, map-In, arith, Bool-cases, Option-cases,
}
use wastech_orchestrator.Prelude.Dict
use wastech_orchestrator.Flow.Schema.{Edge, is_rework, DecompositionConfig, FlowDoc}
use wastech_orchestrator.Flow.Snapshot.{FlowSnapshot, outgoing, load_flow, loaded}
use wastech_orchestrator.Flow.Reach.{reachable_nodes}
use wastech_orchestrator.Flow.Reach.Correct.{Reaches}
use wastech_orchestrator.Flow.Reach.Enough.{targets, reachable_nodes_iff}
use wastech_orchestrator.Flow.Validator.{enters, exits, check_decomposition, check_graph}
use wastech_orchestrator.Flow.Validator.Graph.{keys-In, In-keys}
use wastech_orchestrator.Flow.Phases.{
  DecompositionRegions, partitioned, region_entry_of, first_exit, before, partition_at,
  partition_from, partition_decomposition,
}
use wastech_orchestrator.Flow.Snapshot.Build.{outgoing-declared, doc-load_flow}
use wastech_orchestrator.Flow.Validator.WellFormed.{check_graph-IsWellFormed}
use wastech_orchestrator.Flow.Validator.Parts.{check_graph-parts}
use wastech_orchestrator.Flow.Validator.Region.{check_region-nil, check_decomposition-nil}

first_exit-some :
    (snap : FlowSnapshot) (region ids : List String) (id : String)
    → In id ids
    → any (exits region) (outgoing snap id) ≡ true
    → (e : Edge) × (first_exit snap region ids ≡ some e)
      × (exits region e ≡ true)
      × ((j : String) × In j ids × In e (outgoing snap j))
unfolding first_exit
first_exit-some snap region [] id i h = absurd i
first_exit-some snap region (j ∷ ids) id i h =
    elim (Option-cases (find (exits region) (outgoing snap j))) [
      | inr (e, q) ↦
          let (declared, out) = find-In (exits region) (outgoing snap j) e q in
          (e, rw (first_exit, q) refl, out, (j, inl refl, declared))
      | inl q ↦ elim i [
        | inl same ↦
            let (e, found) =
              any-find (exits region) (outgoing snap j)
                (subst (λ k. any (exits region) (outgoing snap k) ≡ true) same h) in
            absurd (ground (arith, q, found))
        | inr rest ↦
            let (e, found, out, (k, i, declared)) = first_exit-some snap region ids id rest h in
            (e, rw (first_exit, q) found, out, (k, inr i, declared))
      ]
    ]

-- The listed members are the items.
abbrev pub Lists : (List String → List String) → Type 0
Lists ordered = (xs : List String) (x : String) → In x (ordered xs) ↔ In x xs

contains-ordered :
    (ordered : List String → List String)
    → Lists ordered
    → (xs : List String) → contains (ordered xs) ≡ contains xs
contains-ordered ordered same xs = λ i x. pointwise x i
  where
    pointwise : (x : String) → contains (ordered xs) x ≡ contains xs x
    pointwise x = elim (Bool-cases (contains xs x)) [
      | inl e ↦ In-contains (ordered xs) x ((same xs x).1 (contains-In xs x e)) ∙ sym e
      | inr e ↦ elim (Bool-cases (contains (ordered xs) x)) [
        | inr f ↦ f ∙ sym e
        | inl f ↦
            let back : contains xs x ≡ true =
              In-contains xs x ((same xs x).0 (contains-In (ordered xs) x f)) in
            absurd (ground (arith, back, e))
      ]
    ]

-- What the phases of a flow are to be.
pub record IsPartition (snap : FlowSnapshot) (dec : DecompositionConfig) (r : DecompositionRegions)
    : Type 0 where
  pub entered : In r.region_entry dec.sub_flow
  pub enters_from : In r.region_entry (targets snap dec.proposed_by)
  pub left :
      (id : String) × (edge : Edge) × In id dec.sub_flow
      × In edge (outgoing snap id)
      × (is_rework edge ≡ false)
      × (edge.to ≡ r.post_entry)
  pub outside : ¬ (In r.post_entry dec.sub_flow)
  pub is_node : Dict.has snap.nodes_by_id r.post_entry ≡ true
  pub region_members : (k : String) → In k r.region ↔ In k dec.sub_flow
  pub pre_members :
      (k : String)
      → In k r.pre ↔ (
          (Dict.has snap.nodes_by_id k ≡ true)
          × ¬ (In k dec.sub_flow)
          × ¬ (Reaches (targets snap) (r.post_entry ∷ []) k))

In-before :
    (snap : FlowSnapshot) (region post : List String) (k : String)
    → In k (before snap region post)
      ↔ ((Dict.has snap.nodes_by_id k ≡ true) × ¬ (In k region) × ¬ (In k post))
In-before snap region post k = (
  λ i.
      let (known, out) =
        In-filter (λ id. not (contains region id) && not (contains post id))
          (Dict.keys snap.nodes_by_id) k i in
      (
        In-keys snap.nodes_by_id k known,
        λ j. let c = In-contains region k j in ground (arith, out, c),
        λ j. let c = In-contains post k j in ground (arith, out, c),
      ),
  λ (known, a, b).
      filter-In (λ id. not (contains region id) && not (contains post id))
        (Dict.keys snap.nodes_by_id) k (keys-In snap.nodes_by_id k known)
        (rw (absent region a, absent post b) refl),
)
  where
    absent : (xs : List String) → ¬ (In k xs) → contains xs k ≡ false
    absent xs out = elim (Bool-cases (contains xs k)) [
      | inl e ↦ absurd (out (contains-In xs k e))
      | inr e ↦ e
    ]

found_regions : FlowSnapshot → List String → Edge → Edge → List String → DecompositionRegions
found_regions snap region into out post = record {
  pre = before snap region post;
  region = region;
  region_entry = into.to;
  post_entry = out.to;
}

partition_decomposition-found :
    (ordered : List String → List String) (snap : FlowSnapshot) (dec : DecompositionConfig)
    (into out : Edge) (post : List String)
    → snap.doc.decomposition ≡ some dec
    → region_entry_of snap (ordered dec.sub_flow) dec.proposed_by ≡ some into
    → first_exit snap (ordered dec.sub_flow) (ordered dec.sub_flow) ≡ some out
    → reachable_nodes snap out.to ≡ some post
    → partition_decomposition ordered snap
      ≡ partitioned (found_regions snap (ordered dec.sub_flow) into out post)
unfolding partition_decomposition partition_from partition_at found_regions
partition_decomposition-found ordered snap dec into out post a b c d =
    rw (partition_decomposition, a, partition_from, b, c, partition_at, d) refl

-- If a loaded flow that has a decomposition is without violations, then its phases are found: the region
-- is the sub flow; it is entered at one of its nodes, by an edge from the proposer; it is left by a forward
-- edge from one of its nodes, for a node of the flow outside of it; and the nodes before are those that
-- are neither in the region nor reached from where it is left. This holds in whatever order the members
-- of a set are iterated.
pub partition_decomposition-IsPartition :
    (ordered : List String → List String) (doc : FlowDoc) (fingerprint : String)
    (snap : FlowSnapshot) (dec : DecompositionConfig)
    → Lists ordered
    → load_flow doc fingerprint ≡ loaded snap
    → check_graph snap ≡ []
    → snap.doc.decomposition ≡ some dec
    → (r : DecompositionRegions) × (partition_decomposition ordered snap ≡ partitioned r)
      × IsPartition snap dec r
unfolding region_entry_of found_regions
partition_decomposition-IsPartition ordered doc fingerprint snap dec lists h v is_split =
    let region = ordered dec.sub_flow in
    let same = contains-ordered ordered lists dec.sub_flow in
    let (_, _, _, _, _, whole) = check_graph-parts snap v in
    let quiet = subst (λ o. check_decomposition snap o ≡ []) is_split whole in
    let (can_enter, can_leave) =
      check_region-nil snap dec (check_decomposition-nil snap dec quiet) in
    let (into, f) = any-find (enters dec.sub_flow) (outgoing snap dec.proposed_by) can_enter in
    let (is_declared, is_member) =
      find-In (enters dec.sub_flow) (outgoing snap dec.proposed_by) into f in
    let (id, member, leaves) =
      any-In (λ id. any (exits dec.sub_flow) (outgoing snap id)) dec.sub_flow can_leave in
    let (out, g, exit, (at, i, is_edge)) =
      first_exit-some snap region region id ((lists dec.sub_flow id).1 member) (
        subst (λ c. any (λ e. not (c e.to) && not (is_rework e)) (outgoing snap id) ≡ true)
          (sym same) leaves) in
    let f' : find (enters region) (outgoing snap dec.proposed_by) ≡ some into =
      subst (λ c. find (λ e. c e.to) (outgoing snap dec.proposed_by) ≡ some into) (sym same) f in
    let (post, reached, means) = reachable_nodes_iff doc fingerprint snap out.to h in
    (
      found_regions snap region into out post,
      partition_decomposition-found ordered snap dec into out post is_split f' g reached,
      record {
        entered = contains-In dec.sub_flow into.to is_member;
        enters_from = map-In (λ e. e.to) into (outgoing snap dec.proposed_by) is_declared;
        left = (at, out, (lists dec.sub_flow at).0 i, is_edge, ground (arith, exit), refl);
        outside = λ j.
            let inside : contains region out.to ≡ true =
              In-contains region out.to ((lists dec.sub_flow out.to).1 j) in
            absurd (ground (arith, exit, inside));
        is_node = (check_graph-IsWellFormed snap v).has_target out (
            subst (λ d. In out d.edges) (sym (doc-load_flow doc fingerprint snap h))
              (outgoing-declared doc fingerprint snap at out h is_edge).0);
        region_members = lists dec.sub_flow;
        pre_members = λ k. (
          λ i.
              let (known, a, b) = (In-before snap region post k).0 i in
              (known, (λ j. a ((lists dec.sub_flow k).1 j)), λ w. b ((means k).1 w)),
          λ (known, a, b).
              (In-before snap region post k).1
                (known, (λ j. a ((lists dec.sub_flow k).0 j)), λ j. b ((means k).0 j)),
        );
      },
    )
