-- ===== src/Flow/Validator/Incoming.antt =====
-- core/flow/validator.py: the nodes that are counted without incoming edges have none.
use wastech_orchestrator.Prelude.{
  ℕ, ◌+◌, ◌==◌, ◌≡◌, refl, sym, ap, subst, ◌∙◌, ◌⊎◌, inl, inr, true, false, String, str_eq, eq_iff,
  Option, none, some, List, [], ◌∷◌, filter, length, In, arith, Bool-cases, Option-cases,
  if◌then◌else◌,
}
use wastech_orchestrator.Prelude.Dict
use wastech_orchestrator.Prelude.Dict.{Dict, get-put}
use wastech_orchestrator.Flow.Schema.{FlowNode, Edge, FlowDoc, node_id}
use wastech_orchestrator.Flow.Routing.{count_edge, count_edges, zero_keys}
use wastech_orchestrator.Flow.Validator.{zero_incoming, entries}

-- `count_edge`, by recursion on the counts.
unfoldable pub bump : Dict ℕ → String → Dict ℕ
bump [] k = []
bump ((j, n) ∷ d) k =
    let rest = bump d k in elim (str_eq j k) [ true ↦ (j, n + 1) ∷ d | false ↦ (j, n) ∷ rest ]

pub count_edge-bump : (d : Dict ℕ) (e : Edge) → count_edge d e ≡ bump d e.to
unfolding count_edge bump Dict.get Dict.put
count_edge-bump [] e = refl
count_edge-bump ((j, n) ∷ d) e = elim (Option-cases (Dict.get d e.to)) [
  | inl g ↦
      let rest : d ≡ bump d e.to = sym (rw (count_edge, g) refl) ∙ count_edge-bump d e in
      ground (arith, rest, g)
  | inr (m, g) ↦
      let rest : Dict.put d e.to (m + 1) ≡ bump d e.to =
        sym (rw (count_edge, g) refl) ∙ count_edge-bump d e in
      ground (arith, rest, g)
]

-- Each key stands once.
abbrev Unique : Dict ℕ → Type 0
Unique [] = Unit
Unique ((k, n) ∷ d) = (Dict.get d k ≡ none) × Unique d

Unique-put : (d : Dict ℕ) (k : String) (n : ℕ) → Unique d → Unique (Dict.put d k n)
unfolding Dict.put Dict.get
Unique-put [] k n u = (refl, tt)
Unique-put ((j, m) ∷ d) k n (fresh, u) = elim (Bool-cases (str_eq j k)) [
  | inl e ↦ rw (Dict.put, e) (fresh, u)
  | inr e ↦
      rw (Dict.put, e)
        (ground (arith, get-put d k j n, eq_iff j k, eq_iff k j, fresh, e), Unique-put d k n u)
]

Unique-zero_incoming :
    (d : Dict ℕ) (nodes : List FlowNode) → Unique d → Unique (zero_incoming d nodes)
unfolding zero_incoming
Unique-zero_incoming d [] u = u
Unique-zero_incoming d (n ∷ nodes) u =
    Unique-zero_incoming (Dict.put d (node_id n) 0) nodes (Unique-put d (node_id n) 0 u)

abbrev plus : ℕ → Option ℕ → Option ℕ
plus k none = none
plus k (some n) = some (n + k)

get-bump :
    (d : Dict ℕ) (k j : String)
    → Dict.get (bump d k) j ≡ (if str_eq k j then plus 1 (Dict.get d j) else Dict.get d j)
unfolding bump Dict.get
get-bump [] k j = ground arith
get-bump ((i, n) ∷ d) k j = ground (arith, get-bump d k j, eq_iff i k, eq_iff i j, eq_iff k j)

Unique-bump : (d : Dict ℕ) (k : String) → Unique d → Unique (bump d k)
unfolding bump
Unique-bump [] k u = u
Unique-bump ((j, n) ∷ d) k (fresh, u) = elim (Bool-cases (str_eq j k)) [
  | inl e ↦ rw (bump, e) (fresh, u)
  | inr e ↦ rw (bump, e) (ground (arith, get-bump d k j, fresh), Unique-bump d k u)
]

-- How many edges lead to a node.
abbrev incoming : String → List Edge → ℕ
incoming x edges = length (filter (λ e. str_eq e.to x) edges)

get-count_edges :
    (d : Dict ℕ) (edges : List Edge) (x : String)
    → Dict.get (count_edges d edges) x ≡ plus (incoming x edges) (Dict.get d x)
unfolding count_edges
get-count_edges d [] x = elim (Option-cases (Dict.get d x)) [
  | inl e ↦ ground (arith, e)
  | inr (n, e) ↦ ground (arith, e)
]
get-count_edges d (e ∷ edges) x =
    let here : Dict.get (count_edge d e) x
        ≡ (if str_eq e.to x then plus 1 (Dict.get d x) else Dict.get d x) =
      ap (λ c. Dict.get c x) (count_edge-bump d e) ∙ get-bump d e.to x in
    elim (Option-cases (Dict.get d x)) [
      | inl q ↦ ground (arith, get-count_edges (count_edge d e) edges x, here, q)
      | inr (n, q) ↦ ground (arith, get-count_edges (count_edge d e) edges x, here, q)
    ]

Unique-count_edges : (d : Dict ℕ) (edges : List Edge) → Unique d → Unique (count_edges d edges)
unfolding count_edges
Unique-count_edges d [] u = u
Unique-count_edges d (e ∷ edges) u =
    Unique-count_edges (count_edge d e) edges
      (subst Unique (sym (count_edge-bump d e)) (Unique-bump d e.to u))

zero_keys_cons :
    (j : String) (n : ℕ) (d : Dict ℕ) (x : String)
    → In x (zero_keys ((j, n) ∷ d))
    → ((n ≡ 0) × (x ≡ j)) ⊎ In x (zero_keys d)
unfolding zero_keys
zero_keys_cons j n d x i = elim (Bool-cases (n == 0)) [
  | inl e ↦
      let here : In x (j ∷ zero_keys d) = rw (zero_keys, e) at i in
      elim here [ inl q ↦ inl (ground (arith, e), q) | inr r ↦ inr r ]
  | inr e ↦ inr (rw (zero_keys, e) at i)
]

zero_keys-get : (d : Dict ℕ) (x : String) → Unique d → In x (zero_keys d) → Dict.get d x ≡ some 0
unfolding zero_keys Dict.get
zero_keys-get [] x u i = absurd i
zero_keys-get ((j, n) ∷ d) x (fresh, u) i = elim (zero_keys_cons j n d x i) [
  | inl (z, q) ↦ ground (arith, z, q, eq_iff j x)
  | inr r ↦ let later = zero_keys-get d x u r in ground (arith, later, fresh, eq_iff j x)
]

get-zero_keys : (d : Dict ℕ) (x : String) → Dict.get d x ≡ some 0 → In x (zero_keys d)
unfolding zero_keys Dict.get
get-zero_keys [] x h = absurd (ground arith)
get-zero_keys ((j, n) ∷ d) x h = elim (Bool-cases (str_eq j x)) [
  | inl e ↦
      let z : n ≡ 0 = ground (arith, h, e) in
      let same : x ≡ j = sym ((eq_iff j x).0 e) in rw (zero_keys, z) (inl same)
  | inr e ↦
      let i = get-zero_keys d x (rw (Dict.get, e) at h) in
      elim (Bool-cases (n == 0)) [ inl z ↦ rw (zero_keys, z) (inr i) | inr z ↦ rw (zero_keys, z) i ]
]

get-zero_incoming_put :
    (d : Dict ℕ) (nodes : List FlowNode) (x : String)
    → Dict.get d x ≡ some 0
    → Dict.get (zero_incoming d nodes) x ≡ some 0
unfolding zero_incoming
get-zero_incoming_put d [] x h = h
get-zero_incoming_put d (n ∷ nodes) x h =
    get-zero_incoming_put (Dict.put d (node_id n) 0) nodes x
      (ground (arith, get-put d (node_id n) x 0, h))

get-zero_incoming :
    (d : Dict ℕ) (nodes : List FlowNode) (n : FlowNode)
    → In n nodes
    → Dict.get (zero_incoming d nodes) (node_id n) ≡ some 0
unfolding zero_incoming
get-zero_incoming d [] n i = absurd i
get-zero_incoming d (m ∷ nodes) n (inl q) =
    get-zero_incoming_put (Dict.put d (node_id m) 0) nodes (node_id n) (
      ground
        (arith, get-put d (node_id m) (node_id n) 0, eq_iff (node_id m) (node_id n), ap node_id q))
get-zero_incoming d (m ∷ nodes) n (inr i) = get-zero_incoming (Dict.put d (node_id m) 0) nodes n i

incoming_zero :
    (x : String) (edges : List Edge) (e : Edge) → incoming x edges ≡ 0 → In e edges → ¬ (e.to ≡ x)
incoming_zero x [] e h i q = absurd i
incoming_zero x (f ∷ edges) e h (inl p) q =
    absurd (ground (arith, h, p, q, eq_iff f.to x, ap (λ (y : Edge). y.to) p))
incoming_zero x (f ∷ edges) e h (inr i) q = incoming_zero x edges e (ground (arith, h)) i q

zero_incoming_edges :
    (x : String) (edges : List Edge)
    → ((e : Edge) → In e edges → ¬ (e.to ≡ x))
    → incoming x edges ≡ 0
zero_incoming_edges x [] h = refl
zero_incoming_edges x (f ∷ edges) h = elim (Bool-cases (str_eq f.to x)) [
  | inl e ↦ absurd (h f (inl refl) ((eq_iff f.to x).0 e))
  | inr e ↦ rw e (zero_incoming_edges x edges (λ g i. h g (inr i)))
]

-- No edge leads to a node that is counted without incoming edges.
pub entries-no_edge :
    (doc : FlowDoc) (x : String) → In x (entries doc) → (e : Edge) → In e doc.edges → ¬ (e.to ≡ x)
unfolding entries Dict.get
entries-no_edge doc x i =
    let start = zero_incoming [] doc.nodes in
    let found =
      zero_keys-get (count_edges start doc.edges) x
        (Unique-count_edges start doc.edges (Unique-zero_incoming [] doc.nodes tt)) i in
    let total = sym (get-count_edges start doc.edges x) ∙ found in
    λ e. incoming_zero x doc.edges e (none_in (Dict.get start x) total)
  where
    none_in : (o : Option ℕ) → plus (incoming x doc.edges) o ≡ some 0 → incoming x doc.edges ≡ 0
    none_in none h = absurd (ground (arith, h))
    none_in (some n) h = ground (arith, h)

-- A node that no edge leads to is counted without incoming edges.
pub no_edge-entries :
    (doc : FlowDoc) (n : FlowNode)
    → In n doc.nodes
    → ((e : Edge) → In e doc.edges → ¬ (e.to ≡ node_id n))
    → In (node_id n) (entries doc)
unfolding entries
no_edge-entries doc n i h =
    let start = zero_incoming [] doc.nodes in
    get-zero_keys (count_edges start doc.edges) (node_id n) (
      get-count_edges start doc.edges (node_id n)
      ∙ rw (get-zero_incoming [] doc.nodes n i, zero_incoming_edges (node_id n) doc.edges h) refl)
