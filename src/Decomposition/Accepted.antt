-- ===== src/Decomposition/Accepted.antt =====
-- core/decomposition.py: a split that is accepted can be worked off in order.
use mathlib.Core.List.{Perm}
use mathlib.Core.List.Perm
use wastech_orchestrator.Prelude.{
  ℕ, suc, ◌≤◌, ◌<◌, leb, ltb, ◌≡◌, refl, sym, ap, subst, inl, inr, Bool, true, false, ◌||◌, Option,
  none, some, List, [], ◌∷◌, length, In, arith, Bool-cases, Option-cases,
}
use wastech_orchestrator.Prelude.Int.{ℤ, pos, negsuc, lt_int, le_int, eq_int}
use wastech_orchestrator.Prelude.Json.{
  Fields, Value, null, bool, int, float, text, array, object, Items, get_field,
}
use wastech_orchestrator.Decomposition.{
  SubtaskSpec, DecompositionDecision, single_unit, insert_spec, sort_specs, bad_dependency,
  is_linear_from, decide_from_specs,
}
use wastech_orchestrator.Decomposition.Parse.{
  is_true, as_array, parse_subtasks, decide_items, decide_object, decide_decomposition,
}

abbrev AllIn : List ℤ → List ℤ → Type 0
AllIn [] done = Unit
AllIn (d ∷ ds) done = In d done × AllIn ds done

-- The subtasks have the orders `i`, `i + 1`, ..., and each depends on orders that come before it only:
-- on `done`, or on a subtask further up.
abbrev pub Schedule : ℕ → List ℤ → List SubtaskSpec → Type 0
Schedule i done [] = Unit
Schedule i done (s ∷ ss) =
    (s.order ≡ pos i) × AllIn s.depends_on done × Schedule (suc i) (s.order ∷ done) ss

-- `done` holds every order from 1 up to `i`, without `i`.
abbrev Covers : ℕ → List ℤ → Type 0
Covers i done = (k : ℕ) → 1 ≤ k → k < i → In (pos k) done

eq_int-eq : (a b : ℤ) → eq_int a b ≡ true → a ≡ b
eq_int-eq (pos a) (pos b) h = ground arith
eq_int-eq (pos a) (negsuc b) h = absurd (ground arith)
eq_int-eq (negsuc a) (pos b) h = absurd (ground arith)
eq_int-eq (negsuc a) (negsuc b) h = ground arith

bad_dependency-In :
    (i : ℕ) (done : List ℤ) (d : ℤ)
    → Covers i done
    → (lt_int d (pos 1) || le_int (pos i) d) ≡ false
    → In d done
bad_dependency-In i done (pos k) covers h = covers k (ground (arith, h)) (ground (arith, h))
bad_dependency-In i done (negsuc k) covers h = absurd (ground (arith, h))

AllIn-bad_dependency :
    (i : ℕ) (done deps : List ℤ)
    → Covers i done
    → bad_dependency (pos i) deps ≡ false
    → AllIn deps done
AllIn-bad_dependency i done [] covers h = tt
AllIn-bad_dependency i done (d ∷ ds) covers h = (
  bad_dependency-In i done d covers (ground (arith, h)),
  AllIn-bad_dependency i done ds covers (ground (arith, h)),
)

Covers-suc : (i : ℕ) (done : List ℤ) → Covers i done → Covers (suc i) (pos i ∷ done)
Covers-suc i done covers k low high = elim (Bool-cases (leb i k)) [
  | inl e ↦ let same : k ≡ i = ground arith in inl (ap pos same)
  | inr e ↦ inr (covers k low (ground arith))
]

is_linear_from-Schedule :
    (i : ℕ) (done : List ℤ) (specs : List SubtaskSpec)
    → Covers i done
    → is_linear_from i specs ≡ true
    → Schedule i done specs
unfolding is_linear_from
is_linear_from-Schedule i done [] covers h = tt
is_linear_from-Schedule i done (s ∷ ss) covers h =
    let e : s.order ≡ pos i = eq_int-eq s.order (pos i) (ground (arith, h)) in
    let sound : bad_dependency s.order s.depends_on ≡ false = ground (arith, h) in
    (
      e,
      AllIn-bad_dependency i done s.depends_on covers
          (subst (λ o. bad_dependency o s.depends_on ≡ false) e sound),
      is_linear_from-Schedule (suc i) (s.order ∷ done) ss
          (subst (λ o. Covers (suc i) (o ∷ done)) (sym e) (Covers-suc i done covers))
          (ground (arith, h)),
    )

insert_spec-Perm : (s : SubtaskSpec) (ss : List SubtaskSpec) → Perm (insert_spec s ss) (s ∷ ss)
unfolding insert_spec
insert_spec-Perm s [] = Perm.refl (s ∷ [])
insert_spec-Perm s (t ∷ ts) = elim (Bool-cases (le_int s.order t.order)) [
  | inl e ↦ rw (insert_spec, e) (Perm.refl (s ∷ t ∷ ts))
  | inr e ↦
      rw (insert_spec, e) (Perm.trans (Perm.cons t (insert_spec-Perm s ts)) (Perm.swap s t ts))
]

sort_specs-Perm : (ss : List SubtaskSpec) → Perm (sort_specs ss) ss
unfolding sort_specs
sort_specs-Perm [] = Perm.nil
sort_specs-Perm (s ∷ ss) =
    Perm.trans (insert_spec-Perm s (sort_specs ss)) (Perm.cons s (sort_specs-Perm ss))

-- A split that may be worked off: as many subtasks as were proposed, no fewer than two and no more
-- than allowed, in an order in which every dependency comes first.
pub record IsSplit (specs : List SubtaskSpec) (max_subtasks : ℕ) (d : DecompositionDecision)
    : Type 0 where
  pub at_least : 2 ≤ d.n
  pub at_most : d.n ≤ max_subtasks
  pub counted : d.n ≡ length specs
  pub reordered : Perm d.subtasks specs
  pub scheduled : Schedule 1 [] d.subtasks

pub decide_from_specs-IsSplit :
    (specs : List SubtaskSpec) (max_subtasks : ℕ)
    → (decide_from_specs specs max_subtasks).accepted ≡ true
    → IsSplit specs max_subtasks (decide_from_specs specs max_subtasks)
unfolding decide_from_specs single_unit
decide_from_specs-IsSplit specs max_subtasks h =
    elim (Bool-cases (ltb (length specs) 2 || ltb max_subtasks (length specs))) [
      | inl e ↦ absurd (ground (arith, h, e))
      | inr e ↦ elim (Bool-cases (is_linear_from 1 (sort_specs specs))) [
        | inr f ↦ absurd (ground (arith, h, e, f))
        | inl f ↦
            rw (decide_from_specs, e, f)
              (record {
                at_least = ground (arith, e);
                at_most = ground (arith, e);
                counted = refl;
                reordered = sort_specs-Perm specs;
                scheduled =
                    is_linear_from-Schedule 1 [] (sort_specs specs)
                      (λ k low high. absurd (omega arith)) f;
              })
      ]
    ]

-- The agent asked for a split, into these subtasks.
pub record Proposes (output : Option Value) (specs : List SubtaskSpec) : Type 0 where
  pub fields : Fields
  pub items : Items
  pub is_object : output ≡ some (object fields)
  pub asks : is_true (get_field fields "decompose") ≡ true
  pub lists : as_array (get_field fields "subtasks") ≡ some items
  pub parses : parse_subtasks items ≡ some specs

decide_items-IsSplit :
    (found : Option Items) (max_subtasks : ℕ)
    → (decide_items found max_subtasks).accepted ≡ true
    → (items : Items) × (specs : List SubtaskSpec) × (found ≡ some items)
      × (parse_subtasks items ≡ some specs)
      × IsSplit specs max_subtasks (decide_items found max_subtasks)
unfolding decide_items single_unit
decide_items-IsSplit none m h = absurd (ground (arith, h))
decide_items-IsSplit (some items) m h = elim (Option-cases (parse_subtasks items)) [
  | inl e ↦ absurd (ground (arith, h, e))
  | inr (specs, e) ↦
      let split : IsSplit specs m (decide_items (some items) m) =
        rw (decide_items, e) (decide_from_specs-IsSplit specs m (rw (decide_items, e) at h)) in
      (items, specs, refl, e, split)
]

decide_object-IsSplit :
    (output : Option Value) (max_subtasks : ℕ)
    → (decide_object output max_subtasks).accepted ≡ true
    → (specs : List SubtaskSpec) × Proposes output specs
      × IsSplit specs max_subtasks (decide_object output max_subtasks)
unfolding decide_object single_unit
decide_object-IsSplit (some (object o)) m h =
    elim (Bool-cases (is_true (get_field o "decompose"))) [
      | inl e ↦
          let (items, specs, found, parsed, split) =
            decide_items-IsSplit (as_array (get_field o "subtasks")) m
              (rw (decide_object, e) at h) in
          let proposes : Proposes (some (object o)) specs = record {
            fields = o;
            items = items;
            is_object = refl;
            asks = e;
            lists = found;
            parses = parsed;
          } in
          (specs, proposes, rw (decide_object, e) split)
      | inr e ↦ absurd (ground (arith, h, e))
    ]
decide_object-IsSplit none m h = absurd (ground (arith, h))
decide_object-IsSplit (some null) m h = absurd (ground (arith, h))
decide_object-IsSplit (some (bool b)) m h = absurd (ground (arith, h))
decide_object-IsSplit (some (int n)) m h = absurd (ground (arith, h))
decide_object-IsSplit (some (float f)) m h = absurd (ground (arith, h))
decide_object-IsSplit (some (text t)) m h = absurd (ground (arith, h))
decide_object-IsSplit (some (array items)) m h = absurd (ground (arith, h))

-- Whatever the planning agent wrote: a split is accepted only where the gate is on and the agent asked
-- for one with subtasks that parse, and then it has from two to `max_subtasks` subtasks, which are the proposed ones in another order, with the orders
-- 1, 2, ... and with every dependency on a subtask further up.
pub decide_decomposition-IsSplit :
    (output : Option Value) (gate_on : Bool) (max_subtasks : ℕ)
    → (decide_decomposition output gate_on max_subtasks).accepted ≡ true
    → (gate_on ≡ true)
      × (specs : List SubtaskSpec) × Proposes output specs
      × IsSplit specs max_subtasks (decide_decomposition output gate_on max_subtasks)
unfolding decide_decomposition single_unit
decide_decomposition-IsSplit output true m h =
    let (specs, proposes, split) = decide_object-IsSplit output m h in
    (refl, specs, proposes, split)
decide_decomposition-IsSplit output false m h = absurd (ground (arith, h))
