-- ===== src/Flow/Reach/Correct.antt =====
-- core/flow/snapshot.py, `reachable_nodes`: what a search finds.
use wastech_orchestrator.Prelude.{
  ℕ, zero, suc, ◌≡◌, refl, sym, subst, ◌⊎◌, inl, inr, ◌↔◌, String, contains, contains-In, some,
  some_inj, List, [], ◌∷◌, ◌++◌, reverse, In, In-append_left, In-append_right, In-append_cases,
  In-reverse, reverse-In, arith, Bool-cases,
}
use wastech_orchestrator.Flow.Reach.{search_from}

-- What is reached from one of `starts` along `next`.
pub data Reaches (next : String → List String) (starts : List String) : String → Type 0 where
  start : (a : String) → In a starts → Reaches next starts a
  step : {b : String} (c : String) → Reaches next starts b → In c (next b) → Reaches next starts c

module _ (next : String → List String) (starts : List String) where
  -- All items are reached.
  abbrev AllReached : List String → Type 0
  AllReached xs = (x : String) → In x xs → Reaches next starts x

  search_from-Reaches :
      (fuel : ℕ) (seen stack found : List String)
      → AllReached seen
      → AllReached stack
      → search_from next fuel seen stack ≡ some found
      → AllReached found
  unfolding search_from
  search_from-Reaches zero seen stack found hs ht h = absurd (ground arith)
  search_from-Reaches (suc fuel) seen [] found hs ht h = subst AllReached (some_inj h) hs
  search_from-Reaches (suc fuel) seen (x ∷ stack) found hs ht h =
      elim (Bool-cases (contains seen x)) [
        | inl e ↦
            search_from-Reaches fuel seen stack found hs (λ y i. ht y (inr i))
              (rw (search_from, e) at h)
        | inr e ↦
            let reached : Reaches next starts x = ht x (inl refl) in
            search_from-Reaches fuel (x ∷ seen) (reverse (next x) ++ stack) found
              (λ y i. cons_case y i reached hs)
              (λ y i. elim (In-append_cases y (reverse (next x)) stack i) [
                | inl j ↦ step y reached (In-reverse y (next x) j)
                | inr j ↦ ht y (inr j)
              ])
              (rw (search_from, e) at h)
      ]
    where
      cons_case :
          (y : String)
          → In y (x ∷ seen)
          → Reaches next starts x
          → AllReached seen
          → Reaches next starts y
      cons_case y (inl e) r hs = subst (Reaches next starts) (sym e) r
      cons_case y (inr i) r hs = hs y i

  -- What a node of `seen` leads to was seen too, or waits on the stack.
  abbrev Pending : List String → List String → Type 0
  Pending seen stack = (x y : String) → In x seen → In y (next x) → In y seen ⊎ In y stack

  abbrev Closed : List String → Type 0
  Closed found = (x y : String) → In x found → In y (next x) → In y found

  search_from-Closed :
      (fuel : ℕ) (seen stack found : List String)
      → Pending seen stack
      → search_from next fuel seen stack ≡ some found
      → Closed found
        × ((x : String) → In x seen → In x found)
        × ((x : String) → In x stack → In x found)
  unfolding search_from
  search_from-Closed zero seen stack found p h = absurd (ground arith)
  search_from-Closed (suc fuel) seen [] found p h =
      subst
        (λ f. Closed f × ((x : String) → In x seen → In x f) × ((x : String) → In x [] → In x f))
        (some_inj h)
        (
          (λ x y i j. elim (p x y i j) [ inl k ↦ k | inr k ↦ absurd k ]),
          (λ x i. i),
          (λ x i. absurd i),
        )
  search_from-Closed (suc fuel) seen (x ∷ stack) found p h = elim (Bool-cases (contains seen x)) [
    | inl e ↦
        let (closed, old, rest) =
          search_from-Closed fuel seen stack found (again (contains-In seen x e))
            (rw (search_from, e) at h) in
        (closed, old, on_stack (old x (contains-In seen x e)) rest)
    | inr e ↦
        let (closed, old, rest) =
          search_from-Closed fuel (x ∷ seen) (reverse (next x) ++ stack) found pushed
            (rw (search_from, e) at h) in
        (
          closed,
          (λ y i. old y (inr i)),
          on_stack (old x (inl refl))
              (λ y i. rest y (In-append_right y (reverse (next x)) stack i)),
        )
  ]
    where
      again : In x seen → Pending seen stack
      again s y z i j = elim (p y z i j) [
        | inl k ↦ inl k
        | inr (inl q) ↦ inl (subst (λ w. In w seen) (sym q) s)
        | inr (inr k) ↦ inr k
      ]

      pushed : Pending (x ∷ seen) (reverse (next x) ++ stack)
      pushed y z (inl q) j = inr (
          In-append_left z (reverse (next x)) stack
            (reverse-In z (next x) (subst (λ w. In z (next w)) q j)))
      pushed y z (inr i) j = elim (p y z i j) [
        | inl k ↦ inl (inr k)
        | inr (inl q) ↦ inl (inl q)
        | inr (inr k) ↦ inr (In-append_right z (reverse (next x)) stack k)
      ]

      on_stack :
          In x found
          → ((y : String) → In y stack → In y found)
          → (y : String) → In y (x ∷ stack)
          → In y found
      on_stack here rest y (inl q) = subst (λ w. In w found) (sym q) here
      on_stack here rest y (inr i) = rest y i

  Reaches-Closed :
      {b : String} (found : List String)
      → Closed found
      → ((a : String) → In a starts → In a found)
      → Reaches next starts b
      → In b found
  Reaches-Closed found closed h (start a i) = h a i
  Reaches-Closed found closed h (step {b} c r i) = closed b c (Reaches-Closed found closed h r) i

  -- A search that ends has found exactly what is reached from where it started.
  pub search_from_iff :
      (fuel : ℕ) (found : List String)
      → search_from next fuel [] starts ≡ some found
      → (b : String) → In b found ↔ Reaches next starts b
  search_from_iff fuel found h b =
      let (closed, _, top) = search_from-Closed fuel [] starts found (λ x y i j. absurd i) h in
      (
        (λ i. search_from-Reaches fuel [] starts found (λ x j. absurd j) (λ x j. start x j) h b i),
        (λ r. Reaches-Closed found closed top r),
      )
