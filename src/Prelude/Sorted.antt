-- ===== src/Prelude/Sorted.antt =====
-- Python's `sorted(set(...))` of texts, which are ordered by their code points.
use Prim.Native.Nat.{ℕ}
use Prim.Native.String.{String}
use mathlib.Core.Path.{◌≡◌, ◌∙◌}
use mathlib.Core.Logic.{◌⊎◌, inl, inr, ◌↔◌}
use mathlib.Core.Bool.{Bool, true, false, ◌&&◌, ◌||◌}
use mathlib.Core.List.{List, [], ◌∷◌}
use package.text.Mathlib.Text.{◌==◌ as str_eq}
use text.Mathlib.TextEquality.{eq_iff}
use wastech_orchestrator.Prelude.Tests.{ltb, ◌==◌, if◌then◌else◌, Bool-cases}
use wastech_orchestrator.Prelude.Lists.{In}
use wastech_orchestrator.Prelude.Chars.{codes}

unfoldable pub precedes : List ℕ → List ℕ → Bool
precedes s [] = false
precedes [] (b ∷ t) = true
precedes (a ∷ s) (b ∷ t) = ltb a b || (a == b && precedes s t)

unfoldable pub insert_text : String → List String → List String
unfolding precedes
insert_text x [] = x ∷ []
insert_text x (y ∷ ys) =
    let rest = insert_text x ys in
    if str_eq x y then y ∷ ys else if precedes (codes x) (codes y) then x ∷ y ∷ ys else y ∷ rest

unfoldable pub sorted_set : List String → List String
unfolding insert_text
sorted_set [] = []
sorted_set (x ∷ xs) = insert_text x (sorted_set xs)

insert_text_iff :
    (x : String) (ys : List String) (z : String) → In z (insert_text x ys) ↔ ((z ≡ x) ⊎ In z ys)
unfolding insert_text
insert_text_iff x [] z = ((λ i. i), λ i. i)
insert_text_iff x (y ∷ ys) z = elim (Bool-cases (str_eq x y)) [
  | inl e ↦
      let same : x ≡ y = (eq_iff x y).0 e in
      rw (insert_text, e) ((λ i. inr i), λ i. elim i [ inl q ↦ inl (q ∙ same) | inr j ↦ j ])
  | inr e ↦ elim (Bool-cases (precedes (codes x) (codes y))) [
    | inl p ↦ rw (insert_text, e, p) ((λ i. i), λ i. i)
    | inr p ↦
        let (to, from) = insert_text_iff x ys z in
        rw (insert_text, e, p)
          (
            (λ i. elim i [
              | inl q ↦ inr (inl q)
              | inr j ↦ elim (to j) [ inl q ↦ inl q | inr k ↦ inr (inr k) ]
            ]),
            λ i. elim i [
              | inl q ↦ inr (from (inl q))
              | inr (inl q) ↦ inl q
              | inr (inr k) ↦ inr (from (inr k))
            ],
          )
  ]
]

-- The members are the items.
pub sorted_set_iff : (xs : List String) (z : String) → In z (sorted_set xs) ↔ In z xs
unfolding sorted_set
sorted_set_iff [] z = ((λ i. i), λ i. i)
sorted_set_iff (x ∷ xs) z =
    let (to, from) = insert_text_iff x (sorted_set xs) z in
    let (later, back) = sorted_set_iff xs z in
    (
      (λ i. elim (to i) [ inl q ↦ inl q | inr j ↦ inr (later j) ]),
      λ i. elim i [ inl q ↦ from (inl q) | inr j ↦ from (inr (back j)) ],
    )
