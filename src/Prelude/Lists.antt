-- ===== src/Prelude/Lists.antt =====
-- Lists measured by native numbers, Boolean searches, and membership by recursion.
use Prim.Native.Nat.{ℕ, suc, ◌+◌, ◌≤◌}
use mathlib.Core.Path.{◌≡◌, refl, sym, ap, subst}
use mathlib.Core.Logic.{◌⊎◌, inl, inr}
use mathlib.Core.Bool.{Bool, true, false, ◌&&◌, ◌||◌}
use mathlib.Core.Option.{Option, none, some}
use mathlib.Core.List.{List, [], ◌∷◌, ◌++◌, map, reverse, reverse-cons}
use native.Mathlib.Omega.{arith}
use wastech_orchestrator.Prelude.Tests.{if◌then◌else◌, Bool-cases}

module _ {ℓ} {A : Type ℓ} where
  abbrev pub length : List A → ℕ
  length [] = 0
  length (x ∷ xs) = suc (length xs)

  -- Python's `any(p(x) for x in xs)`.
  abbrev pub any : (A → Bool) → List A → Bool
  any p [] = false
  any p (x ∷ xs) = p x || any p xs

  abbrev pub all : (A → Bool) → List A → Bool
  all p [] = true
  all p (x ∷ xs) = p x && all p xs

  -- Python's `[x for x in xs if p(x)]`.
  abbrev pub filter : (A → Bool) → List A → List A
  filter p [] = []
  filter p (x ∷ xs) = let rest = filter p xs in if p x then x ∷ rest else rest

  -- Python's `next((x for x in xs if p(x)), None)`.
  abbrev pub find : (A → Bool) → List A → Option A
  find p [] = none
  find p (x ∷ xs) = if p x then some x else find p xs

module _ {A : Type 0} where
  -- `a` is an item of `xs`.
  abbrev pub In : A → List A → Type 0
  In a [] = ⊥
  In a (x ∷ xs) = (a ≡ x) ⊎ In a xs

  pub find-In : (p : A → Bool) (xs : List A) (a : A) → find p xs ≡ some a → In a xs × (p a ≡ true)
  find-In p [] a h = ground arith
  find-In p (x ∷ xs) a h = ground (arith, find-In p xs a)

  -- Nothing joined to nothing.
  pub append_nil_left : (xs ys : List A) → xs ++ ys ≡ [] → xs ≡ []
  append_nil_left [] ys h = refl
  append_nil_left (x ∷ xs) ys h = absurd (ground arith)

  pub append_nil_right : (xs ys : List A) → xs ++ ys ≡ [] → ys ≡ []
  append_nil_right [] ys h = h
  append_nil_right (x ∷ xs) ys h = absurd (ground arith)

  pub append_empty : (xs : List A) → xs ++ [] ≡ xs
  append_empty [] = refl
  append_empty (x ∷ xs) = ap (λ ys. x ∷ ys) (append_empty xs)

  pub In-append_left : (a : A) (xs ys : List A) → In a xs → In a (xs ++ ys)
  In-append_left a [] ys h = absurd h
  In-append_left a (x ∷ xs) ys (inl e) = inl e
  In-append_left a (x ∷ xs) ys (inr h) = inr (In-append_left a xs ys h)

  pub In-append_right : (a : A) (xs ys : List A) → In a ys → In a (xs ++ ys)
  In-append_right a [] ys h = h
  In-append_right a (x ∷ xs) ys h = inr (In-append_right a xs ys h)

  pub In-append_cases : (a : A) (xs ys : List A) → In a (xs ++ ys) → In a xs ⊎ In a ys
  In-append_cases a [] ys h = inr h
  In-append_cases a (x ∷ xs) ys (inl e) = inl (inl e)
  In-append_cases a (x ∷ xs) ys (inr h) = elim (In-append_cases a xs ys h) [
    | inl l ↦ inl (inr l)
    | inr r ↦ inr r
  ]

  pub length-append : (xs ys : List A) → length (xs ++ ys) ≡ length xs + length ys
  length-append [] ys = omega arith
  length-append (x ∷ xs) ys = omega (arith, length-append xs ys)

  pub length-filter_le : (p : A → Bool) (xs : List A) → length (filter p xs) ≤ length xs
  length-filter_le p [] = omega arith
  length-filter_le p (x ∷ xs) = ground (arith, length-filter_le p xs)

  pub In-reverse : (a : A) (xs : List A) → In a (reverse xs) → In a xs
  In-reverse a [] h = h
  In-reverse a (x ∷ xs) h =
      elim (In-append_cases a (reverse xs) (x ∷ []) (subst (In a) (reverse-cons x xs) h)) [
        | inl i ↦ inr (In-reverse a xs i)
        | inr (inl e) ↦ inl e
        | inr (inr i) ↦ absurd i
      ]

  pub reverse-In : (a : A) (xs : List A) → In a xs → In a (reverse xs)
  reverse-In a [] h = h
  reverse-In a (x ∷ xs) (inl e) =
      subst (In a) (sym (reverse-cons x xs)) (In-append_right a (reverse xs) (x ∷ []) (inl e))
  reverse-In a (x ∷ xs) (inr h) =
      subst (In a) (sym (reverse-cons x xs))
        (In-append_left a (reverse xs) (x ∷ []) (reverse-In a xs h))

  pub length-reverse : (xs : List A) → length (reverse xs) ≡ length xs
  length-reverse [] = omega arith
  length-reverse (x ∷ xs) =
      omega (
        arith,
        ap length (reverse-cons x xs),
        length-append (reverse xs) (x ∷ []),
        length-reverse xs,
      )

  pub In-filter : (p : A → Bool) (xs : List A) (x : A) → In x (filter p xs) → In x xs × (p x ≡ true)
  In-filter p [] x h = absurd h
  In-filter p (y ∷ ys) x h = ground (arith, In-filter p ys x)

  pub filter-In : (p : A → Bool) (xs : List A) (x : A) → In x xs → p x ≡ true → In x (filter p xs)
  filter-In p [] x i h = absurd i
  filter-In p (y ∷ ys) x (inl e) h = ground (arith, ap p e)
  filter-In p (y ∷ ys) x (inr i) h = ground (arith, filter-In p ys x i h)

  pub any-find : (p : A → Bool) (xs : List A) → any p xs ≡ true → (x : A) × (find p xs ≡ some x)
  any-find p [] h = absurd (ground arith)
  any-find p (x ∷ xs) h = elim (Bool-cases (p x)) [
    | inl e ↦ (x, rw e refl)
    | inr e ↦ let (y, q) = any-find p xs (rw e at h) in (y, rw e q)
  ]

  pub any-In : (p : A → Bool) (xs : List A) → any p xs ≡ true → (x : A) × In x xs × (p x ≡ true)
  any-In p xs h = let (x, q) = any-find p xs h in let (i, t) = find-In p xs x q in (x, i, t)

  pub In-none : (p : A → Bool) (xs : List A) (x : A) → any p xs ≡ false → In x xs → p x ≡ false
  In-none p [] x h i = absurd i
  In-none p (y ∷ ys) x h (inl q) = ground (arith, h, ap p q)
  In-none p (y ∷ ys) x h (inr i) = In-none p ys x (ground (arith, h)) i

module _ {A B : Type 0} (f : A → B) where
  pub In-map : (y : B) (xs : List A) → In y (map f xs) → (x : A) × In x xs × (f x ≡ y)
  In-map y [] h = absurd h
  In-map y (x ∷ xs) (inl e) = (x, inl refl, sym e)
  In-map y (x ∷ xs) (inr h) = let (z, i, e) = In-map y xs h in (z, inr i, e)

  pub map-In : (x : A) (xs : List A) → In x xs → In (f x) (map f xs)
  map-In x (y ∷ ys) (inl e) = inl (ap f e)
  map-In x (y ∷ ys) (inr i) = inr (map-In x ys i)
  map-In x [] h = h

module _ {A B : Type 0} where
  -- Python's `[y for x in xs for y in f(x)]`.
  abbrev pub flat_map : (A → List B) → List A → List B
  flat_map g [] = []
  flat_map g (x ∷ xs) = g x ++ flat_map g xs

  pub In-flat_map :
      (g : A → List B) (y : B) (xs : List A) → In y (flat_map g xs) → (x : A) × In x xs × In y (g x)
  In-flat_map g y [] h = absurd h
  In-flat_map g y (x ∷ xs) h = elim (In-append_cases y (g x) (flat_map g xs) h) [
    | inl i ↦ (x, inl refl, i)
    | inr i ↦ let (z, j, k) = In-flat_map g y xs i in (z, inr j, k)
  ]

  pub flat_map-In :
      (g : A → List B) (x : A) (y : B) (xs : List A) → In x xs → In y (g x) → In y (flat_map g xs)
  flat_map-In g x y [] i j = absurd i
  flat_map-In g x y (z ∷ xs) (inl e) j =
      In-append_left y (g z) (flat_map g xs) (subst (λ w. In y (g w)) e j)
  flat_map-In g x y (z ∷ xs) (inr i) j =
      In-append_right y (g z) (flat_map g xs) (flat_map-In g x y xs i j)
