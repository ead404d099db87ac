-- ===== src/Checks/Glob/Meaning.antt =====
-- globmatch.py: the matcher against what each piece of a pattern stands for.
use wastech_orchestrator.Prelude.{
  ℕ, ◌==◌, ◌≡◌, ◌≢◌, ◌↔◌, inl, inr, refl, ap, Bool, true, ◌&&◌, List, [], ◌∷◌, ◌++◌, arith,
  Bool-cases,
}
use wastech_orchestrator.Checks.Glob.{
  Piece, leading, anything, within, one, literal, slash, newline, run_within, run_anything,
  run_through, run_piece, fullmatch,
}

-- A text without the character `a`.
abbrev pub Avoids : ℕ → List ℕ → Type 0
Avoids a [] = Unit
Avoids a (c ∷ s) = (c ≢ a) × Avoids a s

-- The texts that one piece stands for.
pub data Denotes : Piece → List ℕ → Type 0 where
  no_directory : Denotes leading []
  directories : (w : List ℕ) → Avoids newline w → Denotes leading (w ++ slash ∷ [])
  all_of : (w : List ℕ) → Avoids newline w → Denotes anything w
  segment : (w : List ℕ) → Avoids slash w → Denotes within w
  any_one : (c : ℕ) → c ≢ slash → Denotes one (c ∷ [])
  same : (c : ℕ) → Denotes (literal c) (c ∷ [])

-- A text that is cut into the texts of the pieces, in order.
pub data Matches : List Piece → List ℕ → Type 0 where
  done : Matches [] []
  cut :
      {p : Piece} {ps : List Piece} (w rest s : List ℕ)
      → Denotes p w
      → Matches ps rest
      → s ≡ w ++ rest
      → Matches (p ∷ ps) s

module _ (k : List ℕ → Bool) where
  -- A cut of `s` whose second part the continuation accepts.
  abbrev Cut : (List ℕ → Type 0) → List ℕ → Type 0
  Cut P s = (w : List ℕ) × (rest : List ℕ) × P w × (k rest ≡ true) × (s ≡ w ++ rest)

  run_within-Cut : (s : List ℕ) → run_within k s ≡ true → Cut (Avoids slash) s
  unfolding run_within
  run_within-Cut [] h = ([], [], tt, h, refl)
  run_within-Cut (c ∷ s) h = elim (Bool-cases (k (c ∷ s))) [
    | inl e ↦ ([], c ∷ s, tt, e, refl)
    | inr e ↦
        let (w, rest, a, b, q) = run_within-Cut s (ground arith) in
        (c ∷ w, rest, (ground arith, a), b, ap (λ t. c ∷ t) q)
  ]

  Cut-run_within :
      (w rest : List ℕ) → Avoids slash w → k rest ≡ true → run_within k (w ++ rest) ≡ true
  unfolding run_within
  Cut-run_within [] [] a h = h
  Cut-run_within [] (c ∷ s) a h = ground arith
  Cut-run_within (c ∷ w) rest (n, a) h = ground (arith, Cut-run_within w rest a h)

  run_anything-Cut : (s : List ℕ) → run_anything k s ≡ true → Cut (Avoids newline) s
  unfolding run_anything
  run_anything-Cut [] h = ([], [], tt, h, refl)
  run_anything-Cut (c ∷ s) h = elim (Bool-cases (k (c ∷ s))) [
    | inl e ↦ ([], c ∷ s, tt, e, refl)
    | inr e ↦
        let (w, rest, a, b, q) = run_anything-Cut s (ground arith) in
        (c ∷ w, rest, (ground arith, a), b, ap (λ t. c ∷ t) q)
  ]

  Cut-run_anything :
      (w rest : List ℕ) → Avoids newline w → k rest ≡ true → run_anything k (w ++ rest) ≡ true
  unfolding run_anything
  Cut-run_anything [] [] a h = h
  Cut-run_anything [] (c ∷ s) a h = ground arith
  Cut-run_anything (c ∷ w) rest (n, a) h = ground (arith, Cut-run_anything w rest a h)

  -- The same, with a slash between the two parts.
  abbrev CutAtSlash : List ℕ → Type 0
  CutAtSlash s =
      (w : List ℕ) × (rest : List ℕ) × Avoids newline w
      × (k rest ≡ true)
      × (s ≡ (w ++ slash ∷ []) ++ rest)

  run_through-Cut : (s : List ℕ) → run_through k s ≡ true → CutAtSlash s
  unfolding run_through
  run_through-Cut [] h = absurd (ground arith)
  run_through-Cut (c ∷ s) h = elim (Bool-cases (c == slash && k s)) [
    | inl e ↦ ([], s, tt, ground arith, ground arith)
    | inr e ↦
        let (w, rest, a, b, q) = run_through-Cut s (ground arith) in
        (c ∷ w, rest, (ground arith, a), b, ap (λ t. c ∷ t) q)
  ]

  Cut-run_through :
      (w rest : List ℕ)
      → Avoids newline w
      → k rest ≡ true
      → run_through k ((w ++ slash ∷ []) ++ rest) ≡ true
  unfolding run_through
  Cut-run_through [] rest a h = ground arith
  Cut-run_through (c ∷ w) rest (n, a) h = ground (arith, Cut-run_through w rest a h)

run_piece-Denotes :
    (p : Piece) (k : List ℕ → Bool) (s : List ℕ)
    → run_piece p k s ≡ true
    → (w : List ℕ) × (rest : List ℕ) × Denotes p w × (k rest ≡ true) × (s ≡ w ++ rest)
unfolding run_piece
run_piece-Denotes leading k s h = elim (Bool-cases (k s)) [
  | inl e ↦ ([], s, no_directory, e, refl)
  | inr e ↦
      let (w, rest, a, b, q) = run_through-Cut k s (ground arith) in
      (w ++ slash ∷ [], rest, directories w a, b, q)
]
run_piece-Denotes anything k s h =
    let (w, rest, a, b, q) = run_anything-Cut k s h in (w, rest, all_of w a, b, q)
run_piece-Denotes within k s h =
    let (w, rest, a, b, q) = run_within-Cut k s h in (w, rest, segment w a, b, q)
run_piece-Denotes one k [] h = absurd (ground arith)
run_piece-Denotes one k (c ∷ s) h = (c ∷ [], s, any_one c (ground arith), ground arith, refl)
run_piece-Denotes (literal a) k [] h = absurd (ground arith)
run_piece-Denotes (literal a) k (c ∷ s) h = (a ∷ [], s, same a, ground arith, ground arith)

Denotes-run_piece :
    {p : Piece} (k : List ℕ → Bool) {w : List ℕ} (rest : List ℕ)
    → Denotes p w
    → k rest ≡ true
    → run_piece p k (w ++ rest) ≡ true
unfolding run_piece
Denotes-run_piece k rest no_directory h = ground arith
Denotes-run_piece k rest (directories w a) h = ground (arith, Cut-run_through k w rest a h)
Denotes-run_piece k rest (all_of w a) h = Cut-run_anything k w rest a h
Denotes-run_piece k rest (segment w a) h = Cut-run_within k w rest a h
Denotes-run_piece k rest (any_one c n) h = ground arith
Denotes-run_piece k rest (same c) h = ground arith

fullmatch-Matches : (ps : List Piece) (s : List ℕ) → fullmatch ps s ≡ true → Matches ps s
unfolding fullmatch
fullmatch-Matches [] [] h = done
fullmatch-Matches [] (c ∷ s) h = absurd (ground arith)
fullmatch-Matches (p ∷ ps) s h =
    let (w, rest, d, b, q) = run_piece-Denotes p (fullmatch ps) s h in
    cut w rest s d (fullmatch-Matches ps rest b) q

Matches-fullmatch : {ps : List Piece} {s : List ℕ} → Matches ps s → fullmatch ps s ≡ true
unfolding fullmatch
Matches-fullmatch done = refl
Matches-fullmatch (cut {p} {ps} w rest s d m q) =
    rw q (Denotes-run_piece (fullmatch ps) rest d (Matches-fullmatch m))

-- The backtracking matcher accepts exactly the texts that can be cut into texts of the pieces.
pub fullmatch_iff : (ps : List Piece) (s : List ℕ) → (fullmatch ps s ≡ true) ↔ Matches ps s
fullmatch_iff ps s = (fullmatch-Matches ps s, Matches-fullmatch)
