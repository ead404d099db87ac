-- ===== src/Checks/Glob/Depth.antt =====
-- globmatch.py: a glob without `**` stays at its own depth.
use wastech_orchestrator.Prelude.{
  ℕ, ◌+◌, ◌==◌, ◌≡◌, refl, ap, ◌∙◌, Bool, true, false, ◌&&◌, ◌||◌, String, List, [], ◌∷◌, ◌++◌, all,
  arith, if◌then◌else◌,
}
use wastech_orchestrator.Prelude.Chars.{codes}
use wastech_orchestrator.Checks.Glob.{
  Piece, leading, anything, within, one, literal, slash, star, piece, pieces, normalized,
  compile_glob, fullmatch,
}
use wastech_orchestrator.Checks.Glob.Meaning.{
  Avoids, Denotes, no_directory, directories, all_of, segment, any_one, same, Matches, done, cut,
  fullmatch_iff,
}

-- How many separators a text has.
abbrev pub slashes : List ℕ → ℕ
slashes [] = 0
slashes (c ∷ s) = (if c == slash then 1 else 0) + slashes s

-- Two stars stand next to each other.
unfoldable pub has_double_star : List ℕ → Bool
has_double_star [] = false
has_double_star (a ∷ []) = false
has_double_star (a ∷ b ∷ s) = (a == star && b == star) || has_double_star (b ∷ s)

-- A piece that stays within a segment, or is one character.
abbrev is_local : Piece → Bool
is_local leading = false
is_local anything = false
is_local within = true
is_local one = true
is_local (literal c) = true

abbrev slashes_of : List Piece → ℕ
slashes_of [] = 0
slashes_of (literal c ∷ ps) = (if c == slash then 1 else 0) + slashes_of ps
slashes_of (leading ∷ ps) = slashes_of ps
slashes_of (anything ∷ ps) = slashes_of ps
slashes_of (within ∷ ps) = slashes_of ps
slashes_of (one ∷ ps) = slashes_of ps

slashes-append : (s t : List ℕ) → slashes (s ++ t) ≡ slashes s + slashes t
slashes-append [] t = omega arith
slashes-append (c ∷ s) t = omega (arith, slashes-append s t)

Avoids-slashes : (w : List ℕ) → Avoids slash w → slashes w ≡ 0
Avoids-slashes [] a = refl
Avoids-slashes (c ∷ w) (n, a) = ground (arith, Avoids-slashes w a)

Denotes-slashes :
    {p : Piece} {w : List ℕ} → Denotes p w → is_local p ≡ true → slashes w ≡ slashes_of (p ∷ [])
Denotes-slashes no_directory l = absurd (ground arith)
Denotes-slashes (directories w a) l = absurd (ground arith)
Denotes-slashes (all_of w a) l = absurd (ground arith)
Denotes-slashes (segment w a) l = Avoids-slashes w a
Denotes-slashes (any_one c n) l = ground arith
Denotes-slashes (same c) l = refl

slashes_of-cons :
    (p : Piece) (ps : List Piece) → slashes_of (p ∷ ps) ≡ slashes_of (p ∷ []) + slashes_of ps
slashes_of-cons leading ps = omega arith
slashes_of-cons anything ps = omega arith
slashes_of-cons within ps = omega arith
slashes_of-cons one ps = omega arith
slashes_of-cons (literal c) ps = omega arith

Matches-slashes :
    {ps : List Piece} {s : List ℕ}
    → Matches ps s
    → all is_local ps ≡ true
    → slashes s ≡ slashes_of ps
Matches-slashes done l = refl
Matches-slashes (cut {p} {ps} w rest s d m q) l = omega (
  arith,
  ap slashes q ∙ slashes-append w rest,
  Denotes-slashes d (ground (arith, l)),
  Matches-slashes m (ground (arith, l)),
  slashes_of-cons p ps,
)

piece_local : (c : ℕ) → (is_local (piece c) ≡ true) × (slashes_of (piece c ∷ []) ≡ slashes (c ∷ []))
piece_local c = ground arith

grow :
    (a : ℕ) (ps : List Piece) (t : List ℕ)
    → (all is_local ps ≡ true) × (slashes_of ps ≡ slashes t)
    → (all is_local (piece a ∷ ps) ≡ true) × (slashes_of (piece a ∷ ps) ≡ slashes (a ∷ t))
grow a ps t (l, e) = (
  ground (arith, piece_local a),
  omega (arith, e, slashes_of-cons (piece a) ps, (piece_local a).1),
)

pieces_local :
    (p : List ℕ)
    → has_double_star p ≡ false
    → (all is_local (pieces p) ≡ true) × (slashes_of (pieces p) ≡ slashes p)
unfolding has_double_star pieces
pieces_local [] h = (refl, refl)
pieces_local (a ∷ []) h = ground (arith, piece_local a)
pieces_local (a ∷ b ∷ []) h =
    let e : (a == star && b == star) ≡ false = ground arith in
    rw (pieces, e) (grow a (pieces (b ∷ [])) (b ∷ []) (pieces_local (b ∷ []) refl))
pieces_local (a ∷ b ∷ c ∷ s) h =
    let e : (a == star && b == star) ≡ false = ground arith in
    rw (pieces, e)
      (grow a (pieces (b ∷ c ∷ s)) (b ∷ c ∷ s) (pieces_local (b ∷ c ∷ s) (ground (arith, h))))

-- A path that a glob without `**` matches has as many separators as the glob.
pub fullmatch-slashes :
    (pattern : String) (s : List ℕ)
    → has_double_star (normalized (codes pattern)) ≡ false
    → fullmatch (compile_glob pattern) s ≡ true
    → slashes s ≡ slashes (normalized (codes pattern))
unfolding compile_glob
fullmatch-slashes pattern s single h =
    let p = normalized (codes pattern) in
    let (l, e) = pieces_local p single in Matches-slashes ((fullmatch_iff (pieces p) s).0 h) l ∙ e
