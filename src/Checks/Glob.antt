-- ===== src/Checks/Glob.antt =====
-- globmatch.py: repo-relative globs. The pieces of the regular expression that `compile_glob` joins
-- are a data type, and `fullmatch` is Python's `re` on such an expression: a dot matches anything but
-- a newline, and a negated class matches a newline too. Texts are lists of code points.
pub mod Meaning
pub mod Depth
pub mod Globs
pub mod Paths
use wastech_orchestrator.Prelude.{
  ℕ, ◌==◌, Bool, true, false, not, ◌&&◌, ◌||◌, String, List, [], ◌∷◌, map, any, if◌then◌else◌,
}
use wastech_orchestrator.Prelude.Chars.{codes}

pub data Piece : Type 0 where
  -- `(?:.*/)?`, `.*`, `[^/]*` and `[^/]`
  leading anything within one : Piece
  literal : ℕ → Piece

abbrev pub slash : ℕ
slash = b'/'

abbrev pub newline : ℕ
newline = 10

abbrev pub star : ℕ
star = b'*'

-- A character that starts no `**`.
abbrev pub piece : ℕ → Piece
piece c = if c == star then within else if c == b'?' then one else literal c

unfoldable pub pieces : List ℕ → List Piece
pieces [] = []
pieces (a ∷ []) = piece a ∷ []
pieces (a ∷ b ∷ []) = elim (a == star && b == star) [
  | true ↦ anything ∷ []
  | false ↦ piece a ∷ pieces (b ∷ [])
]
pieces (a ∷ b ∷ c ∷ s) = elim (a == star && b == star) [
  | true ↦ elim (c == slash) [ true ↦ leading ∷ pieces s | false ↦ anything ∷ pieces (c ∷ s) ]
  | false ↦ piece a ∷ pieces (b ∷ c ∷ s)
]

-- `.replace("\\", "/")`
abbrev pub normalized : List ℕ → List ℕ
normalized s = map (λ c. if c == b'\\' then slash else c) s

unfoldable pub compile_glob : String → List Piece
unfolding pieces
compile_glob pattern = pieces (normalized (codes pattern))

-- `[^/]*`, `.*` and `.*/`, and what follows them.
unfoldable pub run_within : (List ℕ → Bool) → List ℕ → Bool
run_within k [] = k []
run_within k (c ∷ s) = k (c ∷ s) || (not (c == slash) && run_within k s)

unfoldable pub run_anything : (List ℕ → Bool) → List ℕ → Bool
run_anything k [] = k []
run_anything k (c ∷ s) = k (c ∷ s) || (not (c == newline) && run_anything k s)

unfoldable pub run_through : (List ℕ → Bool) → List ℕ → Bool
run_through k [] = false
run_through k (c ∷ s) = (c == slash && k s) || (not (c == newline) && run_through k s)

unfoldable pub run_piece : Piece → (List ℕ → Bool) → List ℕ → Bool
unfolding run_within run_anything run_through
run_piece leading k s = k s || run_through k s
run_piece anything k s = run_anything k s
run_piece within k s = run_within k s
run_piece one k [] = false
run_piece one k (c ∷ s) = not (c == slash) && k s
run_piece (literal a) k [] = false
run_piece (literal a) k (c ∷ s) = a == c && k s

unfoldable pub fullmatch : List Piece → List ℕ → Bool
unfolding run_piece
fullmatch [] [] = true
fullmatch [] (c ∷ s) = false
fullmatch (p ∷ ps) s = run_piece p (fullmatch ps) s

unfoldable pub path_matches_any : String → List String → Bool
unfolding compile_glob fullmatch
path_matches_any path patterns =
    any (λ pattern. fullmatch (compile_glob pattern) (normalized (codes path))) patterns
