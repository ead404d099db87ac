-- ===== src/Prelude/Text.antt =====
-- Texts: joining them, membership in a set of texts, and facts about reserved keys.
use Prim.Native.String.{String}
use Prim.Native.String
use mathlib.Core.Path.{◌≡◌}
use mathlib.Core.Bool.{Bool, true, false, ◌||◌}
use mathlib.Core.List.{List, [], ◌∷◌}
use text.Mathlib.Text.{◌==◌}
use text.Mathlib.TextEquality.{eq_iff}
use native.Mathlib.Omega.{arith}
use wastech_orchestrator.Prelude.Lists.{In}

-- The pieces of an f-string, joined.
abbrev pub concat : String → String → String
concat s t = String.◌++◌ s t

-- Python's `s in xs`, for a set or a sequence of texts.
abbrev pub contains : List String → String → Bool
contains [] s = false
contains (x ∷ xs) s = x == s || contains xs s

pub contains-In : (xs : List String) (s : String) → contains xs s ≡ true → In s xs
contains-In [] s h = ground arith
contains-In (x ∷ xs) s h = ground (arith, eq_iff x s, contains-In xs s)

pub In-contains : (xs : List String) (s : String) → In s xs → contains xs s ≡ true
In-contains [] s h = absurd h
In-contains (x ∷ xs) s h = ground (arith, eq_iff x s, In-contains xs s)
