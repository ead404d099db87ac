-- ===== src/Prelude/Chars.antt =====
-- Whether a character occurs in a text, and what joining does to it.
use Prim.Native.Nat.{ℕ}
use Prim.Native.Char.{code}
use Prim.Native.String.{String}
use mathlib.Core.Path.{◌≡◌, ap}
use mathlib.Core.List.{List, [], ◌∷◌}
use mathlib.Core.Bool.{Bool, true, false, ◌||◌}
use mathlib.Core.Logic.{◌≢◌}
use native.Mathlib.Omega.{arith}
use text.Mathlib.TextLemmas.{nil-append, cons-append}
use wastech_orchestrator.Prelude.Tests.{◌==◌}
use wastech_orchestrator.Prelude.Text.{concat}

-- Some character of the text has the code `c`.
unfoldable pub occurs : ℕ → String → Bool
occurs c String.[] = false
occurs c (String.◌∷◌ x s) = code x == c || occurs c s

pub occurs-concat : (c : ℕ) (s t : String) → occurs c (concat s t) ≡ (occurs c s || occurs c t)
unfolding occurs
occurs-concat c String.[] t = ap (occurs c) (nil-append t)
occurs-concat c (String.◌∷◌ x s) t =
    ground (arith, ap (occurs c) (cons-append x s t), occurs-concat c s t)

-- Texts that differ in a character are different.
pub ne_of_occurs : (c : ℕ) (s t : String) → occurs c s ≡ true → occurs c t ≡ false → s ≢ t
ne_of_occurs c s t h k e = cc (ap (occurs c) e)

-- The code points of a text.
abbrev pub codes : String → List ℕ
codes String.[] = []
codes (String.◌∷◌ c s) = code c ∷ codes s
