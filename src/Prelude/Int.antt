-- ===== src/Prelude/Int.antt =====
-- Python's integers, and their comparisons as tests.
use Prim.Native.Nat.{ℕ, suc, ◌+◌, ◌-◌}
use mathlib.Core.Path.{◌≡◌}
use native.Mathlib.Omega.{arith}
use mathlib.Core.Bool.{Bool}
use wastech_orchestrator.Prelude.Tests.{ltb, leb, ◌==◌, if◌then◌else◌}

-- `negsuc n` is -(n + 1).
pub data ℤ : Type 0 where
  pos : ℕ → ℤ
  negsuc : ℕ → ℤ

abbrev pub pos_part : ℤ → ℕ
pos_part (pos n) = n
pos_part (negsuc n) = 0

abbrev pub neg_part : ℤ → ℕ
neg_part (pos n) = 0
neg_part (negsuc n) = suc n

-- a < b, a <= b and a == b
abbrev pub lt_int : ℤ → ℤ → Bool
lt_int a b = ltb (pos_part a + neg_part b) (pos_part b + neg_part a)

abbrev pub le_int : ℤ → ℤ → Bool
le_int a b = leb (pos_part a + neg_part b) (pos_part b + neg_part a)

abbrev pub eq_int : ℤ → ℤ → Bool
eq_int a b = pos_part a + neg_part b == pos_part b + neg_part a

-- The integer m - n.
abbrev pub difference : ℕ → ℕ → ℤ
difference m n = if leb n m then pos (m - n) else negsuc (n - suc m)

infixl 60 ◌+ℤ◌ ◌-ℤ◌
abbrev pub ◌+ℤ◌ : ℤ → ℤ → ℤ
a +ℤ b = difference (pos_part a + pos_part b) (neg_part a + neg_part b)

abbrev pub ◌-ℤ◌ : ℤ → ℤ → ℤ
a -ℤ b = difference (pos_part a + neg_part b) (pos_part b + neg_part a)

pub sub_add : (a b : ℤ) → (a -ℤ b) +ℤ b ≡ a
sub_add (pos a) (pos b) = ground arith
sub_add (pos a) (negsuc b) = ground arith
sub_add (negsuc a) (pos b) = ground arith
sub_add (negsuc a) (negsuc b) = ground arith

-- A difference is negative where the first is less than the second.
pub sub_lt : (a b : ℤ) → lt_int (a -ℤ b) (pos 0) ≡ lt_int a b
sub_lt (pos a) (pos b) = ground arith
sub_lt (pos a) (negsuc b) = ground arith
sub_lt (negsuc a) (pos b) = ground arith
sub_lt (negsuc a) (negsuc b) = ground arith
