-- ===== src/Prelude/Int.antt =====
-- Signed integers over the native numbers: C's `int` and `long long` where a value can be negative.
use Prim.Native.Nat.{ℕ, suc, ◌+◌, ◌-◌}
use mathlib.Core.Path.{◌≡◌}
use mathlib.Core.Bool.{Bool}
use native.Mathlib.Omega.{arith}
use sprout_lang.Prelude.Tests.{ltb, leb, ◌==◌, if◌then◌else◌}

-- `negsuc n` is -(n + 1).
pub data ℤ : Type 0 where
  pos : ℕ → ℤ
  negsuc : ℕ → ℤ

abbrev pub pos_part : ℤ → ℕ
pos_part (pos n) = n
pos_part (negsuc n) = 0

abbrev pub neg_part : ℤ → ℕ
neg_part (pos n) = 0
neg_part (negsuc n) = suc n

-- a - b, as an integer.
abbrev pub sub_ℕ : ℕ → ℕ → ℤ
sub_ℕ a b = if leb b a then pos (a - b) else negsuc (b - a - 1)

infixl 65 ◌-ℤ◌
abbrev pub ◌-ℤ◌ : ℤ → ℤ → ℤ
a -ℤ b = sub_ℕ (pos_part a + neg_part b) (neg_part a + pos_part b)

abbrev pub ltb_ℤ : ℤ → ℤ → Bool
ltb_ℤ a b = ltb (pos_part a + neg_part b) (pos_part b + neg_part a)

abbrev pub eqb_ℤ : ℤ → ℤ → Bool
eqb_ℤ a b = pos_part a + neg_part b == pos_part b + neg_part a

-- Comparisons of a difference with a constant, read on the two numbers.
pub sub_ℕ-gt_one : (a b : ℕ) → ltb_ℤ (pos 1) (sub_ℕ a b) ≡ ltb (b + 1) a
sub_ℕ-gt_one a b = ground arith

pub sub_ℕ-lt_neg_one : (a b : ℕ) → ltb_ℤ (sub_ℕ a b) (negsuc 0) ≡ ltb (a + 1) b
sub_ℕ-lt_neg_one a b = ground arith

pub sub_ℕ-lt_zero : (a b : ℕ) → ltb_ℤ (sub_ℕ a b) (pos 0) ≡ ltb a b
sub_ℕ-lt_zero a b = ground arith

pub sub_ℕ-gt_zero : (a b : ℕ) → ltb_ℤ (pos 0) (sub_ℕ a b) ≡ ltb b a
sub_ℕ-gt_zero a b = ground arith
