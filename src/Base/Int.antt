-- ===== src/Base/Int.antt =====
-- Signed integers over the native numbers, under the library's names, and C++'s 32-bit `int`.
use Prim.Native.Nat.{ℕ, suc, ◌+◌, ◌-◌, ◌%◌, ◌≤◌, ◌<◌}
use mathlib.Core.Path.{◌≡◌}
use mathlib.Core.Bool.{Bool}
use native.Mathlib.Omega.{arith}
use mes_cpp.Base.Tests.{ltb, leb, ◌==◌, if◌then◌else◌}

-- `negsuc n` is -(n + 1).
pub data ℤ : Type 0 where
  pos : ℕ → ℤ
  negsuc : ℕ → ℤ

abbrev pub pos_part : ℤ → ℕ
pos_part (pos n) = n
pos_part (negsuc n) = 0

abbrev pub neg_part : ℤ → ℕ
neg_part (pos n) = 0
neg_part (negsuc n) = suc n

-- a - b, as an integer.
abbrev pub sub_ℕ : ℕ → ℕ → ℤ
sub_ℕ a b = if leb b a then pos (a - b) else negsuc (b - a - 1)

infixl 65 ◌+ℤ◌
infix 50 ◌≤ℤ◌
unfoldable pub ◌+ℤ◌ : ℤ → ℤ → ℤ
a +ℤ b = sub_ℕ (pos_part a + pos_part b) (neg_part a + neg_part b)

abbrev pub ◌≤ℤ◌ : ℤ → ℤ → Type 0
a ≤ℤ b = pos_part a + neg_part b ≤ pos_part b + neg_part a

abbrev pub ltb_ℤ : ℤ → ℤ → Bool
ltb_ℤ a b = ltb (pos_part a + neg_part b) (pos_part b + neg_part a)

abbrev pub leb_ℤ : ℤ → ℤ → Bool
leb_ℤ a b = leb (pos_part a + neg_part b) (pos_part b + neg_part a)

abbrev pub eqb_ℤ : ℤ → ℤ → Bool
eqb_ℤ a b = pos_part a + neg_part b == pos_part b + neg_part a

pub +ℤ_parts :
    (a b : ℤ)
    → pos_part (a +ℤ b) + neg_part a + neg_part b ≡ neg_part (a +ℤ b) + pos_part a + pos_part b
unfolding ◌+ℤ◌
+ℤ_parts a b = ground arith

pub eq_of_parts : (a b : ℤ) → pos_part a + neg_part b ≡ pos_part b + neg_part a → a ≡ b
eq_of_parts a b h = ground arith

pub ruleset int_laws = (arith, +ℤ_parts, eq_of_parts)

pub +ℤ_assoc : (a b c : ℤ) → a +ℤ b +ℤ c ≡ a +ℤ (b +ℤ c)
+ℤ_assoc a b c = omega int_laws

pub +ℤ_comm : (a b : ℤ) → a +ℤ b ≡ b +ℤ a
+ℤ_comm a b = omega int_laws

pub +ℤ_right_comm : (a b c : ℤ) → a +ℤ b +ℤ c ≡ a +ℤ c +ℤ b
+ℤ_right_comm a b c = omega int_laws

abbrev pub int_half : ℕ
int_half = 0x80000000

abbrev pub int_modulus : ℕ
int_modulus = 0x100000000

-- The `int` that the low 32 bits of a number stand for, in two's complement.
unfoldable pub int_of_bits : ℕ → ℤ
int_of_bits n =
    let b = n % int_modulus in if ltb b int_half then pos b else negsuc (int_modulus - b - 1)

-- The 32 bits of an integer.
unfoldable pub bits_of_int : ℤ → ℕ
bits_of_int (pos n) = n % int_modulus
bits_of_int (negsuc n) = int_modulus - 1 - n % int_modulus

-- `static_cast<int>`
unfoldable pub to_int : ℤ → ℤ
unfolding int_of_bits bits_of_int
to_int a = int_of_bits (bits_of_int a)

pub to_int-pos : (n : ℕ) → n < int_half → to_int (pos n) ≡ pos n
unfolding to_int
to_int-pos n h = ground arith

-- C++ `a + b` on `int`, with the wrap-around of two's complement.
unfoldable pub add_int : ℤ → ℤ → ℤ
unfolding int_of_bits bits_of_int
add_int a b = int_of_bits (bits_of_int a + bits_of_int b)

-- Without overflow it is the sum.
pub add_int-pos : (m n : ℕ) → m + n < int_half → add_int (pos m) (pos n) ≡ pos (m + n)
unfolding add_int
add_int-pos m n h = ground arith
