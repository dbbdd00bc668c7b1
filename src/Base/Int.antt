-- ===== src/Base/Int.antt =====
-- Go's int, int64 and uint64. Sums and orders of integers go through their two parts, which are
-- numbers that `omega` reads; the machine operations wrap around at 2^64.
use Prim.Native.Nat.{ℕ, suc, ◌+◌, ◌-◌, ◌%◌, ◌≤◌, ◌<◌}
use mathlib.Core.Path.{◌≡◌}
use mathlib.Core.Bool.{Bool}
use native.Mathlib.Omega.{arith}
use orchard_gh_bridge.Base.Tests.{ltb, leb, ◌==◌, if◌then◌else◌}

-- `negsuc n` is -(n + 1).
pub data ℤ : Type 0 where
  pos : ℕ → ℤ
  negsuc : ℕ → ℤ

abbrev pub pos_part : ℤ → ℕ
pos_part (pos n) = n
pos_part (negsuc n) = 0

abbrev pub neg_part : ℤ → ℕ
neg_part (pos n) = 0
neg_part (negsuc n) = suc n

-- a - b, as an integer.
abbrev pub sub_ℕ : ℕ → ℕ → ℤ
sub_ℕ a b = if leb b a then pos (a - b) else negsuc (b - a - 1)

infix 50 ◌≤ℤ◌ ◌<ℤ◌
abbrev pub ◌≤ℤ◌ : ℤ → ℤ → Type 0
a ≤ℤ b = pos_part a + neg_part b ≤ pos_part b + neg_part a

abbrev pub ◌<ℤ◌ : ℤ → ℤ → Type 0
a <ℤ b = pos_part a + neg_part b < pos_part b + neg_part a

abbrev pub ltb_ℤ : ℤ → ℤ → Bool
ltb_ℤ a b = ltb (pos_part a + neg_part b) (pos_part b + neg_part a)

abbrev pub leb_ℤ : ℤ → ℤ → Bool
leb_ℤ a b = leb (pos_part a + neg_part b) (pos_part b + neg_part a)

abbrev pub eqb_ℤ : ℤ → ℤ → Bool
eqb_ℤ a b = (pos_part a + neg_part b) == (pos_part b + neg_part a)

abbrev pub two_63 : ℕ
two_63 = 9223372036854775808

abbrev pub two_64 : ℕ
two_64 = 18446744073709551616

-- The integer of a 64-bit pattern, in two's complement: int(n) of a uint64 n.
unfoldable pub to_int : ℕ → ℤ
to_int n = if ltb n two_63 then pos n else negsuc (two_64 - 1 - n)

-- The 64-bit pattern of a - b, two numbers.
abbrev pattern_of : ℕ → ℕ → ℕ
pattern_of a b = (a % two_64 + (two_64 - b % two_64)) % two_64

-- a + b and a - b of type int, with wrap-around.
unfoldable pub add_int : ℤ → ℤ → ℤ
unfolding to_int
add_int a b = to_int (pattern_of (pos_part a + pos_part b) (neg_part a + neg_part b))

pub sub_int : ℤ → ℤ → ℤ
unfolding to_int
sub_int a b = to_int (pattern_of (pos_part a + neg_part b) (neg_part a + pos_part b))

-- A value of type int.
abbrev pub IsInt : ℤ → Type 0
IsInt a = (pos_part a < two_63) × (neg_part a ≤ two_63)

-- Where the exact sum is a value of type int, the machine's sum is it.
pub add_int_parts :
    (a b : ℤ)
    → pos_part a + pos_part b < two_63 + (neg_part a + neg_part b)
    → neg_part a + neg_part b ≤ two_63 + (pos_part a + pos_part b)
    → pos_part (add_int a b) + neg_part a + neg_part b
      ≡ neg_part (add_int a b) + pos_part a + pos_part b
unfolding add_int
add_int_parts a b h k = ground arith

pub sub_int_parts :
    (a b : ℤ)
    → pos_part a + neg_part b < two_63 + (neg_part a + pos_part b)
    → neg_part a + pos_part b ≤ two_63 + (pos_part a + neg_part b)
    → pos_part (sub_int a b) + neg_part a + pos_part b
      ≡ neg_part (sub_int a b) + pos_part a + neg_part b
unfolding sub_int
sub_int_parts a b h k = ground arith

pub eq_of_parts : (a b : ℤ) → pos_part a + neg_part b ≡ pos_part b + neg_part a → a ≡ b
eq_of_parts a b h = ground arith

-- Two numbers in range: the exact difference, and the exact sum where it fits.
pub sub_int_pos : (a b : ℕ) → a < two_63 → b < two_63 → sub_int (pos a) (pos b) ≡ sub_ℕ a b
unfolding sub_int
sub_int_pos a b h k = ground arith

pub add_int_pos : (a b : ℕ) → a + b < two_63 → add_int (pos a) (pos b) ≡ pos (a + b)
unfolding add_int
add_int_pos a b h = ground arith

pub to_int_small : (a : ℕ) → a < two_63 → to_int a ≡ pos a
unfolding to_int
to_int_small a h = ground arith

pub sub_int_le : (a b : ℕ) → b ≤ a → a < two_63 → sub_int (pos a) (pos b) ≡ pos (a - b)
sub_int_le a b h k = ground (arith, sub_int_pos a b)
