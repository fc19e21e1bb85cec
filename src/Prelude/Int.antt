-- ===== src/Prelude/Int.antt =====
-- Signed integers over the native numbers, and Go's 64-bit `int`, which wraps.
use Prim.Native.Nat.{ℕ, suc, ◌+◌, ◌-◌, ◌%◌, ◌^◌, ◌≤◌, ◌<◌}
use mathlib.Core.Path.{◌≡◌}
use mathlib.Core.Bool.{Bool}
use native.Mathlib.Omega.{arith}
use talyvor_docs.Prelude.Tests.{ltb, leb, if◌then◌else◌}

-- `negsuc n` is -(n + 1).
pub data ℤ : Type 0 where
  pos : ℕ → ℤ
  negsuc : ℕ → ℤ

abbrev pub pos_part : ℤ → ℕ
pos_part (pos n) = n
pos_part (negsuc n) = 0

abbrev pub neg_part : ℤ → ℕ
neg_part (pos n) = 0
neg_part (negsuc n) = suc n

abbrev pub ltb_ℤ : ℤ → ℤ → Bool
ltb_ℤ a b = ltb (pos_part a + neg_part b) (pos_part b + neg_part a)

abbrev pub leb_ℤ : ℤ → ℤ → Bool
leb_ℤ a b = leb (pos_part a + neg_part b) (pos_part b + neg_part a)

abbrev pub half_range : ℕ
half_range = 2 ^ 63

abbrev pub full_range : ℕ
full_range = 2 ^ 64

-- The value of `p - n` as an `int`: its residue modulo 2^64, read as two's complement.
unfoldable pub int_of_difference : ℕ → ℕ → ℤ
int_of_difference p n =
    let bits = (p + (full_range - n % full_range)) % full_range in
    if ltb bits half_range then pos bits else negsuc (full_range - 1 - bits)

-- Go's `a + b` and `a - b` on `int`.
unfoldable pub add_int : ℤ → ℤ → ℤ
unfolding int_of_difference
add_int a b = int_of_difference (pos_part a + pos_part b) (neg_part a + neg_part b)

unfoldable pub sub_int : ℤ → ℤ → ℤ
unfolding int_of_difference
sub_int a b = int_of_difference (pos_part a + neg_part b) (neg_part a + pos_part b)

-- Where the sum of two offsets fits, nothing wraps.
pub add_int-pos : (a b : ℕ) → a + b < half_range → add_int (pos a) (pos b) ≡ pos (a + b)
unfolding add_int
add_int-pos a b h = ground arith

pub sub_int-pos :
    (a b : ℕ)
    → a < half_range
    → b ≤ half_range
    → sub_int (pos a) (pos b) ≡ (if leb b a then pos (a - b) else negsuc (b - a - 1))
unfolding sub_int
sub_int-pos a b h k = ground arith
