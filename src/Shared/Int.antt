-- ===== src/Shared/Int.antt =====
-- Signed integers over the native numbers, under the library's names, and 64-bit wrap-around.
use nidavellir.Shared.Tests.{ltb, leb, if◌then◌else◌}
use Prim.Native.Nat.{ℕ, suc, ◌+◌, ◌-◌, ◌*◌, ◌%◌, ◌≤◌, ◌<◌}
use mathlib.Core.Path.{◌≡◌}
use mathlib.Core.Bool.{Bool}
use native.Mathlib.Omega.{arith}

-- `negsuc n` is -(n + 1).
pub data ℤ : Type 0 where
  pos : ℕ → ℤ
  negsuc : ℕ → ℤ

abbrev pub pos_part : ℤ → ℕ
pos_part (pos n) = n
pos_part (negsuc n) = 0

abbrev pub neg_part : ℤ → ℕ
neg_part (pos n) = 0
neg_part (negsuc n) = suc n

-- a - b, as an integer.
abbrev pub sub_ℕ : ℕ → ℕ → ℤ
sub_ℕ a b = if leb b a then pos (a - b) else negsuc (b - a - 1)

infixl 65 ◌-ℤ◌
infixl 65 ◌+ℤ◌
infixl 70 ◌*ℤ◌
infix 50 ◌≤ℤ◌
unfoldable pub ◌-ℤ◌ : ℤ → ℤ → ℤ
a -ℤ b = sub_ℕ (pos_part a + neg_part b) (neg_part a + pos_part b)

unfoldable pub ◌+ℤ◌ : ℤ → ℤ → ℤ
a +ℤ b = sub_ℕ (pos_part a + pos_part b) (neg_part a + neg_part b)

abbrev pub ◌≤ℤ◌ : ℤ → ℤ → Type 0
a ≤ℤ b = pos_part a + neg_part b ≤ pos_part b + neg_part a

abbrev pub leb_ℤ : ℤ → ℤ → Bool
leb_ℤ a b = leb (pos_part a + neg_part b) (pos_part b + neg_part a)

-- An i64 result that a release build keeps modulo 2^64: the bits of the exact result, read again as
-- two's complement.
unfoldable pub wrap_i64 : ℤ → ℤ
wrap_i64 (pos n) =
    let m = n % 18446744073709551616 in
    if ltb m 9223372036854775808 then pos m else negsuc (18446744073709551616 - m - 1)
wrap_i64 (negsuc n) =
    let m = n % 18446744073709551616 in
    if ltb m 9223372036854775808 then negsuc m else pos (18446744073709551616 - m - 1)

-- The same for i32.
unfoldable pub wrap_i32 : ℤ → ℤ
wrap_i32 (pos n) =
    let m = n % 4294967296 in if ltb m 2147483648 then pos m else negsuc (4294967296 - m - 1)
wrap_i32 (negsuc n) =
    let m = n % 4294967296 in if ltb m 2147483648 then negsuc m else pos (4294967296 - m - 1)

-- `n as i32` for a u32, and `z as u32` for an i32.
unfoldable pub as_i32 : ℕ → ℤ
unfolding wrap_i32
as_i32 n = wrap_i32 (pos n)

unfoldable pub as_u32 : ℤ → ℕ
as_u32 (pos n) = n % 4294967296
as_u32 (negsuc n) = 4294967296 - n % 4294967296 - 1

-- `*` by a constant, before the wrap.
unfoldable pub ◌*ℤ◌ : ℤ → ℕ → ℤ
pos n *ℤ k = pos (n * k)
negsuc n *ℤ k = sub_ℕ 0 (suc n * k)

-- `i64::abs`: the least value has no positive counterpart and stays what it is.
unfoldable pub abs_i64 : ℤ → ℤ
unfolding wrap_i64
abs_i64 (pos n) = pos n
abs_i64 (negsuc n) = wrap_i64 (pos (suc n))

-- The distance of two integers, as a number.
abbrev pub dist : ℤ → ℤ → ℕ
dist a b =
    (pos_part a + neg_part b)
    - (pos_part b + neg_part a)
    + ((pos_part b + neg_part a) - (pos_part a + neg_part b))

-- Values this small can be subtracted without a wrap.
abbrev pub IsSmall : ℤ → Type 0
IsSmall a = (pos_part a < 4611686018427387904) × (neg_part a < 4611686018427387904)

pub abs_sub-eq-dist :
    (a b : ℤ) → IsSmall a → IsSmall b → abs_i64 (wrap_i64 (a -ℤ b)) ≡ pos (dist a b)
unfolding abs_i64 wrap_i64 ◌-ℤ◌
abs_sub-eq-dist a b ha hb = ground arith
