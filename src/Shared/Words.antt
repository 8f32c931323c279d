-- ===== src/Shared/Words.antt =====
-- Unsigned machine words: a value is a native number, and its range is a hypothesis or an invariant.
use Prim.Native.Nat.{ℕ, ◌+◌, ◌%◌, min}

abbrev pub u32_max : ℕ
u32_max = 4294967295

-- A result that a release build keeps modulo 2^32.
abbrev pub u32 : ℕ → ℕ
u32 n = n % 4294967296

-- `a.saturating_add(b)` on u32
abbrev pub saturating_add : ℕ → ℕ → ℕ
saturating_add a b = min (a + b) u32_max
