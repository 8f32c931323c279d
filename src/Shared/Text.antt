-- ===== src/Shared/Text.antt =====
-- Text that the program walks: a list of code points.
use Prim.Native.Nat.{ℕ}
use mathlib.Core.List.{List}

abbrev pub Text : Type 0
Text = List ℕ
