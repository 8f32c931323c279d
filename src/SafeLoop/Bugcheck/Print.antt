-- ===== src/SafeLoop/Bugcheck/Print.antt =====
-- Reading a bugcheck code back out of a message, `parse_bugcheck_code` of
-- `crates/core/src/safe_loop.rs`.
use nidavellir.Shared.{
  ℕ, ◌+◌, ◌-◌, ◌*◌, ◌≤◌, ◌<◌, ◌≡◌, refl, ltb, ◌==◌, Bool, false, ◌||◌, List, [], ◌∷◌, ◌++◌, map,
  none, some, arith, if◌then◌else◌, All, any, is_some,
}
use nidavellir.Shared.Text.{Text}
use nidavellir.SafeLoop.Bugcheck.{
  to_ascii_lowercase, hex_digit, after_0x, hex_prefix, u64_limit, from_digits, parse_bugcheck_code,
}

-- The character of a hexadecimal digit, in upper or in lower case.
abbrev pub digit_char : Bool → ℕ → ℕ
digit_char upper d =
    if ltb d 10 then b'0' + d else if upper then b'A' + (d - 10) else b'a' + (d - 10)

abbrev pub IsDigit : ℕ → Type 0
IsDigit d = d < 16

abbrev is_x : ℕ → Bool
is_x c = c == b'x' || c == b'X'

abbrev pub mentions_x : Text → Bool
mentions_x s = any is_x s

abbrev pub starts_hex : Text → Bool
starts_hex [] = false
starts_hex (c ∷ s) = is_some (hex_digit c)

-- The number that a row of digits stands for, behind the digits already read.
abbrev pub value : ℕ → List ℕ → ℕ
value acc [] = acc
value acc (d ∷ ds) = value (acc * 16 + d) ds

hex_digit-digit_char :
    (upper : Bool) (d : ℕ)
    → IsDigit d
    → hex_digit (to_ascii_lowercase (digit_char upper d)) ≡ some d
hex_digit-digit_char upper d h = ground arith

hex_digit-lowercase : (c : ℕ) → hex_digit c ≡ none → hex_digit (to_ascii_lowercase c) ≡ none
hex_digit-lowercase c h = ground arith

hex_prefix-stop : (s : Text) → starts_hex s ≡ false → hex_prefix (map to_ascii_lowercase s) ≡ []
unfolding hex_prefix
hex_prefix-stop [] h = refl
hex_prefix-stop (c ∷ s) h = ground (arith, hex_digit-lowercase c)

hex_prefix-print :
    (upper : Bool) (ds : List ℕ) (s : Text)
    → All IsDigit ds
    → starts_hex s ≡ false
    → hex_prefix (map to_ascii_lowercase (map (digit_char upper) ds ++ s)) ≡ ds
unfolding hex_prefix
hex_prefix-print upper [] s h stop = hex_prefix-stop s stop
hex_prefix-print upper (d ∷ ds) s h stop =
    ground (arith, hex_digit-digit_char upper d h.0, hex_prefix-print upper ds s h.1 stop)

after_0x-skip :
    (pre rest : Text)
    → mentions_x pre ≡ false
    → after_0x (map to_ascii_lowercase (pre ++ b'0' ∷ b'x' ∷ rest))
      ≡ some (map to_ascii_lowercase rest)
unfolding after_0x
after_0x-skip [] rest h = refl
after_0x-skip (c ∷ []) rest h = ground arith
after_0x-skip (c ∷ d ∷ pre) rest h = ground (arith, after_0x-skip (d ∷ pre) rest)

le-value : (acc : ℕ) (ds : List ℕ) → acc ≤ value acc ds
le-value acc [] = omega arith
le-value acc (d ∷ ds) = omega (arith, le-value (acc * 16 + d) ds)

from_digits-value :
    (acc : ℕ) (ds : List ℕ)
    → acc < u64_limit
    → from_digits acc ds ≡ (if ltb (value acc ds) u64_limit then some (value acc ds) else none)
unfolding from_digits
from_digits-value acc [] h = ground arith
from_digits-value acc (d ∷ ds) h =
    ground (arith, from_digits-value (acc * 16 + d) ds, le-value (acc * 16 + d) ds)

-- The code of a message is the number printed behind its first `0x`, in either case and with leading
-- zeros or without, where what stands before has no letter x and what follows is no digit; a number
-- that does not fit in 64 bits gives none.
pub parse-print :
    (upper : Bool) (pre : Text) (d : ℕ) (ds : List ℕ) (post : Text)
    → mentions_x pre ≡ false
    → All IsDigit (d ∷ ds)
    → starts_hex post ≡ false
    → let n = value 0 (d ∷ ds) in
      parse_bugcheck_code (pre ++ (b'0' ∷ b'x' ∷ (map (digit_char upper) (d ∷ ds) ++ post)))
      ≡ (if ltb n u64_limit then some n else none)
unfolding parse_bugcheck_code
parse-print upper pre d ds post hx hd stop = ground (
  arith,
  after_0x-skip pre (map (digit_char upper) (d ∷ ds) ++ post) hx,
  hex_prefix-print upper (d ∷ ds) post hd stop,
  from_digits-value 0 (d ∷ ds),
)
