-- ===== src/SafeLoop/Bugcheck.antt =====
-- Bugcheck codes: `classify_bugcheck`, `parse_bugcheck_code` and `whea_soft_fail` of
-- `crates/core/src/safe_loop.rs`. A message is a list of code points; the search for `0x` and the
-- digits are ASCII, so bytes and characters agree on what is found.
pub mod Print
use nidavellir.Shared.{
  ℕ, ◌+◌, ◌-◌, ◌*◌, ◌==◌, ltb, leb, Bool, true, ◌&&◌, ◌||◌, List, [], ◌∷◌, map, Option, none, some,
  if◌then◌else◌,
}
use nidavellir.Shared.Text.{Text}

pub data CrashClass : Type 0 where
  oc_instability unrelated unknown : CrashClass

abbrev pub bugcheck_clock_watchdog : ℕ
bugcheck_clock_watchdog = 0x101

abbrev pub bugcheck_whea_uncorrectable : ℕ
bugcheck_whea_uncorrectable = 0x124

abbrev pub bugcheck_dpc_watchdog : ℕ
bugcheck_dpc_watchdog = 0x133

abbrev pub bugcheck_video_tdr_failure : ℕ
bugcheck_video_tdr_failure = 0x116

abbrev pub bugcheck_video_tdr_timeout : ℕ
bugcheck_video_tdr_timeout = 0x117

unfoldable pub classify_bugcheck : ℕ → CrashClass
classify_bugcheck code =
    if code == 0
    then unknown
    else if code == bugcheck_clock_watchdog
        || code == bugcheck_whea_uncorrectable
        || code == bugcheck_dpc_watchdog
        || code == bugcheck_video_tdr_failure
        || code == bugcheck_video_tdr_timeout
    then oc_instability
    else unrelated

abbrev pub to_ascii_lowercase : ℕ → ℕ
to_ascii_lowercase c = if leb b'A' c && leb c b'Z' then c + 32 else c

-- `char::to_digit(16)`; `none` where `is_ascii_hexdigit` fails.
abbrev pub hex_digit : ℕ → Option ℕ
hex_digit c =
    if leb b'0' c && leb c b'9'
    then some (c - b'0')
    else if leb b'a' c && leb c b'f'
    then some (c - b'a' + 10)
    else if leb b'A' c && leb c b'F'
    then some (c - b'A' + 10)
    else none

-- What stands behind the first `0x`.
unfoldable pub after_0x : Text → Option Text
after_0x [] = none
after_0x (c ∷ []) = none
after_0x (c ∷ d ∷ s) =
    let rest = after_0x (d ∷ s) in if c == b'0' && d == b'x' then some s else rest

-- The digits as far as they go: `take_while(is_ascii_hexdigit)`.
unfoldable pub hex_prefix : Text → List ℕ
hex_prefix [] = []
hex_prefix (c ∷ s) = let rest = hex_prefix s in elim (hex_digit c) [ none ↦ [] | some d ↦ d ∷ rest ]

abbrev pub u64_limit : ℕ
u64_limit = 18446744073709551616

-- `from_str_radix(_, 16)`: an error as soon as the value leaves u64.
unfoldable pub from_digits : ℕ → List ℕ → Option ℕ
from_digits acc [] = some acc
from_digits acc (d ∷ ds) =
    let rest = from_digits (acc * 16 + d) ds in if ltb (acc * 16 + d) u64_limit then rest else none

unfoldable pub from_str_radix : List ℕ → Option ℕ
unfolding from_digits
from_str_radix [] = none
from_str_radix (d ∷ ds) = from_digits 0 (d ∷ ds)

unfoldable pub parse_bugcheck_code : Text → Option ℕ
unfolding after_0x hex_prefix from_str_radix
parse_bugcheck_code text = elim (after_0x (map to_ascii_lowercase text)) [
  | none ↦ none
  | some rest ↦ from_str_radix (hex_prefix rest)
]

unfoldable pub whea_soft_fail : ℕ → ℕ → Bool
whea_soft_fail before after = ltb before after
