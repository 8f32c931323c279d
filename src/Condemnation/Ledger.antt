-- ===== src/Condemnation/Ledger.antt =====
-- The ledger file, `CondemnationLedger` of `crates/core/src/condemnation.rs`: its text, to which lines
-- are appended. JSON is the codec that the operations take.
pub mod Append
use nidavellir.Shared.{
  ℕ, ◌==◌, String, Bool, true, false, List, [], ◌∷◌, ◌++◌, Option, none, some, if◌then◌else◌,
}
use nidavellir.Shared.Text.{Text}
use nidavellir.SafeLoop.Store.{Codec}
use nidavellir.Condemnation.Event.{CondemnationEvent}

abbrev pub newline : ℕ
newline = 10

-- `str::lines` ends a line at `\n`; a last line without one counts if it is not empty. The lines hold
-- what stands before `\n`, and a `\r` there is taken off.
abbrev pub strip_cr : Text → Text
strip_cr [] = []
strip_cr (c ∷ []) = if c == 13 then [] else c ∷ []
strip_cr (c ∷ d ∷ s) = c ∷ strip_cr (d ∷ s)

-- What is left behind the last newline.
abbrev pub flush : Text → List Text
flush [] = []
flush (c ∷ line) = (c ∷ line) ∷ []

-- A line in the making is held in `line`.
unfoldable pub lines_from : Text → Text → List Text
lines_from line [] = flush line
lines_from line (c ∷ s) =
    let ended = strip_cr line ∷ lines_from [] s in
    let longer = lines_from (line ++ c ∷ []) s in if c == newline then ended else longer

unfoldable pub lines : Text → List Text
unfolding lines_from
lines s = lines_from [] s

-- `trim_start_matches('\u{feff}')`
unfoldable pub trim_boms : Text → Text
trim_boms [] = []
trim_boms (c ∷ s) = if c == 0xfeff then trim_boms s else c ∷ s

module _ (events : Codec CondemnationEvent) where
  -- `filter_map`: a line that is no event is skipped.
  unfoldable pub decode_lines : List Text → List CondemnationEvent
  decode_lines [] = []
  decode_lines (l ∷ ls) = elim (events.decode (trim_boms l)) [
    | none ↦ decode_lines ls
    | some e ↦ e ∷ decode_lines ls
  ]

  -- A file that cannot be read holds no events.
  unfoldable pub load_all : Option Text → List CondemnationEvent
  unfolding decode_lines lines trim_boms
  load_all none = []
  load_all (some content) = decode_lines (lines content)

  abbrev pub content_of : Option Text → Text
  content_of none = []
  content_of (some s) = s

  abbrev append_line : Option Text → Option Text → Option Text × Bool
  append_line none content = (content, false)
  append_line (some json) content = (some (content_of content ++ (json ++ newline ∷ [])), true)

  -- The file is created if it is missing. `written` says whether the file system took the line.
  unfoldable pub append : Bool → CondemnationEvent → Option Text → Option Text × Bool
  append written e content =
      if written then append_line (events.encode e) content else (content, false)
