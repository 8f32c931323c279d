-- ===== src/Condemnation/Ledger/Append.antt =====
-- What an append leaves to be loaded, `CondemnationLedger::append` and `load_all` of
-- `crates/core/src/condemnation.rs`.
use nidavellir.Shared.{
  ℕ, ◌≡◌, ap, sym, refl, ◌∙◌, Bool, true, false, List, [], ◌∷◌, ◌++◌, Option, none, some, arith,
  any, ◌==◌,
}
use mathlib.Core.List.{append_assoc, append-nil}
use nidavellir.Shared.Text.{Text}
use nidavellir.SafeLoop.Store.{Codec}
use nidavellir.Condemnation.Event.{CondemnationEvent}
use nidavellir.Condemnation.Ledger.{
  newline, strip_cr, lines_from, lines, trim_boms, decode_lines, load_all, append, content_of,
}

abbrev pub is_newline : ℕ → Bool
is_newline c = c == newline

-- A text of whole lines: it is empty or ends in a newline.
abbrev pub EndsWhole : Text → Type 0
EndsWhole [] = Unit
EndsWhole (c ∷ []) = c ≡ newline
EndsWhole (c ∷ d ∷ s) = EndsWhole (d ∷ s)

-- What is asked of the JSON library: an event is encoded as one line, which begins with no byte-order
-- mark and ends in no carriage return, and is decoded again.
pub record IsLineCodec (events : Codec CondemnationEvent) : Type 0 where
  pub one_line :
      (e : CondemnationEvent) (t : Text) → events.encode e ≡ some t → any is_newline t ≡ false
  pub no_cr : (e : CondemnationEvent) (t : Text) → events.encode e ≡ some t → strip_cr t ≡ t
  pub no_bom : (e : CondemnationEvent) (t : Text) → events.encode e ≡ some t → trim_boms t ≡ t
  pub decode-encode :
      (e : CondemnationEvent) (t : Text) → events.encode e ≡ some t → events.decode t ≡ some e

-- A line that is put behind what stands in `line` comes out whole.
lines_from-line :
    (line t : Text) (rest : Text)
    → any is_newline t ≡ false
    → lines_from line (t ++ newline ∷ rest) ≡ strip_cr (line ++ t) ∷ lines_from [] rest
unfolding lines_from
lines_from-line line [] rest h = rw append-nil (ground arith)
lines_from-line line (c ∷ t) rest h =
    rw (← append_assoc line (c ∷ []) t) (ground (arith, lines_from-line (line ++ c ∷ []) t rest))

-- Whole lines in front are read as they are without what follows.
lines_from-whole :
    (line : Text) (c : ℕ) (s rest : Text)
    → EndsWhole (c ∷ s)
    → lines_from line ((c ∷ s) ++ rest) ≡ lines_from line (c ∷ s) ++ lines_from [] rest
unfolding lines_from
lines_from-whole line c [] rest h = ground arith
lines_from-whole line c (d ∷ s) rest h =
    ground (arith, lines_from-whole [] d s rest h, lines_from-whole (line ++ c ∷ []) d s rest h)

lines-whole : (s rest : Text) → EndsWhole s → lines (s ++ rest) ≡ lines s ++ lines rest
unfolding lines
lines-whole [] rest h = refl
lines-whole (c ∷ s) rest h = lines_from-whole [] c s rest h

pub lines-append_line :
    (s t : Text)
    → EndsWhole s
    → any is_newline t ≡ false
    → lines (s ++ (t ++ newline ∷ [])) ≡ lines s ++ strip_cr t ∷ []
unfolding lines
lines-append_line s t w h =
    lines-whole s (t ++ newline ∷ []) w ∙ ap (λ ls. lines s ++ ls) (lines_from-line [] t [] h)

pub EndsWhole-append : (s t : Text) → EndsWhole (s ++ (t ++ newline ∷ []))
EndsWhole-append [] [] = refl
EndsWhole-append [] (c ∷ []) = refl
EndsWhole-append [] (c ∷ d ∷ t) = EndsWhole-append [] (d ∷ t)
EndsWhole-append (c ∷ []) [] = refl
EndsWhole-append (c ∷ []) (d ∷ t) = EndsWhole-append [] (d ∷ t)
EndsWhole-append (c ∷ d ∷ s) t = EndsWhole-append (d ∷ s) t

module _ (events : Codec CondemnationEvent) where
  decode_lines-append :
      (xs ys : List Text)
      → decode_lines events (xs ++ ys) ≡ decode_lines events xs ++ decode_lines events ys
  unfolding decode_lines
  decode_lines-append [] ys = refl
  decode_lines-append (x ∷ xs) ys = ground (arith, decode_lines-append xs ys)

load_all-content :
    (events : Codec CondemnationEvent) (content : Option Text)
    → load_all events content ≡ decode_lines events (lines (content_of events content))
unfolding load_all
load_all-content events none = refl
load_all-content events (some s) = refl

decode-line :
    (events : Codec CondemnationEvent) (e : CondemnationEvent) (t : Text)
    → IsLineCodec events
    → events.encode e ≡ some t
    → decode_lines events (strip_cr t ∷ []) ≡ e ∷ []
unfolding decode_lines
decode-line events e t codec enc =
    rw (codec.no_cr e t enc, decode_lines, codec.no_bom e t enc, codec.decode-encode e t enc)

no_event :
    (events : Codec CondemnationEvent) (l : Text)
    → events.decode (trim_boms l) ≡ none
    → decode_lines events (l ∷ []) ≡ []
unfolding decode_lines
no_event events l bad = rw (decode_lines, bad)

loaded_after :
    (events : Codec CondemnationEvent) (e : CondemnationEvent) (t : Text) (content : Option Text)
    → IsLineCodec events
    → events.encode e ≡ some t
    → EndsWhole (content_of events content)
    → load_all events (some (content_of events content ++ (t ++ newline ∷ [])))
      ≡ load_all events content ++ e ∷ []
loaded_after events e t content codec enc whole =
    let s = content_of events content in
    load_all-content events (some (s ++ (t ++ newline ∷ [])))
    ∙ ap (decode_lines events) (lines-append_line s t whole (codec.one_line e t enc))
    ∙ decode_lines-append events (lines s) (strip_cr t ∷ [])
    ∙ ap (λ es. decode_lines events (lines s) ++ es) (decode-line events e t codec enc)
    ∙ ap (λ es. es ++ e ∷ []) (sym (load_all-content events content))

-- An append to a ledger of whole lines adds the event behind those that are there, and leaves
-- whole lines again. The file system takes the line, and the JSON codec encodes the event and is
-- lossless on lines.
pub load-append :
    (events : Codec CondemnationEvent) (e : CondemnationEvent) (t : Text) (content : Option Text)
    → IsLineCodec events
    → events.encode e ≡ some t
    → EndsWhole (content_of events content)
    → let (content', written) = append events true e content in
      (written ≡ true)
      × (load_all events content' ≡ load_all events content ++ e ∷ [])
      × EndsWhole (content_of events content')
unfolding append
load-append events e t content codec enc whole =
    let s = content_of events content in
    rw enc (refl, loaded_after events e t content codec enc whole, EndsWhole-append s t)

-- A torn last line: the next event is written behind it on the same line, so that where the joined
-- text is one line and no event, the ledger loads as it would without both, and the appended event
-- is not found in it.
pub append_after_torn :
    (events : Codec CondemnationEvent) (e : CondemnationEvent) (t s torn : Text)
    → events.encode e ≡ some t
    → EndsWhole s
    → any is_newline (torn ++ t) ≡ false
    → events.decode (trim_boms (strip_cr (torn ++ t))) ≡ none
    → load_all events (append events true e (some (s ++ torn))).0 ≡ load_all events (some s)
unfolding append
append_after_torn events e t s torn enc whole line bad =
    rw (enc, append_assoc s torn (t ++ newline ∷ []), ← append_assoc torn t (newline ∷ []))
      (load_all-content events (some (s ++ ((torn ++ t) ++ newline ∷ [])))
        ∙ ap (decode_lines events) (lines-append_line s (torn ++ t) whole line)
        ∙ decode_lines-append events (lines s) (strip_cr (torn ++ t) ∷ [])
        ∙ ap (λ es. decode_lines events (lines s) ++ es)
            (no_event events (strip_cr (torn ++ t)) bad)
        ∙ append-nil (decode_lines events (lines s))
        ∙ sym (load_all-content events (some s)))
