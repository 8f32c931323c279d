-- ===== src/F2/Journal/Remembered.antt =====
-- What an append to the journal leaves behind: `F2ObservationStore::append` and `load_all` of
-- `crates/core/src/f2_observation.rs`, with the frontier that is learned from the file.
use nidavellir.Shared.{
  ◌≡◌, refl, sym, ap, ◌∙◌, true, false, List, [], ◌∷◌, ◌++◌, Option, none, some, arith, any,
}
use nidavellir.Shared.Text.{Text}
use nidavellir.SafeLoop.Store.{Codec}
use nidavellir.Condemnation.Ledger.{newline, strip_cr, lines, trim_boms}
use nidavellir.Condemnation.Ledger.Append.{
  is_newline, EndsWhole, lines-append_line, EndsWhole-append,
}
use nidavellir.F2.Observation.{F2Observation}
use nidavellir.F2.Evidence.{trim}
use nidavellir.F2.Journal.{
  decode_line, decode_observations, parse_observations, load_observations, text_of,
  append_observation,
}

-- The same observation but for what holds floats: JSON has no NaN and no infinity, which are written as
-- null, and a decimal need not be read back to the last bit.
abbrev pub IsSimilar : F2Observation → F2Observation → Type 0
IsSimilar o read = read ≡ record o {
  qualification_coverage = read.qualification_coverage;
  power_p99_w = read.power_p99_w;
  render_fps = read.render_fps;
  power_capped_frac = read.power_capped_frac;
  max_temp_c = read.max_temp_c;
}

-- What is asked of the JSON library: an observation is encoded as one line with no white space and no
-- byte-order mark at its ends, which is decoded again, to the same but for the floats.
pub record IsJournalCodec (observations : Codec F2Observation) : Type 0 where
  pub one_line :
      (o : F2Observation) (t : Text) → observations.encode o ≡ some t → any is_newline t ≡ false
  pub no_cr : (o : F2Observation) (t : Text) → observations.encode o ≡ some t → strip_cr t ≡ t
  pub trimmed :
      (o : F2Observation) (t : Text) → observations.encode o ≡ some t → trim (trim_boms t) ≡ t
  pub decode-encode :
      (o : F2Observation) (t : Text)
      → observations.encode o ≡ some t
      → (read : F2Observation) × (decode_line observations t ≡ some read) × IsSimilar o read

module _ (observations : Codec F2Observation) where
  decode_observations-append :
      (xs ys : List Text)
      → decode_observations observations (xs ++ ys)
        ≡ decode_observations observations xs ++ decode_observations observations ys
  unfolding decode_observations
  decode_observations-append [] ys = refl
  decode_observations-append (x ∷ xs) ys = ground (arith, decode_observations-append xs ys)

  load-lines :
      (file : Option Text)
      → load_observations observations file
        ≡ decode_observations observations (lines (text_of file))
  unfolding parse_observations
  load-lines none = unfold lines in unfold decode_observations in refl
  load-lines (some s) = refl

  own_line :
      (o read : F2Observation) (t : Text)
      → IsJournalCodec observations
      → observations.encode o ≡ some t
      → decode_line observations t ≡ some read
      → decode_observations observations (strip_cr t ∷ []) ≡ read ∷ []
  unfolding decode_observations
  own_line o read t codec enc dec =
      rw (codec.no_cr o t enc, decode_observations, codec.trimmed o t enc, dec) refl

  loaded_after :
      (o read : F2Observation) (t : Text) (file : Option Text)
      → IsJournalCodec observations
      → observations.encode o ≡ some t
      → decode_line observations t ≡ some read
      → EndsWhole (text_of file)
      → load_observations observations (some (text_of file ++ (t ++ newline ∷ [])))
        ≡ load_observations observations file ++ read ∷ []
  loaded_after o read t file codec enc dec whole =
      load-lines (some (text_of file ++ (t ++ newline ∷ [])))
      ∙ ap (decode_observations observations)
          (lines-append_line (text_of file) t whole (codec.one_line o t enc))
      ∙ decode_observations-append (lines (text_of file)) (strip_cr t ∷ [])
      ∙ ap (λ os. decode_observations observations (lines (text_of file)) ++ os)
          (own_line o read t codec enc dec)
      ∙ ap (λ os. os ++ read ∷ []) (sym (load-lines file))

  -- An append to a journal of whole lines adds the observation behind those that are there, and leaves
  -- whole lines again. The file system takes the line, and the JSON codec encodes the observation and
  -- reads it back but for the floats.
  pub load-append_observation :
      (o : F2Observation) (t : Text) (file : Option Text)
      → IsJournalCodec observations
      → observations.encode o ≡ some t
      → EndsWhole (text_of file)
      → let (file', written) = append_observation observations true o file in
        (written ≡ true)
        × (read : F2Observation) × (load_observations observations file'
            ≡ load_observations observations file ++ read ∷ [])
        × IsSimilar o read
        × EndsWhole (text_of file')
  load-append_observation o t file codec enc whole =
      let (read, dec, same) = codec.decode-encode o t enc in
      rw (append_observation, enc)
        (
          refl,
          read,
          loaded_after o read t file codec enc dec whole,
          same,
          EndsWhole-append (text_of file) t,
        )
