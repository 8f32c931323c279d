-- ===== src/F2/Journal.antt =====
-- The journal file, `F2ObservationStore` and `parse_observations` of
-- `crates/core/src/f2_observation.rs`: a text to which a line is added for each observation. JSON is the
-- codec that the operations take.
pub mod Remembered
use nidavellir.Shared.{
  ℕ, ◌==◌, String, Bool, true, false, ◌&&◌, List, [], ◌∷◌, ◌++◌, Option, none, some, if◌then◌else◌,
  filter,
}
use nidavellir.Shared.Text.{Text}
use nidavellir.SafeLoop.Record.{opt_eq}
use nidavellir.SafeLoop.Store.{Codec}
use nidavellir.Condemnation.Ledger.{newline, lines, trim_boms}
use nidavellir.F2.Float.{F64}
use nidavellir.F2.Observation.{F2Observation, F2FrontierEntry}
use nidavellir.F2.Evidence.{trim}
use nidavellir.F2.Entries.{learned_frontier, learned_frontier_for_gpu, scoped}

abbrev pub text_of : Option Text → Text
text_of none = []
text_of (some s) = s

module _ (observations : Codec F2Observation) where
  -- A line that is blank, or no observation, is skipped.
  abbrev pub decode_line : Text → Option F2Observation
  decode_line [] = none
  decode_line (c ∷ line) = observations.decode (c ∷ line)

  unfoldable pub decode_observations : List Text → List F2Observation
  decode_observations [] = []
  decode_observations (l ∷ ls) = elim (decode_line (trim (trim_boms l))) [
    | none ↦ decode_observations ls
    | some o ↦ o ∷ decode_observations ls
  ]

  unfoldable pub parse_observations : Text → List F2Observation
  unfolding decode_observations lines trim_boms trim
  parse_observations content = decode_observations (lines content)

  -- A file that cannot be read holds no observations.
  abbrev pub load_observations : Option Text → List F2Observation
  load_observations none = []
  load_observations (some content) = parse_observations content

  -- `written` says whether the directory was made, the file opened and the line written.
  abbrev pub append_observation : Bool → F2Observation → Option Text → Option Text × Bool
  append_observation written o content = elim (observations.encode o) [
    | none ↦ (content, false)
    | some json ↦
        if written
        then (some (text_of content ++ (json ++ newline ∷ [])), true)
        else (content, false)
  ]

  unfoldable pub query_by_target : Option Text → ℕ → List F2Observation
  query_by_target file target = filter (λ o. o.target_mhz == target) (load_observations file)

  unfoldable pub query_by_target_for_gpu : Option Text → ℕ → String → List F2Observation
  query_by_target_for_gpu file target gpu =
      filter (λ o. o.target_mhz == target && opt_eq o.gpu_key (some gpu)) (load_observations file)

  module _ (float : F64) where
    unfoldable pub stored_frontier : Option Text → List F2FrontierEntry
    stored_frontier file = learned_frontier float (load_observations file)

    unfoldable pub stored_frontier_for_gpu : Option Text → String → List F2FrontierEntry
    stored_frontier_for_gpu file gpu = learned_frontier_for_gpu float (load_observations file) gpu
