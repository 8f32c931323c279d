-- ===== src/Tests/Condemnation.antt =====
-- The theorems on the ledger at concrete inputs, `crates/core/src/condemnation.rs`.
use nidavellir.Shared.{
  ℕ, ◌≤◌, ◌≡◌, ◌↔◌, inl, inr, refl, Bool, true, false, List, [], ◌∷◌, ◌++◌, none, some, arith, In,
}
use nidavellir.Shared.Text.{Text}
use nidavellir.SafeLoop.Store.{Codec}
use nidavellir.Condemnation.Event.{CondemnationSeverity, CondemnationEvent}
use nidavellir.Condemnation.Envelope.{vf_floor_envelope, floor_of, envelope_loop, sort_unstable}
use nidavellir.Condemnation.Envelope.Floor.{vf_floor_envelope-ge}
use nidavellir.Condemnation.Ledger.{load_all, append, content_of, trim_boms}
use nidavellir.Condemnation.Ledger.Append.{EndsWhole, load-append, append_after_torn}
use nidavellir.Condemnation.Pairs.{condemned_pairs, refuses}
use nidavellir.Condemnation.Pairs.Active.{Active, condemned_iff}
use nidavellir.Condemnation.Pairs.Refusal.{rigid_refused}
use nidavellir.Tests.Codecs.{
  CondemnationEvent-discrete, one_codec, one_codec-encode, one_codec-other, one_codec-IsLineCodec,
}

abbrev event : CondemnationSeverity → ℕ → ℕ → Bool → CondemnationEvent
event severity mhz mv rehabilitated = record {
  timestamp = "2026-01-01";
  gpu_key = some "gpu0";
  severity = severity;
  kind = "hard_fail";
  target_mhz = mhz;
  vf_bin_mv = mv;
  run_id = none;
  qualification_contract_version = some 2;
  note = none;
  rehabilitated = rehabilitated;
}

abbrev hard : CondemnationEvent
hard = event CondemnationSeverity.rigid 1800 850 false

abbrev soft : CondemnationEvent
soft = event CondemnationSeverity.quarantine 1900 875 false

abbrev lifted : CondemnationEvent
lifted = event CondemnationSeverity.rigid 1900 875 true

rigid_refused_example : refuses (condemned_pairs (soft ∷ hard ∷ lifted ∷ []) "gpu0") 1850 850 ≡ true
rigid_refused_example =
    rigid_refused "gpu0" (soft ∷ []) hard (lifted ∷ []) 1850 850 (ground arith) refl refl refl refl
      (ground arith) (ground arith)

condemned_iff_example :
    let out = condemned_pairs (hard ∷ soft ∷ []) "gpu0" in
    (In (1800, 850) out.rigid
      ↔ Active "gpu0" CondemnationSeverity.rigid 1800 850 (hard ∷ soft ∷ []))
    × (In (1800, 850) out.quarantine
        ↔ Active "gpu0" CondemnationSeverity.quarantine 1800 850 (hard ∷ soft ∷ []))
condemned_iff_example = condemned_iff (hard ∷ soft ∷ []) "gpu0" 1800 850

abbrev pairs : List (ℕ × ℕ)
pairs = (1900, 875) ∷ (1800, 850) ∷ (1850, 800) ∷ []

vf_floor_envelope-ge_example : (f : ℕ) × (vf_floor_envelope pairs 1900 ≡ some f) × (850 ≤ f)
vf_floor_envelope-ge_example =
    vf_floor_envelope-ge pairs 1900 1800 850 (ground arith) (inr (inl refl)) (ground arith)

floor_at : vf_floor_envelope pairs 1875 ≡ some 863
unfolding vf_floor_envelope floor_of envelope_loop sort_unstable
floor_at = refl

abbrev json : Text
json = b'{' ∷ b'}' ∷ []

abbrev events : Codec CondemnationEvent
events = one_codec CondemnationEvent-discrete hard json

load-append_example :
    let (content', written) = append events true hard none in
    (written ≡ true)
    × (load_all events content' ≡ load_all events none ++ hard ∷ [])
    × EndsWhole (content_of events content')
load-append_example =
    load-append events hard json none (one_codec-IsLineCodec hard)
      (one_codec-encode CondemnationEvent-discrete hard json) tt

append_after_torn_example :
    load_all events (append events true hard (some ([] ++ b'{' ∷ []))).0 ≡ load_all events (some [])
append_after_torn_example =
    append_after_torn events hard json [] (b'{' ∷ [])
      (one_codec-encode CondemnationEvent-discrete hard json) tt refl
      (unfold trim_boms in
        one_codec-other CondemnationEvent-discrete hard json (b'{' ∷ json) (λ p. cc))
