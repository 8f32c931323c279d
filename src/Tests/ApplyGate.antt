-- ===== src/Tests/ApplyGate.antt =====
-- The Apply gate, the journal file and the histogram on small inputs, and uses of their theorems.
use nidavellir.Shared.{
  ℕ, ◌≤◌, ◌≡◌, refl, ◌⊎◌, inl, inr, true, false, String, List, [], ◌∷◌, none, some, All,
}
use nidavellir.Shared.Extremes.{max_by_key}
use nidavellir.Shared.Dict.{lookup, insert}
use nidavellir.F2.Float.{total_key}
use nidavellir.F2.Kinds.{texture, endurance}
use nidavellir.F2.Observation.{F2Observation}
use nidavellir.F2.Evidence.{
  pattern_of, is_reproducible, is_current_apply_qualification_evidence,
  is_current_apply_qualification_pass, is_required_qualification_pattern, required_pattern_index,
}
use nidavellir.F2.Apply.{
  power_of, complete_apply_gate_p99_at_anchor, gate_loop, point_has_current_endurance_qualification,
  worst_current_apply_qualification_power_at_anchor, clock_loop, is_clock_reading,
  current_apply_qualification_p95_clock_at_anchor,
}
use nidavellir.F2.Apply.Gate.{IsGateReading, gate_p99_lem}
use nidavellir.F2.Apply.Liveness.{gate-opens}
use nidavellir.F2.Apply.Worst.{gate-worst}
use nidavellir.F2.Apply.Clock.{HasClock, p95_clock_lem}
use nidavellir.F2.Bridge.Calibration.{count_of}
use nidavellir.F2.Bridge.{FailureKey, qualification_failure_histogram}
use nidavellir.Tests.Journal.{seen_at, coverage, applied_at, pair}

abbrev proof_run : List F2Observation
proof_run = applied_at texture 0x432e0000 ∷ applied_at endurance 0x433d0000 ∷ []

gate_of_run : complete_apply_gate_p99_at_anchor proof_run (some "run") pair ≡ some 0x433d0000
unfolding complete_apply_gate_p99_at_anchor gate_loop max_by_key
    is_current_apply_qualification_evidence is_reproducible required_pattern_index lookup insert
gate_of_run = refl

-- Without the endurance dwell the gate stays shut.
gate_without_endurance :
    complete_apply_gate_p99_at_anchor (applied_at texture 0x432e0000 ∷ []) (some "run") pair ≡ none
unfolding complete_apply_gate_p99_at_anchor gate_loop max_by_key
    is_current_apply_qualification_evidence is_reproducible required_pattern_index lookup insert
gate_without_endurance = refl

gate_p99_lem_example :
    (r : String) × ((o : F2Observation) × IsGateReading proof_run (some "run") pair r o
      × (pattern_of o ≡ some texture))
    × ((o : F2Observation) × IsGateReading proof_run (some "run") pair r o
        × (pattern_of o ≡ some endurance))
    × ((o : F2Observation) × IsGateReading proof_run (some "run") pair r o
        × (power_of o ≡ 0x433d0000))
gate_p99_lem_example = gate_p99_lem proof_run (some "run") pair 0x433d0000 gate_of_run

texture-reading : IsGateReading proof_run (some "run") pair "run" (applied_at texture 0x432e0000)
unfolding is_current_apply_qualification_evidence is_reproducible
texture-reading = (inl refl, refl, refl)

endurance-reading :
    IsGateReading proof_run (some "run") pair "run" (applied_at endurance 0x433d0000)
unfolding is_current_apply_qualification_evidence is_reproducible
endurance-reading = (inr (inl refl), refl, refl)

gate-opens_example :
    (p : ℕ) × (complete_apply_gate_p99_at_anchor proof_run (some "run") pair ≡ some p)
    × (total_key 0x432e0000 ≤ total_key p)
    × (total_key 0x433d0000 ≤ total_key p)
gate-opens_example =
    gate-opens proof_run (some "run") pair "run" (applied_at texture 0x432e0000)
      (applied_at endurance 0x433d0000) texture-reading endurance-reading refl refl

gate-worst_example :
    (point_has_current_endurance_qualification proof_run "run" pair ≡ true)
    × ((w : ℕ) × (worst_current_apply_qualification_power_at_anchor proof_run "run" pair ≡ some w)
        × (total_key 0x433d0000 ≤ total_key w))
gate-worst_example = gate-worst proof_run "run" pair 0x433d0000 gate_of_run

clock_of_run : current_apply_qualification_p95_clock_at_anchor proof_run "run" pair ≡ some 1905
unfolding current_apply_qualification_p95_clock_at_anchor clock_loop
    is_current_apply_qualification_pass is_current_apply_qualification_evidence is_reproducible
    is_required_qualification_pattern required_pattern_index
clock_of_run = refl

p95_clock_lem_example :
    All (λ o. (is_clock_reading "run" pair o ≡ false) ⊎ HasClock 1905 o) proof_run
p95_clock_lem_example = p95_clock_lem proof_run "run" pair 1905 clock_of_run

abbrev failed_phase : F2Observation
failed_phase = record (seen_at 900) {
  qualification_coverage = some (record (coverage texture) { failure_phase = some "burst" });
}

abbrev burst : FailureKey
burst = record { target_mhz = 1900; anchor_mv = 900; pattern_text = "Texture"; phase = "burst" }

histogram_of_two :
    count_of burst
      (qualification_failure_histogram (failed_phase ∷ seen_at 900 ∷ failed_phase ∷ []))
    ≡ 2
unfolding qualification_failure_histogram
histogram_of_two = refl
