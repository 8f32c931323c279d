-- ===== src/Tests/Journal.antt =====
-- A journal in small: observations for the tests of the F2 functions.
use nidavellir.Shared.{ℕ, ◌≡◌, refl, true, false, List, [], ◌∷◌, Option, none, some}
use nidavellir.Shared.Int.{pos}
use nidavellir.Shared.Text.{Text}
use nidavellir.F2.Float.{F64, u32_as_f32}
use nidavellir.F2.Kinds.{
  F2EvidenceKind, discovery, qualification, pass, fsgl4, F2QualificationPattern, texture,
  target_sweep, raise_verified, stable, F2ObsDwell, validated, F2ObsOutcome,
}
use nidavellir.F2.Observation.{F2EvidenceProvenance, F2QualificationCoverage, F2Observation}
use nidavellir.F2.Evidence.{is_reproducible, is_current_discovery_evidence}
use nidavellir.F2.Apply.{ApplyPair}

u32_as_f32_tests :
    (u32_as_f32 1 ≡ 0x3f800000)
    × (u32_as_f32 189 ≡ 0x433d0000)
    × (u32_as_f32 16777217 ≡ 0x4b800000)
    × (u32_as_f32 4294967295 ≡ 0x4f800000)
u32_as_f32_tests = (refl, refl, refl, refl)

-- Some arithmetic: only its results on the evidence counted here matter.
abbrev pub rough : F64
rough = record {
  of_int = λ n. n;
  of_f32 = λ n. n;
  add = λ m n. m;
  sub = λ m n. m;
  mul = λ m n. m;
  div = λ m n. m;
  powf = λ m n. m;
  minimum = λ m n. m;
  at_most = λ m n. false;
  literal_0_15 = 0;
  literal_0_99 = 0;
}

abbrev text : Option Text
text = some (b'x' ∷ [])

abbrev pub provenance : F2EvidenceProvenance
provenance = record {
  build_version = text;
  build_revision = text;
  workload_fingerprint = text;
  render_backend = text;
  adapter_name = text;
  driver_name = none;
  driver_info = text;
  checksum_method = text;
  golden_config = text;
}

provenance-is_reproducible : is_reproducible provenance ≡ true
unfolding is_reproducible
provenance-is_reproducible = refl

-- A blank driver text identifies nothing.
blank_driver :
    is_reproducible (record provenance { driver_info = some (b' ' ∷ 0x2003 ∷ []) }) ≡ false
unfolding is_reproducible
blank_driver = refl

abbrev pub coverage : F2QualificationPattern → F2QualificationCoverage
coverage p = record {
  strength = fsgl4;
  workload_pattern = some p;
  pass_index = 1;
  verdict = pass;
  phases_completed = 4;
  phases_expected = 4;
  checksum_count = 40;
  sample_count = 200;
  compute_check_count = 0;
  target_residency_frac = none;
  heavy_light_power_delta_w = none;
  failure_phase = none;
  retry_count = 0;
  reason = none;
  phase_metrics = [];
}

-- A discovery at 1900 MHz that validated.
abbrev pub seen_at : ℕ → F2Observation
seen_at mv = record {
  run_id = "run";
  timestamp = "2026-07-23";
  gpu_key = some "gpu";
  evidence_kind = discovery;
  discovery_contract_version = some 6;
  qualification_contract_version = none;
  qualification_coverage = none;
  evidence_provenance = some provenance;
  mode = target_sweep;
  target_mhz = 1900;
  requested_start_mv = none;
  anchor_mv = mv;
  base_mhz = 1800;
  offset_mhz = pos 100;
  positive_offset_cap_mhz = pos 150;
  higher_bins_capped = 10;
  max_flatten_mhz = pos 0;
  lower_bins_elastic = 0;
  verifier_result = raise_verified;
  dwell_result = stable;
  avg_clock_mhz = some 1900;
  sustained_clock_mhz = some 1900;
  sustained_upper_clock_mhz = some 1905;
  watts = some 170;
  max_watts = some 189;
  power_p99_w = some 0x432e0000;
  power_p99_confirmed = true;
  power_p99_attempts = 1;
  measured_voltage_min_mv = none;
  measured_voltage_avg_mv = none;
  measured_voltage_max_mv = none;
  measured_voltage_sample_count = 0;
  render_frames = none;
  render_fps = none;
  power_capped_frac = none;
  max_temp_c = none;
  thermal_throttled = false;
  dwell_duration_ms = some 15000;
  sample_count = some 100;
  silent_error = false;
  device_lost = false;
  unstable = false;
  clock_drop = false;
  tdr_or_crash = false;
  reset_to_stock_attempted = true;
  reset_to_stock_ok = true;
  boot_flag_cleared = true;
  blacklisted = false;
  outcome = validated;
  confidence = none;
  notes = none;
}

-- The clock dropped.
abbrev pub dropped_at : ℕ → F2Observation
dropped_at mv = record (seen_at mv) {
  outcome = F2ObsOutcome.clock_drop;
  dwell_result = F2ObsDwell.clock_drop;
  clock_drop = true;
}

-- The driver was lost.
abbrev pub lost_at : ℕ → F2Observation
lost_at mv = record (seen_at mv) { outcome = F2ObsOutcome.device_lost; device_lost = true }

abbrev pub qualified_at : ℕ → F2Observation
qualified_at mv = record (seen_at mv) {
  evidence_kind = qualification;
  qualification_contract_version = some 25;
  qualification_coverage = some (coverage texture);
}

abbrev pub applied_at : F2QualificationPattern → ℕ → F2Observation
applied_at p power = record (seen_at 900) {
  evidence_kind = F2EvidenceKind.apply_qualification;
  qualification_contract_version = some 25;
  qualification_coverage = some (coverage p);
  power_p99_w = some power;
}

abbrev pub pair : ApplyPair
pair = record { target_mhz = 1900; anchor_mv = 900; gpu_key = "gpu" }

-- A failure at 850 mV, a crash at 860 mV: 870 mV is too close to the crash.
abbrev pub journal : List F2Observation
journal =
    seen_at 900 ∷ seen_at 875 ∷ seen_at 870 ∷ lost_at 860 ∷ dropped_at 850 ∷ qualified_at 900 ∷ []

seen-is_current : is_current_discovery_evidence (seen_at 900) ≡ true
unfolding is_current_discovery_evidence is_reproducible
seen-is_current = refl
