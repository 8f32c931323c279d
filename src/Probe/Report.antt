-- ===== src/Probe/Report.antt =====
-- The report of one confirmed step, `F2StepReport` of `crates/service/src/gpu_undervolt.rs`, with
-- `PositiveOffsetVerification` of `crates/service/src/gpu_verify.rs`. Floats are bits. What the build
-- embeds for `current_build_provenance` is an argument.
use nidavellir.Shared.{
  ℕ, ◌+◌, ◌-◌, ◌*◌, ◌/◌, ◌%◌, ◌^◌, ◌==◌, ltb, leb, min, String, Bool, false, Option, none, some,
  if◌then◌else◌, u32_max,
}
use nidavellir.F2.Float.{is_nan}
use nidavellir.F2.Observation.{F2QualificationCoverage, F2EvidenceProvenance}

pub data PositiveOffsetVerification : Type 0 where
  raise_verified raise_incomplete over_raise unverifiable : PositiveOffsetVerification

pub data F2DwellOutcome : Type 0 where
  stable silent_error unstable device_lost clock_drop inconclusive : F2DwellOutcome

pub record F2DwellResult : Type 0 where
  pub outcome : F2DwellOutcome
  pub avg_clock_mhz : ℕ
  pub p5_clock_mhz : ℕ
  pub p95_clock_mhz : ℕ
  pub power_w : ℕ
  pub max_power_w : ℕ
  pub power_p99_w : Option ℕ
  pub power_capped_frac : ℕ
  pub max_temp_c : Option ℕ
  pub thermal_throttled : Bool
  pub measured_voltage_min_mv : Option ℕ
  pub measured_voltage_avg_mv : Option ℕ
  pub measured_voltage_max_mv : Option ℕ
  pub measured_voltage_sample_count : ℕ
  pub render_frames : Option ℕ
  pub render_fps : Option ℕ
  pub duration_ms : ℕ
  pub sample_count : ℕ
  pub qualification_coverage : Option F2QualificationCoverage
  pub evidence_provenance : Option F2EvidenceProvenance

pub data F2Outcome : Type 0 where
  arm_failed apply_failed : String → F2Outcome
  verify_failed silent_error unstable device_lost power_bound_clock_drop clock_drop inconclusive
        reset_failed validated :
      F2Outcome

pub record F2StepReport : Type 0 where
  pub outcome : F2Outcome
  pub armed : Bool
  pub applied : Bool
  pub verify : Option PositiveOffsetVerification
  pub dwell : Option F2DwellOutcome
  pub avg_clock_mhz : Option ℕ
  pub p5_clock_mhz : Option ℕ
  pub p95_clock_mhz : Option ℕ
  pub power_w : Option ℕ
  pub max_power_w : Option ℕ
  pub power_p99_w : Option ℕ
  pub power_p99_confirmed : Bool
  pub power_p99_attempts : ℕ
  pub power_capped_frac : Option ℕ
  pub max_temp_c : Option ℕ
  pub thermal_throttled : Bool
  pub measured_voltage_min_mv : Option ℕ
  pub measured_voltage_avg_mv : Option ℕ
  pub measured_voltage_max_mv : Option ℕ
  pub measured_voltage_sample_count : ℕ
  pub render_frames : Option ℕ
  pub render_fps : Option ℕ
  pub dwell_duration_ms : Option ℕ
  pub sample_count : Option ℕ
  pub qualification_coverage : Option F2QualificationCoverage
  pub evidence_provenance : Option F2EvidenceProvenance
  pub reset_ok : Option Bool
  pub boot_flag_cleared : Bool
  pub blacklisted : Bool
  pub validated : Bool

unfoldable pub empty_f2_step_report : F2EvidenceProvenance → F2StepReport
empty_f2_step_report build = record {
  outcome = F2Outcome.validated;
  armed = false;
  applied = false;
  verify = none;
  dwell = none;
  avg_clock_mhz = none;
  p5_clock_mhz = none;
  p95_clock_mhz = none;
  power_w = none;
  max_power_w = none;
  power_p99_w = none;
  power_p99_confirmed = false;
  power_p99_attempts = 0;
  power_capped_frac = none;
  max_temp_c = none;
  thermal_throttled = false;
  measured_voltage_min_mv = none;
  measured_voltage_avg_mv = none;
  measured_voltage_max_mv = none;
  measured_voltage_sample_count = 0;
  render_frames = none;
  render_fps = none;
  dwell_duration_ms = none;
  sample_count = none;
  qualification_coverage = none;
  evidence_provenance = some build;
  reset_ok = none;
  boot_flag_cleared = false;
  blacklisted = false;
  validated = false;
}

-- The whole number at or nearest to `significand * 2 ^ (exponent - 150)`, halves away from 0.
abbrev scaled : ℕ → ℕ → ℕ
scaled significand exponent =
    if leb 150 exponent
    then min (significand * 2 ^ (exponent - 150)) u32_max
    else if ltb exponent 125
    then 0
    else (significand + 2 ^ (149 - exponent)) / 2 ^ (150 - exponent)

-- `x.round() as u32`, which saturates and takes NaN to 0.
abbrev pub round_as_u32 : ℕ → ℕ
round_as_u32 bits =
    let exponent = bits / 8388608 in
    if is_nan bits
    then 0
    else if leb 2147483648 bits
    then 0
    else if exponent == 0
    then 0
    else scaled (8388608 + bits % 8388608) exponent

abbrev pub outcome_of : F2DwellOutcome → F2Outcome
outcome_of F2DwellOutcome.device_lost = F2Outcome.device_lost
outcome_of F2DwellOutcome.silent_error = F2Outcome.silent_error
outcome_of F2DwellOutcome.unstable = F2Outcome.unstable
outcome_of F2DwellOutcome.clock_drop = F2Outcome.clock_drop
outcome_of F2DwellOutcome.inconclusive = F2Outcome.inconclusive
outcome_of F2DwellOutcome.stable = F2Outcome.validated

abbrev first_some {ℓ} : {A : Type ℓ} → Option A → Option A → Option A
first_some none other = other
first_some (some x) other = some x

unfoldable pub populate_f2_dwell_report : F2StepReport → F2DwellResult → F2StepReport
populate_f2_dwell_report r d = record r {
  dwell = some d.outcome;
  avg_clock_mhz = some d.avg_clock_mhz;
  p5_clock_mhz = some d.p5_clock_mhz;
  p95_clock_mhz = some d.p95_clock_mhz;
  power_w = some (round_as_u32 d.power_w);
  max_power_w = some (round_as_u32 d.max_power_w);
  power_p99_w = d.power_p99_w;
  power_capped_frac = some d.power_capped_frac;
  max_temp_c = d.max_temp_c;
  thermal_throttled = d.thermal_throttled;
  measured_voltage_min_mv = d.measured_voltage_min_mv;
  measured_voltage_avg_mv = d.measured_voltage_avg_mv;
  measured_voltage_max_mv = d.measured_voltage_max_mv;
  measured_voltage_sample_count = d.measured_voltage_sample_count;
  render_frames = d.render_frames;
  render_fps = d.render_fps;
  dwell_duration_ms = some d.duration_ms;
  sample_count = some d.sample_count;
  qualification_coverage = d.qualification_coverage;
  evidence_provenance = first_some d.evidence_provenance r.evidence_provenance;
  outcome = outcome_of d.outcome;
}
