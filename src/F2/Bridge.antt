-- ===== src/F2/Bridge.antt =====
-- What others are told of the journal: the calibration reading of an anchor, the points handed to the
-- profile classifiers and the histogram of failed phases, in `crates/core/src/f2_observation.rs`, with
-- `PowerSweepPoint` of `crates/core/src/ipc.rs`. Floats are bits.
pub mod Calibration
use nidavellir.Shared.{
  ℕ, ◌+◌, ◌==◌, ltb, String, str_eq, Bool, true, false, not, ◌&&◌, ◌||◌, List, [], ◌∷◌, map, Option,
  none, some, if◌then◌else◌, is_some, unwrap_or, filter, u32,
}
use nidavellir.Shared.Int.{ℤ}
use nidavellir.Shared.Extremes.{max_by_key}
use nidavellir.SafeLoop.Record.{opt_eq}
use nidavellir.F2.Float.{F64, total_key, u32_as_f32}
use nidavellir.F2.Kinds.{
  F2QualificationPattern, pattern_a, pattern_b, high_fps, texture, transitions, memory, endurance,
  transition_shock, dx11_game, is_validated, is_power_bound,
}
use nidavellir.F2.Observation.{F2QualificationCoverage, F2Observation, F2FrontierEntry}
use nidavellir.F2.Evidence.{is_some_and, is_current_discovery_evidence}
use nidavellir.F2.Apply.{ApplyPair, is_at, is_power, power_of}

pub data DwellQuality : Type 0 where
  high medium low unavailable : DwellQuality

pub record PowerSweepPoint : Type 0 where
  pub voltage_mv : ℕ
  pub clock_mhz : ℕ
  pub offset_mhz : ℤ
  pub power_w : ℕ
  pub max_power_w : ℕ
  pub power_p99_w : Option ℕ
  pub power_std_w : ℕ
  pub power_capped_frac : ℕ
  pub stable : Bool
  pub perf_per_watt : ℕ
  pub measured_voltage_mv : Option ℕ
  pub vf_table_voltage_mv : Option ℕ
  pub boundary_voltage_mv : Option ℕ
  pub apply_margin_mv : Option ℕ
  pub base_apply_mv : Option ℕ
  pub min_clock_mhz : Option ℕ
  pub p5_clock_mhz : Option ℕ
  pub p95_clock_mhz : Option ℕ
  pub avg_measured_voltage_mv : Option ℕ
  pub min_measured_voltage_mv : Option ℕ
  pub max_measured_voltage_mv : Option ℕ
  pub voltage_sample_count : Option ℕ
  pub voltage_quality : Option DwellQuality
  pub dwell_sample_count : Option ℕ
  pub dwell_duration_ms : Option ℕ
  pub start_temp_c : Option ℕ
  pub end_temp_c : Option ℕ
  pub avg_temp_c : Option ℕ
  pub max_temp_c : Option ℕ
  pub thermal_throttled : Bool
  pub telemetry_quality : Option DwellQuality
  pub target_clock_mhz : Option ℕ
  pub confidence : Option ℕ
  pub validation_count : Option ℕ
  pub apply_qualified : Bool
  pub apply_qualification_version : Option ℕ

abbrev is_measured : F2Observation → Bool
is_measured o =
    is_some o.avg_clock_mhz
    && is_some o.sustained_clock_mhz
    && is_some_and o.watts (λ w. ltb 0 w)
    && is_some_and o.max_watts (λ w. ltb 0 w)
    && is_some_and o.power_p99_w is_power

abbrev pub is_calibration : ApplyPair → F2Observation → Bool
is_calibration pair o =
    is_at pair o
    && (is_validated o.outcome || is_power_bound o.outcome)
    && is_current_discovery_evidence o
    && o.reset_to_stock_ok
    && o.boot_flag_cleared
    && not o.thermal_throttled
    && is_measured o

-- `max_by` keeps the last of equal maxima.
unfoldable pub current_discovery_observation_at_anchor :
    List F2Observation → ApplyPair → Option F2Observation
current_discovery_observation_at_anchor obs pair =
    max_by_key (λ o. total_key (power_of o)) (filter (is_calibration pair) obs)

-- `option.filter(p)`
abbrev filtered {ℓ} : {A : Type ℓ} → (A → Bool) → Option A → Option A
filtered p none = none
filtered p (some x) = if p x then some x else none

abbrev per_watt : F64 → ℕ → Option ℕ → ℕ
per_watt float clock none = float.of_int 0
per_watt float clock (some power) = float.div (float.of_int clock) (float.of_f32 power)

unfoldable pub to_power_sweep_point : F64 → F2FrontierEntry → PowerSweepPoint × ℕ
to_power_sweep_point float entry =
    let clock = unwrap_or entry.avg_clock_mhz entry.target_mhz in
    let power_p99 = filtered is_power entry.power_p99_w in
    let point : PowerSweepPoint = record {
      voltage_mv = entry.best_anchor_mv;
      clock_mhz = clock;
      offset_mhz = entry.offset_mhz;
      power_w = u32_as_f32 (unwrap_or entry.watts 0);
      max_power_w = u32_as_f32 (unwrap_or entry.max_watts (unwrap_or entry.watts 0));
      power_p99_w = power_p99;
      power_std_w = 0;
      power_capped_frac = 0;
      stable = true;
      perf_per_watt = per_watt float (unwrap_or entry.sustained_clock_mhz clock) power_p99;
      measured_voltage_mv = none;
      vf_table_voltage_mv = some entry.best_anchor_mv;
      boundary_voltage_mv = some entry.best_anchor_mv;
      apply_margin_mv = some 0;
      base_apply_mv = none;
      min_clock_mhz = none;
      p5_clock_mhz = entry.sustained_clock_mhz;
      p95_clock_mhz = entry.sustained_upper_clock_mhz;
      avg_measured_voltage_mv = none;
      min_measured_voltage_mv = none;
      max_measured_voltage_mv = none;
      voltage_sample_count = none;
      voltage_quality = none;
      dwell_sample_count = none;
      dwell_duration_ms = none;
      start_temp_c = none;
      end_temp_c = none;
      avg_temp_c = none;
      max_temp_c = entry.max_temp_c;
      thermal_throttled = entry.thermal_throttled;
      telemetry_quality = none;
      target_clock_mhz = some entry.target_mhz;
      confidence = some entry.confidence;
      validation_count = some (u32 entry.validation_count);
      apply_qualified = false;
      apply_qualification_version = none;
    } in
    (point, entry.confidence)

unfoldable pub frontier_to_points : F64 → List F2FrontierEntry → List (PowerSweepPoint × ℕ)
frontier_to_points float entries = map (to_power_sweep_point float) entries

-- `format!("{pattern:?}")`
abbrev pattern_name : F2QualificationPattern → String
pattern_name pattern_a = "A"
pattern_name pattern_b = "B"
pattern_name high_fps = "HighFps"
pattern_name texture = "Texture"
pattern_name transitions = "Transitions"
pattern_name memory = "Memory"
pattern_name endurance = "Endurance"
pattern_name transition_shock = "TransitionShock"
pattern_name dx11_game = "Dx11Game"

abbrev pattern_label : Option F2QualificationPattern → String
pattern_label none = "legacy"
pattern_label (some p) = pattern_name p

-- `(target_mhz, anchor_mv, pattern, phase)`
pub record FailureKey : Type 0 where
  pub target_mhz : ℕ
  pub anchor_mv : ℕ
  pub pattern_text : String
  pub phase : String

abbrev pub same_key : FailureKey → FailureKey → Bool
same_key k l =
    k.target_mhz == l.target_mhz
    && k.anchor_mv == l.anchor_mv
    && str_eq k.pattern_text l.pattern_text
    && str_eq k.phase l.phase

-- `*histogram.entry(key).or_insert(0u32) += 1`, modulo 2^32 in a release build.
abbrev pub bump : FailureKey → List (FailureKey × ℕ) → List (FailureKey × ℕ)
bump k [] = (k, 1) ∷ []
bump k (e ∷ es) = if same_key e.0 k then (e.0, u32 (e.1 + 1)) ∷ es else e ∷ bump k es

abbrev phase_key : F2Observation → F2QualificationCoverage → Option String → Option FailureKey
phase_key o c none = none
phase_key o c (some phase) = some (record {
  target_mhz = o.target_mhz;
  anchor_mv = o.anchor_mv;
  pattern_text = pattern_label c.workload_pattern;
  phase = phase;
})

abbrev coverage_key : F2Observation → Option F2QualificationCoverage → Option FailureKey
coverage_key o none = none
coverage_key o (some c) = phase_key o c c.failure_phase

-- The key of an observation, for one with a failed phase.
abbrev pub failure_key : F2Observation → Option FailureKey
failure_key o = coverage_key o o.qualification_coverage

abbrev pub bump_if : Option FailureKey → List (FailureKey × ℕ) → List (FailureKey × ℕ)
bump_if none histogram = histogram
bump_if (some k) histogram = bump k histogram

unfoldable pub histogram_loop : List (FailureKey × ℕ) → List F2Observation → List (FailureKey × ℕ)
histogram_loop histogram [] = histogram
histogram_loop histogram (o ∷ os) = histogram_loop (bump_if (failure_key o) histogram) os

unfoldable pub qualification_failure_histogram : List F2Observation → List (FailureKey × ℕ)
unfolding histogram_loop
qualification_failure_histogram obs = histogram_loop [] obs
