-- ===== src/F2/Observation.antt =====
-- The records of `crates/core/src/f2_observation.rs`: one observation, its coverage and provenance, the
-- bracket and the entry of the frontier. Floats are bits. The texts of the provenance are code points,
-- since they are trimmed.
use nidavellir.Shared.{ℕ, String, Bool, List, Option}
use nidavellir.Shared.Int.{ℤ}
use nidavellir.Shared.Text.{Text}
use nidavellir.F2.Kinds.{
  F2EvidenceKind, F2QualificationVerdict, F2QualificationStrength, F2QualificationPattern,
  F2ObsMode, F2ObsVerifier, F2ObsDwell, F2ObsOutcome,
}

pub record F2EvidenceProvenance : Type 0 where
  pub build_version : Option Text
  pub build_revision : Option Text
  pub workload_fingerprint : Option Text
  pub render_backend : Option Text
  pub adapter_name : Option Text
  pub driver_name : Option Text
  pub driver_info : Option Text
  pub checksum_method : Option Text
  pub golden_config : Option Text

pub record F2QualificationPhaseMetric : Type 0 where
  pub phase_name : String
  pub phase_pattern : String
  pub duration_ms : ℕ
  pub frame_count : ℕ
  pub checksum_count : ℕ
  pub compute_check_count : ℕ
  pub clock_avg : Option ℕ
  pub clock_p5 : Option ℕ
  pub clock_p50 : Option ℕ
  pub clock_p95 : Option ℕ
  pub target_residency_pct : Option ℕ
  pub power_avg : Option ℕ
  pub power_p95 : Option ℕ
  pub power_capped_fraction : Option ℕ
  pub temperature_avg : Option ℕ
  pub temperature_max : Option ℕ
  pub coverage_status : String

pub record F2QualificationCoverage : Type 0 where
  pub strength : F2QualificationStrength
  pub workload_pattern : Option F2QualificationPattern
  pub pass_index : ℕ
  pub verdict : F2QualificationVerdict
  pub phases_completed : ℕ
  pub phases_expected : ℕ
  pub checksum_count : ℕ
  pub sample_count : ℕ
  pub compute_check_count : ℕ
  pub target_residency_frac : Option ℕ
  pub heavy_light_power_delta_w : Option ℕ
  pub failure_phase : Option String
  pub retry_count : ℕ
  pub reason : Option String
  pub phase_metrics : List F2QualificationPhaseMetric

pub record F2Observation : Type 0 where
  pub run_id : String
  pub timestamp : String
  pub gpu_key : Option String
  pub evidence_kind : F2EvidenceKind
  pub discovery_contract_version : Option ℕ
  pub qualification_contract_version : Option ℕ
  pub qualification_coverage : Option F2QualificationCoverage
  pub evidence_provenance : Option F2EvidenceProvenance
  pub mode : F2ObsMode
  pub target_mhz : ℕ
  pub requested_start_mv : Option ℕ
  pub anchor_mv : ℕ
  pub base_mhz : ℕ
  pub offset_mhz : ℤ
  pub positive_offset_cap_mhz : ℤ
  pub higher_bins_capped : ℕ
  pub max_flatten_mhz : ℤ
  pub lower_bins_elastic : ℕ
  pub verifier_result : F2ObsVerifier
  pub dwell_result : F2ObsDwell
  pub avg_clock_mhz : Option ℕ
  pub sustained_clock_mhz : Option ℕ
  pub sustained_upper_clock_mhz : Option ℕ
  pub watts : Option ℕ
  pub max_watts : Option ℕ
  pub power_p99_w : Option ℕ
  pub power_p99_confirmed : Bool
  pub power_p99_attempts : ℕ
  pub measured_voltage_min_mv : Option ℕ
  pub measured_voltage_avg_mv : Option ℕ
  pub measured_voltage_max_mv : Option ℕ
  pub measured_voltage_sample_count : ℕ
  pub render_frames : Option ℕ
  pub render_fps : Option ℕ
  pub power_capped_frac : Option ℕ
  pub max_temp_c : Option ℕ
  pub thermal_throttled : Bool
  pub dwell_duration_ms : Option ℕ
  pub sample_count : Option ℕ
  pub silent_error : Bool
  pub device_lost : Bool
  pub unstable : Bool
  pub clock_drop : Bool
  pub tdr_or_crash : Bool
  pub reset_to_stock_attempted : Bool
  pub reset_to_stock_ok : Bool
  pub boot_flag_cleared : Bool
  pub blacklisted : Bool
  pub outcome : F2ObsOutcome
  pub confidence : Option ℕ
  pub notes : Option String

pub record VoltageBracket : Type 0 where
  pub first_bad_mv : ℕ
  pub last_good_mv : ℕ
  pub width_mv : ℕ

pub record F2FrontierEntry : Type 0 where
  pub target_mhz : ℕ
  pub best_anchor_mv : ℕ
  pub offset_mhz : ℤ
  pub watts : Option ℕ
  pub max_watts : Option ℕ
  pub power_p99_w : Option ℕ
  pub avg_clock_mhz : Option ℕ
  pub sustained_clock_mhz : Option ℕ
  pub sustained_upper_clock_mhz : Option ℕ
  pub power_capped_frac : Option ℕ
  pub dwell_duration_ms : Option ℕ
  pub sample_count : Option ℕ
  pub max_temp_c : Option ℕ
  pub thermal_throttled : Bool
  pub confidence : ℕ
  pub validation_count : ℕ
  pub first_bad_mv : Option ℕ
  pub bracket_width_mv : Option ℕ
  pub observation_count : ℕ
  pub last_updated : String
  pub safety_notes : Option String
