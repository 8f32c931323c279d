-- ===== src/F2/Kinds.antt =====
-- The enums of `crates/core/src/f2_observation.rs`, each with the numbers by which its derived `==`
-- tells the variants apart.
use nidavellir.Shared.{ℕ, ◌==◌, Bool, true, false}

pub data F2EvidenceKind : Type 0 where
  legacy discovery qualification apply_qualification : F2EvidenceKind

abbrev pub kind_tag : F2EvidenceKind → ℕ
kind_tag legacy = 0
kind_tag discovery = 1
kind_tag qualification = 2
kind_tag apply_qualification = 3

abbrev pub eq_kind : F2EvidenceKind → F2EvidenceKind → Bool
eq_kind k l = kind_tag k == kind_tag l

pub data F2QualificationVerdict : Type 0 where
  pass fail inconclusive : F2QualificationVerdict

abbrev pub verdict_tag : F2QualificationVerdict → ℕ
verdict_tag pass = 0
verdict_tag fail = 1
verdict_tag inconclusive = 2

abbrev pub eq_verdict : F2QualificationVerdict → F2QualificationVerdict → Bool
eq_verdict v w = verdict_tag v == verdict_tag w

pub data F2QualificationStrength : Type 0 where
  fsgl1 fsgl2 fsgl3 fsgl4 : F2QualificationStrength

abbrev pub strength_tag : F2QualificationStrength → ℕ
strength_tag fsgl1 = 0
strength_tag fsgl2 = 1
strength_tag fsgl3 = 2
strength_tag fsgl4 = 3

abbrev pub eq_strength : F2QualificationStrength → F2QualificationStrength → Bool
eq_strength s t = strength_tag s == strength_tag t

pub data F2QualificationPattern : Type 0 where
  pattern_a pattern_b high_fps texture transitions memory endurance transition_shock dx11_game :
      F2QualificationPattern

abbrev pub pattern_tag : F2QualificationPattern → ℕ
pattern_tag pattern_a = 0
pattern_tag pattern_b = 1
pattern_tag high_fps = 2
pattern_tag texture = 3
pattern_tag transitions = 4
pattern_tag memory = 5
pattern_tag endurance = 6
pattern_tag transition_shock = 7
pattern_tag dx11_game = 8

abbrev pub eq_pattern : F2QualificationPattern → F2QualificationPattern → Bool
eq_pattern p q = pattern_tag p == pattern_tag q

pub data F2ObsMode : Type 0 where
  default_progressive manual_prior target_sweep ladder_sweep apply_qualification_mode : F2ObsMode

pub data F2ObsVerifier : Type 0 where
  raise_verified raise_incomplete over_raise unverifiable verifier_not_run : F2ObsVerifier

pub data F2ObsDwell : Type 0 where
  stable silent_error unstable device_lost clock_drop power_telemetry_inconclusive
        qualification_inconclusive dwell_not_run :
      F2ObsDwell

pub data F2ObsOutcome : Type 0 where
  validated rejected_by_planner verifier_failed silent_error unstable device_lost
        power_bound_clock_drop clock_drop power_telemetry_inconclusive qualification_inconclusive
        reset_failed blacklisted crash_or_recovery aborted_by_safety_gate :
      F2ObsOutcome

abbrev pub is_validated : F2ObsOutcome → Bool
is_validated validated = true
is_validated other = false

-- A real failure at this voltage, no refusal without a write.
abbrev pub is_bad : F2ObsOutcome → Bool
is_bad verifier_failed = true
is_bad F2ObsOutcome.silent_error = true
is_bad F2ObsOutcome.unstable = true
is_bad F2ObsOutcome.device_lost = true
is_bad F2ObsOutcome.clock_drop = true
is_bad reset_failed = true
is_bad blacklisted = true
is_bad crash_or_recovery = true
is_bad other = false

abbrev pub is_safety_failure : F2ObsOutcome → Bool
is_safety_failure F2ObsOutcome.device_lost = true
is_safety_failure reset_failed = true
is_safety_failure crash_or_recovery = true
is_safety_failure other = false

abbrev pub is_device_lost : F2ObsOutcome → Bool
is_device_lost F2ObsOutcome.device_lost = true
is_device_lost other = false

abbrev pub is_power_bound : F2ObsOutcome → Bool
is_power_bound power_bound_clock_drop = true
is_power_bound other = false
