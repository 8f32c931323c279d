-- ===== src/Probe/Decision.antt =====
-- The decisions between the steps of a supervised run: the pure functions of
-- `crates/service/src/gpu_undervolt.rs` that choose the next candidate, the next clock or the end of the
-- run, and the refusal before it.
pub mod Choice
use nidavellir.Shared.{
  ℕ, zero, suc, ◌+◌, ◌-◌, ◌/◌, ◌==◌, ltb, leb, min, Bool, true, false, ◌&&◌, ◌||◌, not, List, [],
  ◌∷◌, String, str_eq, Option, none, some, length, get_elem?, any, filter, is_some, unwrap_or,
  if◌then◌else◌,
}
use nidavellir.Shared.Int.{ℤ, pos, negsuc, ◌-ℤ◌, leb_ℤ}
use nidavellir.SafeLoop.Record.{SafeLoopRecord}
use nidavellir.VfCurve.Bounded.{PositiveOffsetPlan}
use nidavellir.VfCurve.Anchored.{AnchoredPositiveOffsetPlan}
use nidavellir.Probe.Report.{F2Outcome, F2StepReport}

pub data F2DiscoveryDecision : Type 0 where
  continue_voltage mark_sustainable_and_continue next_clock_unsustainable boundary_found
        next_clock_after_failure abort_forge :
      F2DiscoveryDecision

unfoldable pub f2_power_bound_clock_drop : F2Outcome → Bool → F2Outcome
f2_power_bound_clock_drop F2Outcome.clock_drop near_power_limit =
    if near_power_limit then F2Outcome.power_bound_clock_drop else F2Outcome.clock_drop
f2_power_bound_clock_drop outcome near_power_limit = outcome

unfoldable pub f2_discovery_decision : F2Outcome → Bool → Bool → F2DiscoveryDecision
f2_discovery_decision F2Outcome.validated had_sustainable_point near_power_limit =
    if had_sustainable_point then continue_voltage else mark_sustainable_and_continue
f2_discovery_decision F2Outcome.power_bound_clock_drop had_sustainable_point near_power_limit =
    continue_voltage
f2_discovery_decision F2Outcome.clock_drop had_sustainable_point near_power_limit =
    if near_power_limit
    then continue_voltage
    else if had_sustainable_point
    then boundary_found
    else next_clock_unsustainable
f2_discovery_decision F2Outcome.silent_error had_sustainable_point near_power_limit =
    if had_sustainable_point then boundary_found else next_clock_after_failure
f2_discovery_decision F2Outcome.unstable had_sustainable_point near_power_limit =
    if had_sustainable_point then boundary_found else next_clock_after_failure
f2_discovery_decision F2Outcome.inconclusive had_sustainable_point near_power_limit =
    next_clock_after_failure
f2_discovery_decision other had_sustainable_point near_power_limit = abort_forge

-- `F2_ADAPTIVE_MAX_STRIDE_BINS` and `F2_ADAPTIVE_MAX_VOLTAGE_DROP_MV`
abbrev pub max_stride_bins : ℕ
max_stride_bins = 4

abbrev pub max_voltage_drop_mv : ℕ
max_voltage_drop_mv = 25

-- `a.saturating_sub(b)` on i32
abbrev pub saturate_i32 : ℤ → ℤ
saturate_i32 (pos n) = pos (min n 2147483647)
saturate_i32 (negsuc n) = negsuc (min n 2147483647)

-- The next candidate is near enough.
abbrev pub is_near_step : AnchoredPositiveOffsetPlan → ℤ → ℤ → AnchoredPositiveOffsetPlan → Bool
is_near_step current reference_offset_mhz step_max_offset_mhz next =
    leb (current.anchor.voltage_mv - next.anchor.voltage_mv) max_voltage_drop_mv
    && leb_ℤ (saturate_i32 (next.anchor.offset_mhz -ℤ reference_offset_mhz)) step_max_offset_mhz

module _ (candidates : List AnchoredPositiveOffsetPlan) (current_index : ℕ)
    (near : AnchoredPositiveOffsetPlan → Bool) where
  abbrev is_near_at : Option AnchoredPositiveOffsetPlan → Bool
  is_near_at none = false
  is_near_at (some next) = near next

  -- The strides that are left, the longest first. An index of a list is far from the end of a `usize`.
  unfoldable pub stride_loop : ℕ → ℕ
  stride_loop zero = min (current_index + 1) (length candidates)
  stride_loop (suc stride) =
      let rest = stride_loop stride in
      if is_near_at (get_elem? candidates (current_index + suc stride))
      then current_index + suc stride
      else rest

abbrev pub requested_stride : ℕ → ℕ
requested_stride deficit_mhz =
    if leb 90 deficit_mhz then max_stride_bins else if leb 45 deficit_mhz then 2 else 1

abbrev pub stride_from :
    List AnchoredPositiveOffsetPlan → ℕ → ℕ → ℤ → ℤ → Option AnchoredPositiveOffsetPlan → ℕ
stride_from candidates current_index deficit_mhz reference_offset_mhz step_max_offset_mhz none =
    current_index
stride_from candidates current_index deficit_mhz reference_offset_mhz step_max_offset_mhz
      (some current) =
    stride_loop candidates current_index
      (is_near_step current reference_offset_mhz step_max_offset_mhz) (requested_stride deficit_mhz)

unfoldable pub f2_adaptive_power_bound_next_index :
    List AnchoredPositiveOffsetPlan → ℕ → ℕ → Option ℕ → ℤ → ℤ → ℕ
f2_adaptive_power_bound_next_index candidates current_index target_mhz p5_clock_mhz
      reference_offset_mhz step_max_offset_mhz =
    stride_from candidates current_index (target_mhz - unwrap_or p5_clock_mhz target_mhz)
      reference_offset_mhz step_max_offset_mhz (get_elem? candidates current_index)

unfoldable pub f2_recovery_midpoint : ℕ → ℕ → Option ℕ
f2_recovery_midpoint shallower_safe_index deeper_failed_index =
    let gap = deeper_failed_index - shallower_safe_index in
    if ltb 1 gap then some (shallower_safe_index + gap / 2) else none

abbrev is_reset_clean_decision : F2DiscoveryDecision → Bool
is_reset_clean_decision next_clock_unsustainable = true
is_reset_clean_decision boundary_found = true
is_reset_clean_decision next_clock_after_failure = true
is_reset_clean_decision other = false

-- `o == Some(true)`
abbrev pub is_some_true : Option Bool → Bool
is_some_true none = false
is_some_true (some b) = b

unfoldable pub f2_reset_clean_discovery_failure : F2DiscoveryDecision → F2StepReport → Bool
f2_reset_clean_discovery_failure decision report =
    is_some_true report.reset_ok && report.boot_flag_cleared && is_reset_clean_decision decision

unfoldable pub f2_outcome_retains_boot_flag : F2Outcome → Bool
f2_outcome_retains_boot_flag F2Outcome.device_lost = true
f2_outcome_retains_boot_flag F2Outcome.reset_failed = true
f2_outcome_retains_boot_flag other = false

-- `a.into_iter().chain(b).min()`
abbrev pub min_of : Option ℕ → Option ℕ → Option ℕ
min_of none none = none
min_of none (some b) = some b
min_of (some a) none = some a
min_of (some a) (some b) = some (min a b)

abbrev retain_below :
    Option ℕ → List AnchoredPositiveOffsetPlan → Option ℕ × List AnchoredPositiveOffsetPlan
retain_below none candidates = (none, candidates)
retain_below (some mv) candidates =
    (some mv, filter (λ candidate. ltb candidate.anchor.voltage_mv mv) candidates)

-- The result, and the candidates that are left.
unfoldable pub resume_f2_candidates :
    List AnchoredPositiveOffsetPlan
    → Option ℕ
    → Option ℕ
    → Option ℕ
    → Option ℕ × List AnchoredPositiveOffsetPlan
resume_f2_candidates candidates (some good_mv) (some bad_mv) prior_power_bound_mv = (none, [])
resume_f2_candidates candidates none (some bad_mv) prior_power_bound_mv =
    (some bad_mv, filter (λ candidate. ltb bad_mv candidate.anchor.voltage_mv) candidates)
resume_f2_candidates candidates prior_good_mv none prior_power_bound_mv =
    retain_below (min_of prior_good_mv prior_power_bound_mv) candidates

unfoldable pub f2_refresh_discovery_for_qualification : ℕ → ℕ → Bool → Bool
f2_refresh_discovery_for_qualification qualification_passes final_gate_passes resume_current_run =
    not resume_current_run && (ltb 0 qualification_passes || ltb 0 final_gate_passes)

unfoldable pub f2_prior_observation_is_resume_eligible : String → String → Bool → Bool
f2_prior_observation_is_resume_eligible observation_run_id current_run_id resume_current_run =
    not resume_current_run || str_eq observation_run_id current_run_id

unfoldable pub f2_observation_matches_current_candidate :
    List AnchoredPositiveOffsetPlan → ℕ → ℕ → ℤ → Bool
f2_observation_matches_current_candidate candidates anchor_mv base_mhz offset_mhz =
    any
      (λ candidate.
        (candidate.anchor.voltage_mv == anchor_mv)
        && (candidate.anchor.base_mhz == base_mhz)
        && (leb_ℤ candidate.anchor.offset_mhz offset_mhz
            && leb_ℤ offset_mhz candidate.anchor.offset_mhz))
      candidates

-- The refusals of `confirmed_f2_multi_refusal`, with the numbers that their messages name.
pub data F2MultiRefusal : Type 0 where
  no_steps : ℕ → F2MultiRefusal
  too_few_steps : ℕ → F2MultiRefusal
  too_many_steps : ℕ → ℕ → F2MultiRefusal
  safe_mode_active boot_flag_already_armed no_candidates : F2MultiRefusal

unfoldable pub confirmed_f2_multi_refusal :
    SafeLoopRecord → Bool → Option ℕ → ℕ → ℕ → Option F2MultiRefusal
confirmed_f2_multi_refusal rec boot_flag_armed none candidate_count cap = some (no_steps cap)
confirmed_f2_multi_refusal rec boot_flag_armed (some n) candidate_count cap =
    if ltb n 1
    then some (too_few_steps n)
    else if ltb cap n
    then some (too_many_steps cap n)
    else if rec.safe_mode
    then some safe_mode_active
    else if boot_flag_armed
    then some boot_flag_already_armed
    else if candidate_count == 0
    then some no_candidates
    else none
