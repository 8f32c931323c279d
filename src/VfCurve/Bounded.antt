-- ===== src/VfCurve/Bounded.antt =====
-- The bounded positive-offset planner and writer of one bin, `crates/gpu-nvapi/src/lib.rs`. The texts of
-- the errors are left out: each check has an error of its own.
pub mod Plan
use nidavellir.Shared.{
  ℕ, ◌-◌, max, ltb, leb, ◌==◌, Bool, true, false, ◌&&◌, ◌||◌, not, List, [], ◌∷◌, ◌++◌, Option,
  none, some, if◌then◌else◌, all, find,
}
use nidavellir.Shared.Int.{ℤ, pos, ◌+ℤ◌, ◌-ℤ◌, leb_ℤ, wrap_i32, as_i32, as_u32}
use nidavellir.VfCurve.Ceiling.{CurvePoint, offset_to, is_positive, khz}

abbrev pub pos_offset_max_mhz : ℤ
pos_offset_max_mhz = pos 30

abbrev pub pos_offset_step_max_mhz : ℤ
pos_offset_step_max_mhz = pos 15

abbrev pub target_sweep_horizon_max_mhz : ℤ
target_sweep_horizon_max_mhz = pos 210

abbrev pub pos_sane_mv_min : ℕ
pos_sane_mv_min = 600

abbrev pub pos_sane_mv_max : ℕ
pos_sane_mv_max = 1150

abbrev pub pos_sane_mhz_min : ℕ
pos_sane_mhz_min = 500

abbrev pub pos_sane_mhz_max : ℕ
pos_sane_mhz_max = 3500

abbrev pub is_sane_base_point : CurvePoint → Bool
is_sane_base_point p =
    (leb pos_sane_mv_min p.voltage_mv && leb p.voltage_mv pos_sane_mv_max)
    && (leb pos_sane_mhz_min p.freq_mhz && leb p.freq_mhz pos_sane_mhz_max)

abbrev pub is_empty : List CurvePoint → Bool
is_empty [] = true
is_empty (p ∷ ps) = false

abbrev pub is_sane_base_curve : List CurvePoint → Bool
is_sane_base_curve curve = not (is_empty curve) && all is_sane_base_point curve

pub record PositiveOffsetLimits : Type 0 where
  pub abs_max_offset_mhz : ℤ
  pub step_max_offset_mhz : ℤ
  pub hw_floor_mv : ℕ
  pub clock_ceiling_mhz : ℕ

unfoldable pub conservative : ℕ → ℕ → PositiveOffsetLimits
conservative floor ceiling = record {
  abs_max_offset_mhz = pos_offset_max_mhz;
  step_max_offset_mhz = pos_offset_step_max_mhz;
  hw_floor_mv = floor;
  clock_ceiling_mhz = ceiling;
}

unfoldable pub manual_prior : ℕ → ℕ → ℤ → PositiveOffsetLimits
manual_prior floor ceiling max_offset = record {
  abs_max_offset_mhz = max_offset;
  step_max_offset_mhz = max_offset;
  hw_floor_mv = floor;
  clock_ceiling_mhz = ceiling;
}

unfoldable pub target_sweep_learning_horizon : ℕ → ℕ → PositiveOffsetLimits
target_sweep_learning_horizon floor ceiling = record {
  abs_max_offset_mhz = target_sweep_horizon_max_mhz;
  step_max_offset_mhz = pos_offset_step_max_mhz;
  hw_floor_mv = floor;
  clock_ceiling_mhz = ceiling;
}

unfoldable pub hardware_frontier : ℕ → ℕ → ℕ → PositiveOffsetLimits
unfolding as_i32
hardware_frontier floor ceiling min_base =
    let physical_delta = as_i32 (max (ceiling - min_base) 1) in
    record {
      abs_max_offset_mhz = physical_delta;
      step_max_offset_mhz = physical_delta;
      hw_floor_mv = floor;
      clock_ceiling_mhz = ceiling;
    }

pub record PositiveOffsetPlan : Type 0 where
  pub index : ℕ
  pub voltage_mv : ℕ
  pub base_mhz : ℕ
  pub offset_mhz : ℤ
  pub prev_offset_mhz : ℤ
  pub step_delta_mhz : ℤ
  pub effective_mhz : ℕ

pub data PlanError : Type 0 where
  empty_curve : PlanError
  insane_curve : PlanError
  no_such_bin : PlanError
  below_hw_floor : PlanError
  not_positive : PlanError
  above_abs_cap : PlanError
  above_step_cap : PlanError
  above_clock_ceiling : PlanError
  raised_elsewhere : PlanError  -- the anchored planner's own checks
  stays_above_target : PlanError
  not_monotone : PlanError
  out_of_bound : PlanError  -- a writer's own check
  refused_at : ℕ → PlanError

pub data Planned (P : Type 0) : Type 0 where
  rejected : PlanError → Planned P
  planned : P → Planned P

-- The checks on a bin, given the three numbers that the code computes from it.
unfoldable pub judge :
    CurvePoint → ℤ → ℤ → ℤ → ℤ → PositiveOffsetLimits → Planned PositiveOffsetPlan
unfolding as_u32
judge bin prev offset step_delta effective limits =
    if ltb bin.voltage_mv limits.hw_floor_mv
    then rejected below_hw_floor
    else if leb_ℤ offset (pos 0)
    then rejected not_positive
    else if not (leb_ℤ offset limits.abs_max_offset_mhz)
    then rejected above_abs_cap
    else if not (leb_ℤ step_delta limits.step_max_offset_mhz)
    then rejected above_step_cap
    else if leb_ℤ effective (pos 0) || ltb limits.clock_ceiling_mhz (as_u32 effective)
    then rejected above_clock_ceiling
    else planned (record {
      index = bin.index;
      voltage_mv = bin.voltage_mv;
      base_mhz = bin.freq_mhz;
      offset_mhz = offset;
      prev_offset_mhz = prev;
      step_delta_mhz = step_delta;
      effective_mhz = as_u32 effective;
    })

unfoldable pub step_of : ℤ → ℤ → ℤ
unfolding wrap_i32 ◌-ℤ◌
step_of offset prev = wrap_i32 (offset -ℤ prev)

unfoldable pub effective_of : ℕ → ℤ → ℤ
unfolding wrap_i32 as_i32 ◌+ℤ◌
effective_of base offset = wrap_i32 (as_i32 base +ℤ offset)

unfoldable pub plan_bin_at : CurvePoint → ℕ → ℤ → PositiveOffsetLimits → Planned PositiveOffsetPlan
plan_bin_at bin target prev limits =
    let offset = offset_to target bin.freq_mhz in
    judge bin prev offset (step_of offset prev) (effective_of bin.freq_mhz offset) limits

abbrev pub plan_found :
    Option CurvePoint → ℕ → ℤ → PositiveOffsetLimits → Planned PositiveOffsetPlan
plan_found none target prev limits = rejected no_such_bin
plan_found (some bin) target prev limits = plan_bin_at bin target prev limits

unfoldable pub plan_bounded_positive_offset :
    List CurvePoint → ℕ → ℕ → ℤ → PositiveOffsetLimits → Planned PositiveOffsetPlan
plan_bounded_positive_offset curve bin_index target prev limits =
    if is_empty curve
    then rejected empty_curve
    else if not (is_sane_base_curve curve)
    then rejected insane_curve
    else plan_found (find (λ p. p.index == bin_index) curve) target prev limits

module _ (takes : ℕ → ℤ → Bool) where
  -- One write, after the writer's own check.
  unfoldable pub write_bounded :
      PositiveOffsetLimits → Planned PositiveOffsetPlan → List (ℕ × ℤ) × Planned PositiveOffsetPlan
  write_bounded limits (rejected e) = ([], rejected e)
  write_bounded limits (planned p) =
      if leb_ℤ p.offset_mhz (pos 0) || not (leb_ℤ p.offset_mhz limits.abs_max_offset_mhz)
      then ([], rejected out_of_bound)
      else if takes p.index (khz p.offset_mhz)
      then ((p.index, khz p.offset_mhz) ∷ [], planned p)
      else ([], rejected (refused_at p.index))

  unfoldable pub apply_bounded_positive_offset :
      List CurvePoint → ℕ → ℕ → ℤ → PositiveOffsetLimits → List (ℕ × ℤ) × Planned PositiveOffsetPlan
  apply_bounded_positive_offset curve bin_index target prev limits =
      write_bounded limits (plan_bounded_positive_offset curve bin_index target prev limits)
