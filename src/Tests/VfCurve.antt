-- ===== src/Tests/VfCurve.antt =====
-- The theorems on the planners and writers of the V/F curve at concrete inputs,
-- `crates/gpu-nvapi/src/lib.rs`.
use nidavellir.Shared.{
  ℕ, ◌≤◌, ◌≡◌, ◌↔◌, ◌⊎◌, refl, Bool, true, false, List, [], ◌∷◌, ◌++◌, map, some, arith, All, find,
  any, leb, filter,
}
use nidavellir.Shared.Int.{ℤ, pos}
use nidavellir.VfCurve.Ceiling.{
  IsTaken, CurvePoint, offset_to, failed, no_bin_at_ceiling, apply_vf_ceiling_monotone,
}
use nidavellir.VfCurve.Ceiling.Monotone.{write_of, EndsAt, monotone_writes}
use nidavellir.VfCurve.Bounded.{
  PositiveOffsetLimits, PositiveOffsetPlan, PlanError, rejected, planned,
  plan_bounded_positive_offset, is_sane_base_curve, hardware_frontier,
}
use nidavellir.VfCurve.Bounded.Plan.{IsAdmissible, raise_to, at_index, plan_bounded_iff}
use nidavellir.VfCurve.Anchored.{
  AnchoredPositiveOffsetPlan, plan_bounded_anchored_positive_offset,
  apply_bounded_anchored_positive_offset, only_anchor, raises,
}
use nidavellir.VfCurve.Anchored.Plan.{entry_for, IsLowered, anchored_plan}
use nidavellir.VfCurve.Anchored.Write.{write_for, Ends, anchored_writes}

abbrev low : CurvePoint
low = record { index = 40; voltage_mv = 800; freq_mhz = 1700 }

abbrev mid : CurvePoint
mid = record { index = 41; voltage_mv = 850; freq_mhz = 1790 }

abbrev high : CurvePoint
high = record { index = 42; voltage_mv = 900; freq_mhz = 1900 }

abbrev curve : List CurvePoint
curve = low ∷ mid ∷ high ∷ []

-- A driver that takes every offset but those of bin 42.
abbrev takes : ℕ → ℤ → Bool
takes i z = leb i 41

monotone_writes_example :
    let (done, outcome) = apply_vf_ceiling_monotone takes curve 850 1800 in
    ((outcome ≡ failed no_bin_at_ceiling)
      × (done ≡ [])
      × (any (λ q. leb 850 q.voltage_mv) curve ≡ false))
    ⊎ ((rest : List (ℕ × ℤ)) × (map (write_of 850 1800) curve ≡ done ++ rest)
        × EndsAt takes outcome rest
        × All (IsTaken takes) done
        × (any (λ q. leb 850 q.voltage_mv) curve ≡ true))
monotone_writes_example = monotone_writes takes 850 1800 low (mid ∷ high ∷ []) (ground arith)

abbrev limits : PositiveOffsetLimits
limits = record {
  abs_max_offset_mhz = pos 30;
  step_max_offset_mhz = pos 15;
  hw_floor_mv = 700;
  clock_ceiling_mhz = 2100;
}

plan_bounded_iff_example :
    (plan_bounded_positive_offset curve 41 1800 (pos 0) limits ≡ planned (raise_to mid 1800 0)) ↔ (
      (is_sane_base_curve curve ≡ true)
      × (bin : CurvePoint) × (find (at_index 41) curve ≡ some bin)
      × IsAdmissible bin 1800 0 limits
      × (raise_to mid 1800 0 ≡ raise_to bin 1800 0))
plan_bounded_iff_example =
    plan_bounded_iff curve 41 1800 0 limits (raise_to mid 1800 0) (ground arith) (ground arith)

anchored_writes_example :
    let made = plan_bounded_anchored_positive_offset curve 41 1800 (pos 0) limits in
    let (done, outcome) =
      apply_bounded_anchored_positive_offset takes curve 41 1800 (pos 0) limits in
    ((e : PlanError) × (made ≡ rejected e) × (outcome ≡ rejected e) × (done ≡ []))
    ⊎ ((plan : AnchoredPositiveOffsetPlan) × (made ≡ planned plan)
        × (rest : List (ℕ × ℤ)) × (map write_for plan.entries ≡ done ++ rest)
        × Ends takes plan outcome rest
        × All (IsTaken takes) done)
anchored_writes_example = anchored_writes takes curve 41 1800 0 limits (ground arith) (ground arith)

abbrev plan : AnchoredPositiveOffsetPlan
plan = record {
  target_mhz = 1800;
  anchor = raise_to mid 1800 0;
  entries = map (entry_for (raise_to mid 1800 0) 1800) curve;
  capped_above_bins = 1;
  above_already_ok_bins = 0;
  elastic_below_bins = 1;
  max_positive_offset_mhz = pos 10;
  max_negative_flatten_mhz = pos 100;
}

accepted : plan_bounded_anchored_positive_offset curve 41 1800 (pos 0) limits ≡ planned plan
unfolding plan_bounded_anchored_positive_offset plan_bounded_positive_offset
    nidavellir.VfCurve.Bounded.plan_bin_at nidavellir.VfCurve.Bounded.judge offset_to
    nidavellir.VfCurve.Bounded.step_of nidavellir.VfCurve.Bounded.effective_of
    nidavellir.VfCurve.Anchored.anchored_loop nidavellir.VfCurve.Anchored.anchored_bin
    nidavellir.VfCurve.Anchored.leave_bin nidavellir.VfCurve.Anchored.cap_bin
    nidavellir.VfCurve.Anchored.cap_with nidavellir.VfCurve.Anchored.cap_offset
    nidavellir.VfCurve.Anchored.conclude
accepted = refl

anchored_plan_example :
    (plan_bounded_positive_offset curve 41 1800 (pos 0) limits ≡ planned plan.anchor)
    × (plan.entries ≡ map (entry_for plan.anchor 1800) curve)
    × All (λ e. e.effective_mhz ≤ 1800) plan.entries
    × All (IsLowered plan.anchor.index) plan.entries
    × (only_anchor plan.anchor.index (filter raises plan.entries) ≡ true)
anchored_plan_example =
    anchored_plan curve 41 1800 0 limits plan (ground arith) (ground arith) accepted
