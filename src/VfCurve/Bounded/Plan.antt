-- ===== src/VfCurve/Bounded/Plan.antt =====
-- When the bounded planner accepts, and what it then plans, `plan_bounded_positive_offset` of
-- `crates/gpu-nvapi/src/lib.rs`.
use nidavellir.Shared.{
  ℕ, ◌-◌, ◌≤◌, ◌<◌, ◌≡◌, ◌↔◌, Bool, true, false, ◌==◌, List, [], ◌∷◌, some, arith, find, all, ltb,
  sym, ap, ◌∙◌, Bool-cases, Option-cases, inl, inr,
}
use nidavellir.Shared.Int.{ℤ, pos, sub_ℕ, ◌≤ℤ◌, ◌+ℤ◌, ◌-ℤ◌, wrap_i32, as_i32, as_u32}
use nidavellir.VfCurve.Ceiling.{CurvePoint, offset_to}
use nidavellir.VfCurve.Bounded.{
  judge, step_of, effective_of, is_sane_base_point, is_sane_base_curve, PositiveOffsetLimits,
  PositiveOffsetPlan, planned, plan_bin_at, plan_found, plan_bounded_positive_offset,
}

-- What is asked of a raise of a bin to a target, after a raise by `prev` on the probe before.
pub record IsAdmissible (bin : CurvePoint) (target prev : ℕ) (limits : PositiveOffsetLimits)
    : Type 0 where
  pub above_floor : limits.hw_floor_mv ≤ bin.voltage_mv
  pub raised : bin.freq_mhz < target
  pub in_cap : pos (target - bin.freq_mhz) ≤ℤ limits.abs_max_offset_mhz
  pub in_step : sub_ℕ (target - bin.freq_mhz) prev ≤ℤ limits.step_max_offset_mhz
  pub in_ceiling : target ≤ limits.clock_ceiling_mhz

abbrev pub raise_to : CurvePoint → ℕ → ℕ → PositiveOffsetPlan
raise_to bin target prev = record {
  index = bin.index;
  voltage_mv = bin.voltage_mv;
  base_mhz = bin.freq_mhz;
  offset_mhz = pos (target - bin.freq_mhz);
  prev_offset_mhz = pos prev;
  step_delta_mhz = sub_ℕ (target - bin.freq_mhz) prev;
  effective_mhz = target;
}

-- No difference of a plausible clock and a target wraps.
pub offset_to-small :
    (target base : ℕ)
    → target < 2147483648
    → base ≤ 3500
    → offset_to target base ≡ sub_ℕ target base
unfolding offset_to wrap_i32 as_i32 ◌-ℤ◌
offset_to-small target base h k = ground arith

effective_of-small :
    (target base : ℕ)
    → target < 2147483648
    → base ≤ 3500
    → effective_of base (sub_ℕ target base) ≡ pos target
unfolding effective_of wrap_i32 as_i32 ◌+ℤ◌
effective_of-small target base h k = ground arith

step_of-small :
    (target base prev : ℕ)
    → target < 2147483648
    → prev < 2147483648
    → base < target
    → step_of (sub_ℕ target base) (pos prev) ≡ sub_ℕ (target - base) prev
unfolding step_of wrap_i32 ◌-ℤ◌
step_of-small target base prev h k r = ground arith

-- A bin that is not below the target is rejected, whatever the other numbers.
judge_not_raised :
    (bin : CurvePoint) (target : ℕ) (prev step effective : ℤ) (limits : PositiveOffsetLimits)
    (p : PositiveOffsetPlan)
    → target ≤ bin.freq_mhz
    → ¬ (judge bin prev (sub_ℕ target bin.freq_mhz) step effective limits ≡ planned p)
unfolding judge
judge_not_raised bin target prev step effective limits p h k = ground arith

judge_sound :
    (bin : CurvePoint) (target prev : ℕ) (limits : PositiveOffsetLimits) (p : PositiveOffsetPlan)
    → target < 2147483648
    → bin.freq_mhz < target
    → judge bin
        (pos prev)
        (sub_ℕ target bin.freq_mhz)
        (sub_ℕ (target - bin.freq_mhz) prev)
        (pos target)
        limits
      ≡ planned p
    → IsAdmissible bin target prev limits × (p ≡ raise_to bin target prev)
unfolding judge as_u32
judge_sound bin target prev limits p h r k = ground arith

judge_accepts :
    (bin : CurvePoint) (target prev : ℕ) (limits : PositiveOffsetLimits)
    → target < 2147483648
    → IsAdmissible bin target prev limits
    → judge bin
        (pos prev)
        (sub_ℕ target bin.freq_mhz)
        (sub_ℕ (target - bin.freq_mhz) prev)
        (pos target)
        limits
      ≡ planned (raise_to bin target prev)
unfolding judge as_u32
judge_accepts bin target prev limits h a = ground arith

module _ (bin : CurvePoint) (target prev : ℕ) (limits : PositiveOffsetLimits)
    (small : target < 2147483648) (kept : prev < 2147483648) (sane : bin.freq_mhz ≤ 3500) where
  plan_bin_at-raised :
      bin.freq_mhz < target
      → plan_bin_at bin target (pos prev) limits
        ≡ judge bin
            (pos prev)
            (sub_ℕ target bin.freq_mhz)
            (sub_ℕ (target - bin.freq_mhz) prev)
            (pos target)
            limits
  unfolding plan_bin_at
  plan_bin_at-raised r = rw (
    offset_to-small target bin.freq_mhz small sane,
    step_of-small target bin.freq_mhz prev small kept r,
    effective_of-small target bin.freq_mhz small sane,
  )

  plan_bin_at_not_raised :
      (p : PositiveOffsetPlan)
      → target ≤ bin.freq_mhz
      → ¬ (plan_bin_at bin target (pos prev) limits ≡ planned p)
  unfolding plan_bin_at
  plan_bin_at_not_raised p r = rw (offset_to-small target bin.freq_mhz small sane) (
      judge_not_raised bin target (pos prev) (step_of (sub_ℕ target bin.freq_mhz) (pos prev))
        (effective_of bin.freq_mhz (sub_ℕ target bin.freq_mhz)) limits p r)

  plan_bin_at_iff :
      (p : PositiveOffsetPlan)
      → (plan_bin_at bin target (pos prev) limits ≡ planned p)
        ↔ (IsAdmissible bin target prev limits × (p ≡ raise_to bin target prev))
  plan_bin_at_iff p = (
    λ h. elim (Bool-cases (ltb bin.freq_mhz target)) [
      | inl r ↦
          let raised : bin.freq_mhz < target = ground arith in
          judge_sound bin target prev limits p small raised (sym (plan_bin_at-raised raised) ∙ h)
      | inr r ↦ absurd (plan_bin_at_not_raised p (ground arith) h)
    ],
    λ (a, e).
        plan_bin_at-raised a.raised
        ∙ judge_accepts bin target prev limits small a
        ∙ ap planned (sym e),
  )

-- What is found in a curve passes a test that all its points pass.
all-find :
    (f g : CurvePoint → Bool) (ps : List CurvePoint) (p : CurvePoint)
    → all f ps ≡ true
    → find g ps ≡ some p
    → f p ≡ true
all-find f g [] p h k = cc
all-find f g (q ∷ ps) p h k = ground (arith, all-find f g ps p)

abbrev pub at_index : ℕ → CurvePoint → Bool
at_index i p = p.index == i

found_sane :
    (curve : List CurvePoint) (bin_index : ℕ) (bin : CurvePoint)
    → is_sane_base_curve curve ≡ true
    → find (at_index bin_index) curve ≡ some bin
    → bin.freq_mhz ≤ 3500
found_sane curve bin_index bin s f =
    ground (arith, all-find is_sane_base_point (at_index bin_index) curve bin)

bounded_sane :
    (curve : List CurvePoint) (bin_index target : ℕ) (prev : ℤ) (limits : PositiveOffsetLimits)
    → is_sane_base_curve curve ≡ true
    → plan_bounded_positive_offset curve bin_index target prev limits
      ≡ plan_found (find (at_index bin_index) curve) target prev limits
unfolding plan_bounded_positive_offset
bounded_sane [] bin_index target prev limits s = cc
bounded_sane (p ∷ ps) bin_index target prev limits s = rw s

bounded_insane :
    (curve : List CurvePoint) (bin_index target : ℕ) (prev : ℤ) (limits : PositiveOffsetLimits)
    (p : PositiveOffsetPlan)
    → is_sane_base_curve curve ≡ false
    → ¬ (plan_bounded_positive_offset curve bin_index target prev limits ≡ planned p)
unfolding plan_bounded_positive_offset
bounded_insane [] bin_index target prev limits p s h = cc
bounded_insane (q ∷ ps) bin_index target prev limits p s h = ground arith

-- The bounded planner accepts exactly where every point of the curve is sane, the bin is one of them,
-- and the raise is admissible: the bin is at or above the floor, its clock below the target, the raise
-- within the absolute cap, its growth over the previous one within the step cap, and the target within
-- the clock ceiling. It then plans the raise to the target, no more and no less. The target and the
-- previous offset are taken to fit in i32.
pub plan_bounded_iff :
    (curve : List CurvePoint) (bin_index target prev : ℕ) (limits : PositiveOffsetLimits)
    (p : PositiveOffsetPlan)
    → target < 2147483648
    → prev < 2147483648
    → (plan_bounded_positive_offset curve bin_index target (pos prev) limits ≡ planned p) ↔ (
        (is_sane_base_curve curve ≡ true)
        × (bin : CurvePoint) × (find (at_index bin_index) curve ≡ some bin)
        × IsAdmissible bin target prev limits
        × (p ≡ raise_to bin target prev))
plan_bounded_iff curve bin_index target prev limits p small kept = (forth, back)
  where
    forth :
        plan_bounded_positive_offset curve bin_index target (pos prev) limits ≡ planned p
        → (is_sane_base_curve curve ≡ true)
          × (bin : CurvePoint) × (find (at_index bin_index) curve ≡ some bin)
          × IsAdmissible bin target prev limits
          × (p ≡ raise_to bin target prev)
    forth h = elim (Bool-cases (is_sane_base_curve curve)) [
      | inl s ↦
          let k = sym (bounded_sane curve bin_index target (pos prev) limits s) ∙ h in
          elim (Option-cases (find (at_index bin_index) curve)) [
            | inl missing ↦ absurd (ground arith)
            | inr (bin, found) ↦
                let at : plan_bin_at bin target (pos prev) limits ≡ planned p =
                  sym (ap (λ o. plan_found o target (pos prev) limits) found) ∙ k in
                let sane = found_sane curve bin_index bin s found in
                let (a, e) = (plan_bin_at_iff bin target prev limits small kept sane p).0 at in
                (s, bin, found, a, e)
          ]
      | inr s ↦ absurd (bounded_insane curve bin_index target (pos prev) limits p s h)
    ]

    back :
        (is_sane_base_curve curve ≡ true)
          × (bin : CurvePoint) × (find (at_index bin_index) curve ≡ some bin)
          × IsAdmissible bin target prev limits
          × (p ≡ raise_to bin target prev)
        → plan_bounded_positive_offset curve bin_index target (pos prev) limits ≡ planned p
    back (s, bin, found, a, e) =
        bounded_sane curve bin_index target (pos prev) limits s
        ∙ ap (λ o. plan_found o target (pos prev) limits) found
        ∙ (plan_bin_at_iff bin target prev limits small kept
              (found_sane curve bin_index bin s found) p).1
            (a, e)
