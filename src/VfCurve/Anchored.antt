-- ===== src/VfCurve/Anchored.antt =====
-- The anchored planner and writer, `crates/gpu-nvapi/src/lib.rs`: one bin is raised to the target, every
-- bin of a higher voltage is capped at it, and the bins below stay as they are.
pub mod Plan
pub mod Write
use nidavellir.Shared.{
  ℕ, ◌+◌, max, ltb, leb, ◌==◌, Bool, true, false, ◌&&◌, ◌||◌, not, List, [], ◌∷◌, ◌++◌,
  if◌then◌else◌, filter, u32,
}
use nidavellir.Shared.Int.{ℤ, pos, negsuc, ◌+ℤ◌, ◌-ℤ◌, leb_ℤ, wrap_i32, as_i32, as_u32}
use nidavellir.VfCurve.Ceiling.{CurvePoint, is_positive, is_negative, offset_to, khz}
use nidavellir.VfCurve.Bounded.{
  PositiveOffsetLimits, PositiveOffsetPlan, PlanError, raised_elsewhere, stays_above_target,
  not_monotone, out_of_bound, refused_at, Planned, rejected, planned, effective_of,
  plan_bounded_positive_offset,
}

pub data AnchoredBinRole : Type 0 where
  anchor_bin capped_above elastic_below : AnchoredBinRole

pub record AnchoredBinEntry : Type 0 where
  pub index : ℕ
  pub voltage_mv : ℕ
  pub base_mhz : ℕ
  pub offset_mhz : ℤ
  pub effective_mhz : ℕ
  pub role : AnchoredBinRole

pub record AnchoredPositiveOffsetPlan : Type 0 where
  pub target_mhz : ℕ
  pub anchor : PositiveOffsetPlan
  pub entries : List AnchoredBinEntry
  pub capped_above_bins : ℕ
  pub above_already_ok_bins : ℕ
  pub elastic_below_bins : ℕ
  pub max_positive_offset_mhz : ℤ
  pub max_negative_flatten_mhz : ℤ

-- The variables of the loop.
pub record Tally : Type 0 where
  pub entries : List AnchoredBinEntry
  pub capped : ℕ
  pub already_ok : ℕ
  pub elastic : ℕ
  pub flatten : ℤ

unfoldable pub no_bins : Tally
no_bins = record { entries = []; capped = 0; already_ok = 0; elastic = 0; flatten = pos 0 }

abbrev pub entry : CurvePoint → ℤ → ℕ → AnchoredBinRole → AnchoredBinEntry
entry p offset effective role = record {
  index = p.index;
  voltage_mv = p.voltage_mv;
  base_mhz = p.freq_mhz;
  offset_mhz = offset;
  effective_mhz = effective;
  role = role;
}

abbrev max_i32 : ℤ → ℤ → ℤ
max_i32 a b = if leb_ℤ a b then b else a

-- `-offset` in i32
unfoldable pub negated : ℤ → ℤ
unfolding wrap_i32 ◌-ℤ◌
negated z = wrap_i32 (pos 0 -ℤ z)

-- A bin of a higher voltage, given its offset and the clock that it leads to.
unfoldable pub cap_with : CurvePoint → ℤ → ℤ → ℤ → Tally → Planned Tally
unfolding as_u32 negated
cap_with p target offset effective t =
    if is_positive offset
    then rejected raised_elsewhere
    else if not (leb_ℤ effective target)
    then rejected stays_above_target
    else let listed =
        t.entries ++ entry p offset (as_u32 (max_i32 (pos 0) effective)) capped_above ∷ [] in
      if is_negative offset
      then planned (record t {
        entries = listed;
        capped = u32 (t.capped + 1);
        flatten = max_i32 t.flatten (negated offset);
      })
      else planned (record t { entries = listed; already_ok = u32 (t.already_ok + 1) })

unfoldable pub cap_offset : ℕ → ℕ → ℤ
unfolding as_i32 offset_to
cap_offset target base =
    if leb_ℤ (as_i32 base) (as_i32 target) then pos 0 else offset_to target base

unfoldable pub cap_bin : CurvePoint → ℕ → Tally → Planned Tally
unfolding as_i32
cap_bin p target t =
    let offset = cap_offset target p.freq_mhz in
    cap_with p (as_i32 target) offset (effective_of p.freq_mhz offset) t

unfoldable pub leave_bin : CurvePoint → ℕ → Tally → Planned Tally
unfolding as_i32
leave_bin p target t =
    if not (leb_ℤ (as_i32 p.freq_mhz) (as_i32 target))
    then rejected not_monotone
    else planned (record t {
      entries = t.entries ++ entry p (pos 0) p.freq_mhz elastic_below ∷ [];
      elastic = u32 (t.elastic + 1);
    })

-- One turn of the loop.
unfoldable pub anchored_bin : PositiveOffsetPlan → ℕ → CurvePoint → Tally → Planned Tally
anchored_bin anchor target p t =
    if p.index == anchor.index
    then planned
        (record t { entries = t.entries ++ entry p anchor.offset_mhz target anchor_bin ∷ [] })
    else if ltb anchor.voltage_mv p.voltage_mv
    then cap_bin p target t
    else leave_bin p target t

-- `?` on a result.
abbrev pub bind : {A B : Type 0} → Planned A → (A → Planned B) → Planned B
bind (rejected e) next = rejected e
bind (planned a) next = next a

unfoldable pub anchored_loop : PositiveOffsetPlan → ℕ → List CurvePoint → Tally → Planned Tally
anchored_loop anchor target [] t = planned t
anchored_loop anchor target (p ∷ ps) t =
    bind (anchored_bin anchor target p t) (λ t'. anchored_loop anchor target ps t')

abbrev pub raises : AnchoredBinEntry → Bool
raises e = is_positive e.offset_mhz

-- `positive.len() != 1 || positive[0].index != anchor.index`, negated.
abbrev pub only_anchor : ℕ → List AnchoredBinEntry → Bool
only_anchor i [] = false
only_anchor i (e ∷ []) = e.index == i
only_anchor i (e ∷ d ∷ es) = false

unfoldable pub conclude : PositiveOffsetPlan → ℕ → Tally → Planned AnchoredPositiveOffsetPlan
conclude anchor target t =
    if not (only_anchor anchor.index (filter raises t.entries))
    then rejected raised_elsewhere
    else planned (record {
      target_mhz = target;
      anchor = anchor;
      entries = t.entries;
      capped_above_bins = t.capped;
      above_already_ok_bins = t.already_ok;
      elastic_below_bins = t.elastic;
      max_positive_offset_mhz = anchor.offset_mhz;
      max_negative_flatten_mhz = t.flatten;
    })

unfoldable pub plan_bounded_anchored_positive_offset :
    List CurvePoint → ℕ → ℕ → ℤ → PositiveOffsetLimits → Planned AnchoredPositiveOffsetPlan
unfolding no_bins
plan_bounded_anchored_positive_offset curve bin_index target prev limits =
    bind (plan_bounded_positive_offset curve bin_index target prev limits)
      (λ anchor. bind (anchored_loop anchor target curve no_bins) (λ t. conclude anchor target t))

module _ (takes : ℕ → ℤ → Bool) where
  -- The loop of the writer over the entries; the offsets set so far are in `done`.
  unfoldable pub write_anchored :
      AnchoredPositiveOffsetPlan
      → List AnchoredBinEntry
      → List (ℕ × ℤ)
      → List (ℕ × ℤ) × Planned AnchoredPositiveOffsetPlan
  write_anchored plan [] done = (done, planned plan)
  write_anchored plan (e ∷ es) done =
      let set = khz e.offset_mhz in
      let rest = write_anchored plan es (done ++ (e.index, set) ∷ []) in
      if is_positive e.offset_mhz && not (e.index == plan.anchor.index)
      then (done, rejected out_of_bound)
      else if takes e.index set
      then rest
      else (done, rejected (refused_at e.index))

  unfoldable pub write_plan :
      PositiveOffsetLimits
      → Planned AnchoredPositiveOffsetPlan
      → List (ℕ × ℤ) × Planned AnchoredPositiveOffsetPlan
  write_plan limits (rejected e) = ([], rejected e)
  write_plan limits (planned plan) =
      if leb_ℤ plan.anchor.offset_mhz (pos 0)
        || not (leb_ℤ plan.anchor.offset_mhz limits.abs_max_offset_mhz)
      then ([], rejected out_of_bound)
      else write_anchored plan plan.entries []

  unfoldable pub apply_bounded_anchored_positive_offset :
      List CurvePoint
      → ℕ
      → ℕ
      → ℤ
      → PositiveOffsetLimits
      → List (ℕ × ℤ) × Planned AnchoredPositiveOffsetPlan
  apply_bounded_anchored_positive_offset curve bin_index target prev limits =
      write_plan limits (plan_bounded_anchored_positive_offset curve bin_index target prev limits)
