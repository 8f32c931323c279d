-- ===== src/VfCurve/Ceiling.antt =====
-- The ceiling planners and the monotone writer of `crates/gpu-nvapi/src/lib.rs`. Clocks and voltages are
-- u32, offsets i32; casts and differences wrap as in a release build. The driver is a parameter: whether
-- `set_point` takes an offset, in kHz, for a bin. A writer returns the offsets that it has set, in order,
-- and its result.
pub mod Monotone
use nidavellir.Shared.{
  ℕ, ◌+◌, ◌≡◌, ltb, leb, ◌==◌, Bool, true, false, ◌&&◌, not, List, [], ◌∷◌, ◌++◌, map, Option, none,
  some, if◌then◌else◌, any, filter,
}
use nidavellir.Shared.Int.{ℤ, pos, negsuc, ◌-ℤ◌, ◌*ℤ◌, wrap_i32, as_i32}

-- `(index, voltage_mv, freq_mhz)`
pub record CurvePoint : Type 0 where
  pub index : ℕ
  pub voltage_mv : ℕ
  pub freq_mhz : ℕ

-- `min_by_key` on the voltage keeps the first of equal minima.
abbrev lowest_from : CurvePoint → List CurvePoint → CurvePoint
lowest_from best [] = best
lowest_from best (p ∷ ps) = lowest_from (if leb best.voltage_mv p.voltage_mv then best else p) ps

-- `max_by_key` keeps the last of equal maxima.
abbrev highest_from : CurvePoint → List CurvePoint → CurvePoint
highest_from best [] = best
highest_from best (p ∷ ps) = highest_from (if leb best.voltage_mv p.voltage_mv then p else best) ps

abbrev bin_of : CurvePoint → ℕ × ℕ
bin_of p = (p.index, p.voltage_mv)

abbrev highest_bin : List CurvePoint → Option (ℕ × ℕ)
highest_bin [] = none
highest_bin (p ∷ ps) = some (bin_of (highest_from p ps))

abbrev lowest_bin : List CurvePoint → Option (ℕ × ℕ) → Option (ℕ × ℕ)
lowest_bin [] clamped = clamped
lowest_bin (p ∷ ps) clamped = some (bin_of (lowest_from p ps))

unfoldable pub nearest_vf_bin_at_or_above : List CurvePoint → ℕ → Option (ℕ × ℕ)
nearest_vf_bin_at_or_above curve measured_mv =
    lowest_bin (filter (λ p. leb measured_mv p.voltage_mv) curve) (highest_bin curve)

pub data VfBinClass : Type 0 where
  below_ceiling flatten_down flatten_up already_at_target : VfBinClass

pub record VfWritePlanEntry : Type 0 where
  pub index : ℕ
  pub voltage_mv : ℕ
  pub base_mhz : ℕ
  pub desired_offset_mhz : ℤ
  pub is_below_ceiling : Bool
  pub in_flatten_set : Bool
  pub desired_offset_is_zero : Bool
  pub class : VfBinClass

abbrev pub is_zero : ℤ → Bool
is_zero (pos n) = n == 0
is_zero (negsuc n) = false

abbrev pub is_negative : ℤ → Bool
is_negative (pos n) = false
is_negative (negsuc n) = true

abbrev pub is_positive : ℤ → Bool
is_positive (pos n) = ltb 0 n
is_positive (negsuc n) = false

-- `target_mhz as i32 - base_mhz as i32`
unfoldable pub offset_to : ℕ → ℕ → ℤ
unfolding wrap_i32 as_i32 ◌-ℤ◌
offset_to target base = wrap_i32 (as_i32 target -ℤ as_i32 base)

abbrev pub class_of : Bool → ℤ → VfBinClass
class_of flat offset =
    if not flat
    then below_ceiling
    else if is_zero offset
    then already_at_target
    else if is_negative offset
    then flatten_down
    else flatten_up

abbrev entry_of : CurvePoint → Bool → ℤ → VfBinClass → VfWritePlanEntry
entry_of p flat offset class = record {
  index = p.index;
  voltage_mv = p.voltage_mv;
  base_mhz = p.freq_mhz;
  desired_offset_mhz = offset;
  is_below_ceiling = not flat;
  in_flatten_set = flat;
  desired_offset_is_zero = is_zero offset;
  class = class;
}

abbrev plan_bin : ℕ → ℕ → CurvePoint → VfWritePlanEntry
plan_bin ceiling_mv target_mhz p =
    let flat = leb ceiling_mv p.voltage_mv in
    let offset = if flat then offset_to target_mhz p.freq_mhz else pos 0 in
    entry_of p flat offset (class_of flat offset)

unfoldable pub plan_vf_ceiling : List CurvePoint → ℕ → ℕ → List VfWritePlanEntry
plan_vf_ceiling curve ceiling_mv target_mhz = map (plan_bin ceiling_mv target_mhz) curve

abbrev pub plan_bin_monotone : ℕ → ℕ → CurvePoint → VfWritePlanEntry
plan_bin_monotone ceiling_mv target_mhz p =
    let flat = leb ceiling_mv p.voltage_mv in
    if not flat
    then entry_of p flat (pos 0) below_ceiling
    else if ltb target_mhz p.freq_mhz
    then entry_of p flat (offset_to target_mhz p.freq_mhz) flatten_down
    else entry_of p flat (pos 0) already_at_target

unfoldable pub plan_vf_ceiling_monotone : List CurvePoint → ℕ → ℕ → List VfWritePlanEntry
plan_vf_ceiling_monotone curve ceiling_mv target_mhz =
    map (plan_bin_monotone ceiling_mv target_mhz) curve

pub data WriteError : Type 0 where
  no_curve : WriteError
  no_bin_at_ceiling : WriteError
  positive_offset : ℕ → WriteError
  refused : ℕ → WriteError

pub data Outcome : Type 0 where
  failed : WriteError → Outcome
  wrote : ℕ → Outcome

-- `offset * 1000`, in i32.
unfoldable pub khz : ℤ → ℤ
unfolding wrap_i32 ◌*ℤ◌
khz offset = wrap_i32 (offset *ℤ 1000)

module _ (takes : ℕ → ℤ → Bool) where
  -- The loop of `apply_vf_ceiling`; `n` counts the offsets that are not 0.
  unfoldable pub write_ceiling : List VfWritePlanEntry → List (ℕ × ℤ) → ℕ → List (ℕ × ℤ) × Outcome
  write_ceiling [] done n = (done, wrote n)
  write_ceiling (e ∷ plan) done n =
      let set = khz e.desired_offset_mhz in
      let rest =
        write_ceiling plan (done ++ (e.index, set) ∷ [])
          (if is_zero e.desired_offset_mhz then n else n + 1) in
      if takes e.index set then rest else (done, failed (refused e.index))

  unfoldable pub apply_vf_ceiling : List CurvePoint → ℕ → ℕ → List (ℕ × ℤ) × Outcome
  apply_vf_ceiling [] ceiling_mv target_mhz = ([], failed no_curve)
  apply_vf_ceiling (p ∷ curve) ceiling_mv target_mhz =
      write_ceiling (plan_vf_ceiling (p ∷ curve) ceiling_mv target_mhz) [] 0

  -- The loop of `apply_vf_ceiling_monotone`.
  unfoldable pub write_monotone : List VfWritePlanEntry → List (ℕ × ℤ) → ℕ → List (ℕ × ℤ) × Outcome
  write_monotone [] done n = (done, wrote n)
  write_monotone (e ∷ plan) done n =
      let set = khz e.desired_offset_mhz in
      let rest =
        write_monotone plan (done ++ (e.index, set) ∷ [])
          (if is_zero e.desired_offset_mhz then n else n + 1) in
      if is_positive e.desired_offset_mhz
      then (done, failed (positive_offset e.index))
      else if takes e.index set
      then rest
      else (done, failed (refused e.index))

  unfoldable pub apply_vf_ceiling_monotone : List CurvePoint → ℕ → ℕ → List (ℕ × ℤ) × Outcome
  apply_vf_ceiling_monotone [] ceiling_mv target_mhz = ([], failed no_curve)
  apply_vf_ceiling_monotone (p ∷ curve) ceiling_mv target_mhz =
      let plan = plan_vf_ceiling_monotone (p ∷ curve) ceiling_mv target_mhz in
      if not (any (λ e. e.in_flatten_set) plan)
      then ([], failed no_bin_at_ceiling)
      else write_monotone plan [] 0

-- The driver takes the offset.
abbrev pub IsTaken : (ℕ → ℤ → Bool) → ℕ × ℤ → Type 0
IsTaken takes w = takes w.0 w.1 ≡ true
