-- ===== src/Probe/Guard.antt =====
-- What a confirmed write is refused for, `crates/service/src/gpu_undervolt.rs`: the bounds, the blacklist
-- of the Safe Loop's record and the voltage floor that it implies, and the durable ledger. Refusals are
-- data in place of their messages; i64 arithmetic wraps, as in a release build.
pub mod Confirmed
pub mod Crashed
use nidavellir.Shared.{
  ℕ, suc, ◌*◌, ◌/◌, ◌==◌, ltb, leb, Bool, true, false, not, ◌&&◌, ◌||◌, List, [], ◌∷◌, Option, none,
  some, is_some, if◌then◌else◌,
}
use nidavellir.Shared.Int.{ℤ, pos, negsuc, ◌-ℤ◌, ◌+ℤ◌, leb_ℤ, wrap_i64, sub_ℕ}
use nidavellir.Shared.Dict.{lookup}
use nidavellir.SafeLoop.Point.{TuningPoint, from_axes, BlacklistRegion}
use nidavellir.SafeLoop.Record.{SafeLoopRecord, is_blacklisted}
use nidavellir.SafeLoop.Recovery.{safe_mode_crash_threshold}
use nidavellir.Condemnation.Pairs.{CondemnedPairs, refuses}
use nidavellir.VfCurve.Bounded.{PositiveOffsetLimits, PositiveOffsetPlan}

unfoldable pub f2_intent : ℕ → PositiveOffsetPlan → TuningPoint
f2_intent target_mhz cand = from_axes (
    ("gpu_freq_mhz", pos target_mhz)
    ∷ ("gpu_vf_bin_mv", pos cand.voltage_mv)
    ∷ ("gpu_offset_mhz", cand.offset_mhz)
    ∷ [])

abbrev pub Pair : Type 0
Pair = ℤ × ℤ

abbrev pub ltb_ℤ : ℤ → ℤ → Bool
ltb_ℤ a b = not (leb_ℤ b a)

abbrev pub eq_ℤ : ℤ → ℤ → Bool
eq_ℤ a b = leb_ℤ a b && leb_ℤ b a

abbrev pair_of : Option ℤ → Option ℤ → List Pair → List Pair
pair_of (some clock) (some mv) rest = (clock, mv) ∷ rest
pair_of clock mv rest = rest

-- The points of the regions that have both axes.
unfoldable pub condemned_points : List BlacklistRegion → List Pair
condemned_points [] = []
condemned_points (region ∷ regions) =
    pair_of (lookup "gpu_freq_mhz" region.center.axes) (lookup "gpu_vf_bin_mv" region.center.axes)
      (condemned_points regions)

abbrev leb_point : Pair → Pair → Bool
leb_point (a, b) (c, d) = ltb_ℤ a c || (eq_ℤ a c && leb_ℤ b d)

unfoldable pub insert_point : Pair → List Pair → List Pair
insert_point p [] = p ∷ []
insert_point p (q ∷ r) = if leb_point p q then p ∷ q ∷ r else q ∷ insert_point p r

-- What `sort_unstable` makes of the points.
unfoldable pub sort_points : List Pair → List Pair
sort_points [] = []
sort_points (p ∷ r) = insert_point p (sort_points r)

-- `match env.last_mut()`
unfoldable pub extend_field : List Pair → ℤ → ℤ → List Pair
extend_field [] clock worst = (clock, worst) ∷ []
extend_field (p ∷ []) clock worst =
    if eq_ℤ p.0 clock then (p.0, worst) ∷ [] else p ∷ (clock, worst) ∷ []
extend_field (p ∷ q ∷ r) clock worst = p ∷ extend_field (q ∷ r) clock worst

abbrev max_i64 : ℤ → ℤ → ℤ
max_i64 a b = if leb_ℤ a b then b else a

unfoldable pub field_envelope : List Pair → ℤ → List Pair → List Pair
field_envelope env worst [] = env
field_envelope env worst ((clock, mv) ∷ pts) =
    let worst' = max_i64 worst mv in field_envelope (extend_field env clock worst') worst' pts

abbrev mul_i64 : ℤ → ℤ → ℤ
mul_i64 (pos a) (pos b) = wrap_i64 (pos (a * b))
mul_i64 (pos a) (negsuc b) = wrap_i64 (sub_ℕ 0 (a * suc b))
mul_i64 (negsuc a) (pos b) = wrap_i64 (sub_ℕ 0 (suc a * b))
mul_i64 (negsuc a) (negsuc b) = wrap_i64 (pos (suc a * suc b))

-- Division that truncates.
abbrev div_i64 : ℤ → ℤ → ℤ
div_i64 (pos a) (pos b) = pos (a / b)
div_i64 (pos a) (negsuc b) = sub_ℕ 0 (a / suc b)
div_i64 (negsuc a) (pos b) = sub_ℕ 0 (suc a / b)
div_i64 (negsuc a) (negsuc b) = wrap_i64 (pos (suc a / suc b))

abbrev sub_i64 : ℤ → ℤ → ℤ
sub_i64 a b = wrap_i64 (a -ℤ b)

abbrev add_i64 : ℤ → ℤ → ℤ
add_i64 a b = wrap_i64 (a +ℤ b)

abbrev interpolate_field : Pair → Pair → ℤ → ℤ
interpolate_field (c0, v0) (c1, v1) clock = add_i64 v0 (
    div_i64 (sub_i64 (add_i64 (mul_i64 (sub_i64 v1 v0) (sub_i64 clock c0)) (sub_i64 c1 c0)) (pos 1))
      (sub_i64 c1 c0))

-- The loop over `windows(2)`, with its two breaks.
unfoldable pub scan_field : ℤ → ℤ → List Pair → ℤ
scan_field clock floor [] = floor
scan_field clock floor (p ∷ []) = floor
scan_field clock floor (p ∷ q ∷ r) =
    let rest = scan_field clock q.1 (q ∷ r) in
    if leb_ℤ q.0 clock then rest else if ltb_ℤ p.0 clock then interpolate_field p q clock else floor

abbrev field_floor_of : List Pair → ℤ → Option ℤ
field_floor_of [] clock = none
field_floor_of (p ∷ r) clock = if ltb_ℤ clock p.0 then none else some (scan_field clock p.1 (p ∷ r))

unfoldable pub field_vf_floor_mv : SafeLoopRecord → ℤ → Option ℤ
field_vf_floor_mv rec clock_mhz =
    field_floor_of
      (field_envelope [] (negsuc 9223372036854775807)
        (sort_points (condemned_points rec.blacklist)))
      clock_mhz

abbrev is_under_floor : ℕ → Option ℤ → Bool
is_under_floor anchor_mv none = false
is_under_floor anchor_mv (some floor_mv) = leb_ℤ (pos anchor_mv) floor_mv

unfoldable pub field_pair_blacklisted : SafeLoopRecord → ℕ → ℕ → Bool
field_pair_blacklisted rec target_mhz anchor_mv =
    is_blacklisted rec
      (from_axes (("gpu_freq_mhz", pos target_mhz) ∷ ("gpu_vf_bin_mv", pos anchor_mv) ∷ []))
    || is_under_floor anchor_mv (field_vf_floor_mv rec (pos target_mhz))

unfoldable pub candidate_blacklisted : SafeLoopRecord → ℕ → PositiveOffsetPlan → Bool
candidate_blacklisted rec target_mhz cand =
    is_blacklisted rec (f2_intent target_mhz cand)
    || field_pair_blacklisted rec target_mhz cand.voltage_mv

pub data F2Refusal : Type 0 where
  single_step_only : Option ℕ → F2Refusal
  safe_mode_active boot_flag_already_armed no_valid_candidate blacklisted_intent start_mv_missing :
      F2Refusal
  too_many_crashes : ℕ → F2Refusal
  not_positive above_absolute_cap above_step_cap : ℤ → F2Refusal
  below_hardware_floor above_clock_ceiling : ℕ → F2Refusal
  ledger_condemned : ℕ → ℕ → F2Refusal

unfoldable pub ledger_refusal : CondemnedPairs → ℕ → ℕ → Option F2Refusal
ledger_refusal condemned target_mhz anchor_mv =
    if refuses condemned target_mhz anchor_mv
    then some (ledger_condemned target_mhz anchor_mv)
    else none

abbrev pub is_one : Option ℕ → Bool
is_one none = false
is_one (some n) = n == 1

abbrev pub candidate_refusal :
    SafeLoopRecord → PositiveOffsetLimits → ℕ → Option PositiveOffsetPlan → Option F2Refusal
candidate_refusal rec limits target_mhz none = some no_valid_candidate
candidate_refusal rec limits target_mhz (some cand) =
    if leb_ℤ cand.offset_mhz (pos 0)
    then some (not_positive cand.offset_mhz)
    else if ltb_ℤ limits.abs_max_offset_mhz cand.offset_mhz
    then some (above_absolute_cap cand.offset_mhz)
    else if ltb_ℤ limits.step_max_offset_mhz cand.step_delta_mhz
    then some (above_step_cap cand.step_delta_mhz)
    else if ltb cand.voltage_mv limits.hw_floor_mv
    then some (below_hardware_floor cand.voltage_mv)
    else if ltb limits.clock_ceiling_mhz cand.effective_mhz
    then some (above_clock_ceiling cand.effective_mhz)
    else if candidate_blacklisted rec target_mhz cand
    then some blacklisted_intent
    else none

unfoldable pub confirmed_f2_refusal :
    SafeLoopRecord
    → Bool
    → Option ℕ
    → Option PositiveOffsetPlan
    → PositiveOffsetLimits
    → ℕ
    → Option F2Refusal
confirmed_f2_refusal rec boot_flag_armed steps candidate limits target_mhz =
    if not (is_one steps)
    then some (single_step_only steps)
    else if rec.safe_mode
    then some safe_mode_active
    else if boot_flag_armed
    then some boot_flag_already_armed
    else if leb safe_mode_crash_threshold rec.consecutive_crashes
    then some (too_many_crashes rec.consecutive_crashes)
    else candidate_refusal rec limits target_mhz candidate

unfoldable pub confirmed_manual_prior_refusal :
    SafeLoopRecord
    → Bool
    → Option ℕ
    → Option ℕ
    → Option PositiveOffsetPlan
    → PositiveOffsetLimits
    → ℕ
    → Option F2Refusal
confirmed_manual_prior_refusal rec boot_flag_armed start_mv steps candidate manual_limits
      target_mhz =
    if is_some start_mv
    then confirmed_f2_refusal rec boot_flag_armed steps candidate manual_limits target_mhz
    else some start_mv_missing
