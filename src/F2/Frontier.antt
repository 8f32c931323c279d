-- ===== src/F2/Frontier.antt =====
-- The learned frontier of `crates/core/src/f2_observation.rs`: the last good and the first bad voltage of
-- a target, the bracket between them, the crash floor, and the entries of the frontier.
pub mod Memory
pub mod Bracket
pub mod Candidate
use nidavellir.Shared.{
  ℕ, ◌-◌, ◌==◌, ltb, leb, String, Bool, true, false, not, ◌&&◌, ◌||◌, List, [], ◌∷◌, map, Option,
  none, some, if◌then◌else◌, is_some, unwrap_or, length, any, all, filter, saturating_add,
}
use nidavellir.Shared.Extremes.{min_by_key, max_by_key}
use nidavellir.SafeLoop.Record.{opt_eq}
use nidavellir.F2.Float.{F64}
use nidavellir.F2.Kinds.{
  apply_qualification, eq_kind, F2QualificationPattern, eq_pattern, is_validated, is_bad,
  is_device_lost,
}
use nidavellir.F2.Observation.{F2Observation, VoltageBracket, F2FrontierEntry}
use nidavellir.F2.Evidence.{
  is_some_and, required_qualification_patterns, is_current_discovery_evidence,
  is_current_qualification_pass, pattern_of,
}

-- `option.is_none_or(p)`
abbrev pub is_none_or {ℓ} : {A : Type ℓ} → Option A → (A → Bool) → Bool
is_none_or none p = true
is_none_or (some x) p = p x

abbrev pub voltage_of : F2Observation → ℕ
voltage_of o = o.anchor_mv

-- `option.map(|o| o.anchor_mv)`
abbrev pub anchor_of : Option F2Observation → Option ℕ
anchor_of none = none
anchor_of (some o) = some o.anchor_mv

abbrev pub is_failure : ℕ → F2Observation → Bool
is_failure target o =
    o.target_mhz == target && not (eq_kind o.evidence_kind apply_qualification) && is_bad o.outcome

unfoldable pub first_bad_for_target : List F2Observation → ℕ → Option F2Observation
first_bad_for_target obs target = max_by_key voltage_of (filter (is_failure target) obs)

abbrev pub is_above : Option ℕ → F2Observation → Bool
is_above first_bad_mv o = is_none_or first_bad_mv (λ bad. ltb bad o.anchor_mv)

abbrev pub is_good : ℕ → Option ℕ → F2Observation → Bool
is_good target first_bad_mv o =
    o.target_mhz == target && is_validated o.outcome && is_above first_bad_mv o

unfoldable pub last_good_for_target : List F2Observation → ℕ → Option F2Observation
last_good_for_target obs target =
    min_by_key voltage_of
      (filter (is_good target (anchor_of (first_bad_for_target obs target))) obs)

abbrev pub is_discovery_good : ℕ → Option ℕ → F2Observation → Bool
is_discovery_good target first_bad_mv o =
    o.target_mhz == target
    && is_validated o.outcome
    && is_current_discovery_evidence o
    && is_above first_bad_mv o

unfoldable pub last_discovery_good_for_target : List F2Observation → ℕ → Option F2Observation
last_discovery_good_for_target obs target =
    min_by_key voltage_of
      (filter (is_discovery_good target (anchor_of (first_bad_for_target obs target))) obs)

abbrev pub bracket_of : Option ℕ → Option ℕ → Option VoltageBracket
bracket_of none first_bad = none
bracket_of (some good) none = none
bracket_of (some good) (some bad) =
    if ltb bad good
    then some (record { first_bad_mv = bad; last_good_mv = good; width_mv = good - bad })
    else none

unfoldable pub bracket_for_target : List F2Observation → ℕ → Option VoltageBracket
bracket_for_target obs target =
    bracket_of (anchor_of (last_good_for_target obs target))
      (anchor_of (first_bad_for_target obs target))

unfoldable pub is_known_bad : List F2Observation → ℕ → ℕ → Bool
is_known_bad obs target mv = any (λ o. is_failure target o && leb mv o.anchor_mv) obs

abbrev is_on : Option String → F2Observation → Bool
is_on none o = true
is_on (some gpu) o = opt_eq o.gpu_key (some gpu)

abbrev pub is_baseline : ℕ → Option String → F2Observation → Bool
is_baseline target gpu o =
    o.target_mhz == target
    && is_validated o.outcome
    && o.reset_to_stock_ok
    && o.boot_flag_cleared
    && (not o.device_lost && not o.unstable && not o.silent_error && not o.clock_drop)
    && is_on gpu o

unfoldable pub validated_descent_baseline :
    List F2Observation → ℕ → Option String → Option F2Observation
validated_descent_baseline obs target gpu =
    min_by_key voltage_of (filter (is_baseline target gpu) obs)

abbrev pub crash_proximity_min_mv : ℕ
crash_proximity_min_mv = 12

-- What `crash_floor_for_target` counts: a lost device, and neither `tdr_or_crash` nor `CrashOrRecovery`.
abbrev pub is_crash : ℕ → F2Observation → Bool
is_crash target o = o.target_mhz == target && (o.device_lost || is_device_lost o.outcome)

unfoldable pub crash_floor_for_target : List F2Observation → ℕ → Option ℕ
crash_floor_for_target obs target =
    max_by_key (λ mv. mv) (map voltage_of (filter (is_crash target) obs))

abbrev pub is_clear : Option ℕ → F2Observation → Bool
is_clear crash_floor o =
    is_none_or crash_floor (λ mv. leb (saturating_add mv crash_proximity_min_mv) o.anchor_mv)

abbrev pub is_candidate : ℕ → Option ℕ → Option ℕ → F2Observation → Bool
is_candidate target first_bad_mv crash_floor o =
    o.target_mhz == target
    && is_validated o.outcome
    && is_current_discovery_evidence o
    && is_above first_bad_mv o
    && is_clear crash_floor o

-- The closure that the filter of `discovery_frontier_candidates` takes.
abbrev pub candidate_test : List F2Observation → ℕ → F2Observation → Bool
candidate_test obs target =
    is_candidate target (anchor_of (first_bad_for_target obs target))
      (crash_floor_for_target obs target)

unfoldable pub discovery_frontier_candidates : List F2Observation → ℕ → List F2Observation
discovery_frontier_candidates obs target = filter (candidate_test obs target) obs

abbrev pub proves : F2QualificationPattern → F2Observation → Bool
proves p o = is_current_qualification_pass o && is_some_and (pattern_of o) (λ q. eq_pattern q p)

abbrev pub is_evidence_at : ℕ → ℕ → F2Observation → Bool
is_evidence_at target mv o =
    o.target_mhz == target
    && is_validated o.outcome
    && o.anchor_mv == mv
    && (is_current_discovery_evidence o || is_current_qualification_pass o)

abbrev pub is_qualified_at : List F2Observation → ℕ → F2Observation → Bool
is_qualified_at obs target candidate =
    all
      (λ p.
        any (λ o. o.target_mhz == target && o.anchor_mv == candidate.anchor_mv && proves p o) obs)
      required_qualification_patterns

module _ (float : F64) where
  abbrev evidence_units : ℕ → List F2Observation → ℕ
  evidence_units sum [] = sum
  evidence_units sum (o ∷ os) =
      let duration =
        float.div (float.of_int (unwrap_or o.dwell_duration_ms 15000)) (float.of_int 15000) in
      let quality =
        float.minimum (float.div (float.of_int (unwrap_or o.sample_count 100)) (float.of_int 100))
          (float.of_int 1) in
      evidence_units (float.add sum (float.mul duration quality)) os

  abbrev pub maturity : ℕ → ℕ
  maturity units =
      float.minimum (float.sub (float.of_int 1) (float.powf float.literal_0_15 units))
        float.literal_0_99

  unfoldable pub frontier_confidence : ℕ → ℕ
  frontier_confidence count = if count == 0 then float.of_int 0 else maturity (float.of_int count)

  unfoldable pub frontier_confidence_from_evidence : List F2Observation → ℕ
  frontier_confidence_from_evidence validations =
      let units = evidence_units (float.of_int 0) validations in
      if float.at_most units (float.of_int 0) then float.of_int 0 else maturity units

  abbrev width_of : Option VoltageBracket → Option ℕ
  width_of none = none
  width_of (some b) = some b.width_mv

  unfoldable pub frontier_entry_from_best : List F2Observation → ℕ → F2Observation → F2FrontierEntry
  frontier_entry_from_best obs target best =
      let evidence = filter (is_evidence_at target best.anchor_mv) obs in
      record {
        target_mhz = target;
        best_anchor_mv = best.anchor_mv;
        offset_mhz = best.offset_mhz;
        watts = best.watts;
        max_watts = best.max_watts;
        power_p99_w = best.power_p99_w;
        avg_clock_mhz = best.avg_clock_mhz;
        sustained_clock_mhz = best.sustained_clock_mhz;
        sustained_upper_clock_mhz = best.sustained_upper_clock_mhz;
        power_capped_frac = best.power_capped_frac;
        dwell_duration_ms = best.dwell_duration_ms;
        sample_count = best.sample_count;
        max_temp_c = best.max_temp_c;
        thermal_throttled = best.thermal_throttled;
        confidence = frontier_confidence_from_evidence evidence;
        validation_count =
            length (filter (λ p. any (proves p) evidence) required_qualification_patterns);
        first_bad_mv = anchor_of (first_bad_for_target obs target);
        bracket_width_mv = width_of (bracket_for_target obs target);
        observation_count = length (filter (λ o. o.target_mhz == target) obs);
        last_updated = best.timestamp;
        safety_notes = none;
      }
