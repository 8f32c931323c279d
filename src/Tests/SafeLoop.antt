-- ===== src/Tests/SafeLoop.antt =====
-- The theorems on the record, the phases and the bugcheck codes at concrete inputs,
-- `crates/core/src/safe_loop.rs`.
use nidavellir.Shared.{◌≡◌, ◌⊎◌, inr, refl, true, false, List, [], ◌∷◌, none, some, arith}
use nidavellir.Shared.Int.{pos}
use nidavellir.Shared.Dict.{lookup}
use nidavellir.SafeLoop.Point.{TuningPoint, axis}
use nidavellir.SafeLoop.Point.Region.{IsSmallPoint}
use nidavellir.SafeLoop.Phase.{
  SafeLoopEvent, start_probe, applied, enter_dwell, soft_fail, dwell_passed,
}
use nidavellir.SafeLoop.Bugcheck.{
  CrashClass, unknown, oc_instability, unrelated, parse_bugcheck_code,
}
use nidavellir.SafeLoop.Bugcheck.Print.{parse-print}
use nidavellir.SafeLoop.Record.{
  mark_validated, record_forge_incident, push_capped, acknowledge_forge_incident,
  acknowledge_stored, ForgeIncident, runtime_failure, SafeLoopRecord, default_record,
  is_blacklisted,
}
use nidavellir.SafeLoop.Recovery.{BootFlag, boot, decide_recovery, apply_recovery}
use nidavellir.SafeLoop.Learning.{Stamp}
use nidavellir.F2.Bridge.{PowerSweepPoint}
use nidavellir.SafeLoop.Recovery.Boot.{crash-is_blacklisted, recedes_to_crashed}
use nidavellir.SafeLoop.Recovery.History.{
  Op, validate, clear_latch, report, acknowledge_pending, restart, operator_failure, step, run,
  Forgets,
}
use nidavellir.SafeLoop.Recovery.History.Invariant.{
  IsValid, HaveFreshIds, default_record-IsValid, run-IsValid,
}
use nidavellir.SafeLoop.Recovery.History.Latch.{run-is_blacklisted, crashes_of, three_crashes}

abbrev pub point : TuningPoint
point = record { axes = ("core_mhz", pos 1950) ∷ ("core_mv", pos 900) ∷ [] }

abbrev near : TuningPoint
near = record { axes = ("core_mhz", pos 1949) ∷ ("core_mv", pos 901) ∷ [] }

point-IsSmallPoint : IsSmallPoint point
unfolding axis lookup
point-IsSmallPoint k = ground arith

near-IsSmallPoint : IsSmallPoint near
unfolding axis lookup
near-IsSmallPoint k = ground arith

abbrev retried : List SafeLoopEvent
retried =
    start_probe ∷ applied ∷ enter_dwell ∷ soft_fail ∷ start_probe ∷ applied ∷ enter_dwell
    ∷ dwell_passed ∷ []

parse-print_example :
    parse_bugcheck_code (b':' ∷ b' ' ∷ b'0' ∷ b'x' ∷ b'1' ∷ b'1' ∷ b'6' ∷ b' ' ∷ []) ≡ some 0x116
parse-print_example =
    parse-print false (b':' ∷ b' ' ∷ []) 1 (1 ∷ 6 ∷ []) (b' ' ∷ []) refl (ground arith) refl

abbrev pub probe : BootFlag
probe = record { intent = point; phase = "gpu_sweep"; timestamp = "2026-01-01" }

abbrev supervised : BootFlag
supervised = record { intent = near; phase = "f2_undervolt_probe"; timestamp = "2026-01-02" }

abbrev pub incident : ForgeIncident
incident = record {
  id = "i1";
  kind = runtime_failure;
  detected_at = "2026-01-01";
  run_id = some "r1";
  gpu_key = none;
  target_mhz = some 1950;
  anchor_mv = some 900;
  message = "driver reset";
  acknowledged = false;
}

abbrev pareto : PowerSweepPoint
pareto = record {
  voltage_mv = 900;
  clock_mhz = 1950;
  offset_mhz = pos 30;
  power_w = 0;
  max_power_w = 0;
  power_p99_w = none;
  power_std_w = 0;
  power_capped_frac = 0;
  stable = true;
  perf_per_watt = 0;
  measured_voltage_mv = none;
  vf_table_voltage_mv = some 887;
  boundary_voltage_mv = none;
  apply_margin_mv = none;
  base_apply_mv = none;
  min_clock_mhz = none;
  p5_clock_mhz = none;
  p95_clock_mhz = none;
  avg_measured_voltage_mv = none;
  min_measured_voltage_mv = none;
  max_measured_voltage_mv = none;
  voltage_sample_count = none;
  voltage_quality = none;
  dwell_sample_count = none;
  dwell_duration_ms = none;
  start_temp_c = none;
  end_temp_c = none;
  avg_temp_c = none;
  max_temp_c = none;
  thermal_throttled = true;
  telemetry_quality = none;
  target_clock_mhz = none;
  confidence = none;
  validation_count = none;
  apply_qualified = true;
  apply_qualification_version = none;
}

abbrev stamp : Stamp
stamp = record { id = "i2"; detected_at = "2026-01-03"; message = "unstable in use" }

abbrev life : List Op
life =
    validate point
    ∷ report incident
    ∷ restart (some probe) oc_instability
    ∷ acknowledge_pending
    ∷ restart none unknown
    ∷ operator_failure pareto none "gpu0" stamp
    ∷ clear_latch
    ∷ []

life-HaveFreshIds : HaveFreshIds default_record life
unfolding step mark_validated record_forge_incident push_capped boot decide_recovery apply_recovery
    acknowledge_forge_incident acknowledge_stored default_record
life-HaveFreshIds = (tt, (tt, (tt, (tt, (tt, (refl, (tt, tt)))))))

run-IsValid_example : IsValid (run default_record life)
run-IsValid_example = run-IsValid default_record life life-HaveFreshIds default_record-IsValid

abbrev pub crashed : SafeLoopRecord
crashed = (boot (some probe) oc_instability default_record).0

probe_learned : is_blacklisted crashed point ≡ true
unfolding default_record
probe_learned = (crash-is_blacklisted probe oc_instability default_record (inr (ground arith))).0

run-is_blacklisted_example : (is_blacklisted (run crashed life) point ≡ true) ⊎ Forgets life
run-is_blacklisted_example = run-is_blacklisted crashed life point probe_learned

abbrev three : List (BootFlag × CrashClass)
three = (probe, unknown) ∷ (probe, oc_instability) ∷ (supervised, unrelated) ∷ []

three_crashes_example : (run default_record (crashes_of three)).safe_mode ≡ true
three_crashes_example =
    three_crashes default_record three default_record-IsValid (ground arith)
      (unfold default_record in ground arith)

abbrev latched : SafeLoopRecord
latched = record default_record { safe_mode = true; consecutive_crashes = 3 }

abbrev stable_before : SafeLoopRecord
stable_before = record default_record { last_validated = some point }

recedes_to_crashed_example :
    let (after, target) = boot (some probe) oc_instability stable_before in
    (target ≡ point) × (is_blacklisted after target ≡ true)
recedes_to_crashed_example =
    recedes_to_crashed probe oc_instability stable_before
      (inr (unfold default_record in ground arith)) refl
