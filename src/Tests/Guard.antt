-- ===== src/Tests/Guard.antt =====
-- The preflight at concrete inputs, `crates/service/src/gpu_undervolt.rs`.
use nidavellir.Shared.{ℕ, ◌≡◌, refl, ◌⊎◌, inl, inr, false, List, [], ◌∷◌, none, some, arith}
use nidavellir.Shared.Int.{pos, ◌-ℤ◌, ◌+ℤ◌, wrap_i64}
use nidavellir.Shared.Dict.{lookup}
use nidavellir.SafeLoop.Bugcheck.{oc_instability, unknown}
use nidavellir.SafeLoop.Point.{BlacklistRegion}
use nidavellir.SafeLoop.Record.{SafeLoopRecord, default_record, clear_recovery_latch}
use nidavellir.SafeLoop.Recovery.{BootFlag, boot}
use nidavellir.SafeLoop.Recovery.History.{Op, clear_latch, restart, field_failure, run, Forgets}
use nidavellir.VfCurve.Bounded.{PositiveOffsetLimits, PositiveOffsetPlan}
use nidavellir.Probe.Guard.{
  f2_intent, condemned_points, insert_point, sort_points, extend_field, field_envelope, scan_field,
  field_vf_floor_mv, confirmed_f2_refusal,
}
use nidavellir.Probe.Guard.Crashed.{crash_refused, trip_forgotten}

abbrev region_at : ℕ → ℕ → BlacklistRegion
region_at clock mv = record {
  center = record { axes = ("gpu_freq_mhz", pos clock) ∷ ("gpu_vf_bin_mv", pos mv) ∷ [] };
  radius = pos 1;
}

abbrev condemned : SafeLoopRecord
condemned = record default_record { blacklist = region_at 1900 900 ∷ region_at 1800 850 ∷ [] }

-- No floor below the lowest clock, a ceil interpolation between two, and a flat floor above the highest.
field_floor_test :
    (field_vf_floor_mv condemned (pos 1799) ≡ none)
    × (field_vf_floor_mv condemned (pos 1800) ≡ some (pos 850))
    × (field_vf_floor_mv condemned (pos 1801) ≡ some (pos 851))
    × (field_vf_floor_mv condemned (pos 1850) ≡ some (pos 875))
    × (field_vf_floor_mv condemned (pos 2100) ≡ some (pos 900))
unfolding field_vf_floor_mv condemned_points insert_point sort_points extend_field field_envelope
    scan_field lookup wrap_i64 ◌-ℤ◌ ◌+ℤ◌
field_floor_test = (refl, refl, refl, refl, refl)

abbrev tried : PositiveOffsetPlan
tried = record {
  index = 40;
  voltage_mv = 875;
  base_mhz = 1800;
  offset_mhz = pos 100;
  prev_offset_mhz = pos 80;
  step_delta_mhz = pos 20;
  effective_mhz = 1900;
}

abbrev limits : PositiveOffsetLimits
limits = record {
  abs_max_offset_mhz = pos 150;
  step_max_offset_mhz = pos 45;
  hw_floor_mv = 800;
  clock_ceiling_mhz = 2100;
}

abbrev armed_flag : BootFlag
armed_flag = record {
  intent = f2_intent 1900 tried;
  phase = "f2_undervolt_probe";
  timestamp = "2026-01-03";
}

abbrev afterwards : List Op
afterwards = restart none unknown ∷ clear_latch ∷ field_failure 1900 862 ∷ []

crash_refused_example :
    (¬ (
      confirmed_f2_refusal
        (run (boot (some armed_flag) oc_instability default_record).0 afterwards)
        false
        (some 1)
        (some tried)
        limits
        1900
      ≡ none))
    ⊎ Forgets afterwards
crash_refused_example =
    crash_refused armed_flag oc_instability default_record afterwards false (some 1) tried limits
      1900 refl (inr (unfold default_record in ground arith))

-- None of it forgets.
afterwards_keeps : ¬ Forgets afterwards
afterwards_keeps (inl h) = elim h [
  | inl e ↦ cc
  | inr (inl e) ↦ cc
  | inr (inr (inl e)) ↦ cc
  | inr (inr (inr e)) ↦ e
]
afterwards_keeps (inr h) = elim h [
  | inl e ↦ cc
  | inr (inl e) ↦ cc
  | inr (inr (inl e)) ↦ cc
  | inr (inr (inr e)) ↦ e
]

-- The same intent, armed by a phase whose crashes count.
abbrev counted_flag : BootFlag
counted_flag = record armed_flag { phase = "gpu_sweep" }

abbrev twice : SafeLoopRecord
twice = record default_record { consecutive_crashes = 2 }

trip_forgotten_example :
    confirmed_f2_refusal
      (clear_recovery_latch (boot (some counted_flag) oc_instability twice).0)
      false
      (some 1)
      (some tried)
      limits
      1900
    ≡ confirmed_f2_refusal
        (record twice { safe_mode = false; consecutive_crashes = 0 })
        false
        (some 1)
        (some tried)
        limits
        1900
trip_forgotten_example =
    trip_forgotten counted_flag oc_instability twice false (some 1) (some tried) limits 1900 refl
      (omega arith)
