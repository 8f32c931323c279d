-- ===== src/Tests/Probe.antt =====
-- A rig in small: a GPU that holds its first two candidates and is lost at the third, and what the probe
-- does with it.
use nidavellir.Shared.{
  ℕ, suc, ◌==◌, ltb, ◌+◌, ◌<◌, ◌≤◌, ◌≡◌, refl, ◌⊎◌, Bool, true, false, List, [], ◌∷◌, none, some,
  All, get_elem?, if◌then◌else◌,
}
use nidavellir.Shared.Int.{pos, ◌-ℤ◌, leb_ℤ}
use nidavellir.VfCurve.Anchored.{AnchoredPositiveOffsetPlan}
use nidavellir.Probe.Report.{
  PositiveOffsetVerification, F2DwellOutcome, F2DwellResult, empty_f2_step_report,
  populate_f2_dwell_report, round_as_u32,
}
use nidavellir.Probe.Motor.{ok, F2Ops, run_confirmed_f2_step, finish_after_write, lost}
use nidavellir.Probe.Motor.Safety.{Keeps, IsRecovered, run_confirmed_f2_step-IsRecovered}
use nidavellir.Probe.Motor.Trace.{logged, crash_anywhere}
use nidavellir.Probe.Motor.Trace
use nidavellir.Probe.Motor.Validated.{all_succeed, Says, run_confirmed_f2_step-validated}
use nidavellir.Probe.Descent.{
  F2MultiStopReason, F2MultiStepOps, run_confirmed_f2_multi_step, descend,
}
use nidavellir.Probe.Decision.{saturate_i32, f2_adaptive_power_bound_next_index}
use nidavellir.Probe.Decision.Choice.{next_index_lem}
use nidavellir.Probe.Transaction.{
  F2CandidateTransactionOps, begin_f2_candidate_transaction, finish_f2_transaction_reports,
  run_phase,
}
use nidavellir.Probe.Transaction.Whole.{IsSafeFrom, run_phases, transaction-IsSafeFrom}
use nidavellir.Tests.Journal.{provenance}

-- `x.round() as u32` of 0.5, 1.5, 215.49998, 1e10, a negative number and NaN.
round_as_u32_tests :
    (round_as_u32 0x3f000000 ≡ 1)
    × (round_as_u32 0x3fc00000 ≡ 2)
    × (round_as_u32 0x43577fff ≡ 215)
    × (round_as_u32 0x501502f9 ≡ 4294967295)
    × (round_as_u32 0xbf800000 ≡ 0)
    × (round_as_u32 0x7fc00000 ≡ 0)
round_as_u32_tests = (refl, refl, refl, refl, refl, refl)

record Rig : Type 0 where
  index : ℕ
  stock : Bool
  flag : Bool

abbrev dwelt : F2DwellOutcome → F2DwellResult
dwelt outcome = record {
  outcome = outcome;
  avg_clock_mhz = 2400;
  p5_clock_mhz = 2385;
  p95_clock_mhz = 2415;
  power_w = 0x43480000;
  max_power_w = 0x43520000;
  power_p99_w = some 0x43500000;
  power_capped_frac = 0;
  max_temp_c = none;
  thermal_throttled = false;
  measured_voltage_min_mv = none;
  measured_voltage_avg_mv = none;
  measured_voltage_max_mv = none;
  measured_voltage_sample_count = 0;
  render_frames = none;
  render_fps = none;
  duration_ms = 10000;
  sample_count = 40;
  qualification_coverage = none;
  evidence_provenance = none;
}

abbrev rig : F2Ops Rig
rig = record {
  arm_boot_flag = λ s. (ok, record s { flag = true });
  apply_positive_offset = λ s. (ok, record s { stock = false });
  verify = λ s. (PositiveOffsetVerification.raise_verified, s);
  dwell =
      λ s. (dwelt (if ltb s.index 2 then F2DwellOutcome.stable else F2DwellOutcome.device_lost), s);
  reset_to_stock = λ s. (ok, record s { stock = true });
  clear_boot_flag = λ s. (ok, record s { flag = false });
  blacklist_point = λ crash s. (ok, s);
}

abbrev AtStock : Rig → Type 0
AtStock s = s.stock ≡ true

abbrev Armed : Rig → Type 0
Armed s = s.flag ≡ true

rig-Keeps : Keeps rig AtStock Armed
rig-Keeps = record {
  arms = λ s h. h;
  arms_flag = λ s h e. refl;
  applies = λ s h. h;
  verifies = λ s h. h;
  dwells = λ s h. h;
  resets = λ s h. h;
  resets_again = λ s h. refl;
  resets_stock = λ s h e. refl;
  notes = λ crash s h. h;
  notes_stock = λ crash s h k. h;
  clears = λ s h k. h;
}

abbrev rigs : F2MultiStepOps Rig
rigs = record {
  motor = rig;
  candidate_count = λ s. 5;
  select = λ i s. (ok, record s { index = i });
}

abbrev idle_rig : ℕ → Rig
idle_rig i = record { index = i; stock = true; flag = false }

-- The descent runs two good candidates, stops at the lost device, and leaves the flag.
descent_test :
    let (r, s) = run_confirmed_f2_multi_step rigs provenance 4 (idle_rig 0) in
    (r.executed ≡ 3)
    × (r.last_good_index ≡ some 1)
    × (r.stop_reason ≡ F2MultiStopReason.device_lost)
    × (s.flag ≡ true)
unfolding run_confirmed_f2_multi_step descend run_confirmed_f2_step finish_after_write lost
    empty_f2_step_report populate_f2_dwell_report
descent_test = (refl, refl, refl, refl)

run_confirmed_f2_step-IsRecovered_example :
    IsRecovered rig AtStock Armed rig-Keeps
      (run_confirmed_f2_step rig provenance (idle_rig 2)).0
      (run_confirmed_f2_step rig provenance (idle_rig 2)).1
run_confirmed_f2_step-IsRecovered_example =
    run_confirmed_f2_step-IsRecovered rig AtStock Armed rig-Keeps provenance (idle_rig 2) refl

crash_anywhere_example :
    All
      (Trace.IsSafe rig AtStock Armed rig-Keeps)
      (run_confirmed_f2_step (logged rig) provenance (idle_rig 2, [])).1.1
    × ((run_confirmed_f2_step (logged rig) provenance (idle_rig 2, [])).0
        ≡ (run_confirmed_f2_step rig provenance (idle_rig 2)).0)
crash_anywhere_example = crash_anywhere rig AtStock Armed rig-Keeps provenance (idle_rig 2) refl

run_confirmed_f2_step-validated_example :
    Says rig (run_confirmed_f2_step rig provenance (idle_rig 1)).0 (all_succeed rig (idle_rig 1))
run_confirmed_f2_step-validated_example =
    run_confirmed_f2_step-validated rig provenance (idle_rig 1)

-- The rig with an account of the candidates that were chosen, which only the choice changes.
abbrev beside : {A R : Type 0} → (Rig → R × Rig) → Rig × A → R × (Rig × A)
beside op t = let (x, s) = op t.0 in (x, (s, t.1))

abbrev rig_beside : {A : Type 0} → F2Ops (Rig × A)
rig_beside = record {
  arm_boot_flag = beside rig.arm_boot_flag;
  apply_positive_offset = beside rig.apply_positive_offset;
  verify = beside rig.verify;
  dwell = beside rig.dwell;
  reset_to_stock = beside rig.reset_to_stock;
  clear_boot_flag = beside rig.clear_boot_flag;
  blacklist_point = λ crash. beside (rig.blacklist_point crash);
}

abbrev StockWith : {A : Type 0} → A → Rig × A → Type 0
StockWith a t = AtStock t.0 × (t.1 ≡ a)

abbrev ArmedWith : {A : Type 0} → A → Rig × A → Type 0
ArmedWith a t = Armed t.0 × (t.1 ≡ a)

abbrev logging_rigs : F2MultiStepOps (Rig × List ℕ)
logging_rigs = record {
  motor = rig_beside;
  candidate_count = λ t. 5;
  select = λ i t. (ok, (record t.0 { index = i }, i ∷ t.1));
}

-- The choices of candidate 1 are counted, and another choice as a hundred.
abbrev count_of_one : ℕ → ℕ → ℕ
count_of_one i n = if i == 1 then suc n else n + 100

abbrev counting_rigs : F2MultiStepOps (Rig × ℕ)
counting_rigs = record {
  motor = rig_beside;
  candidate_count = λ t. 5;
  select = λ i t. (ok, (record t.0 { index = i }, count_of_one i t.1));
}

abbrev plan_at : ℕ → AnchoredPositiveOffsetPlan
plan_at mv = record {
  target_mhz = 2400;
  anchor = record {
    index = 0;
    voltage_mv = mv;
    base_mhz = 2300;
    offset_mhz = pos 100;
    prev_offset_mhz = pos 0;
    step_delta_mhz = pos 100;
    effective_mhz = 2400;
  };
  entries = [];
  capped_above_bins = 0;
  above_already_ok_bins = 0;
  elastic_below_bins = 0;
  max_positive_offset_mhz = pos 100;
  max_negative_flatten_mhz = pos 0;
}

abbrev plans : List AnchoredPositiveOffsetPlan
plans = plan_at 900 ∷ plan_at 893 ∷ plan_at 887 ∷ plan_at 881 ∷ plan_at 875 ∷ []

next_index_lem_example :
    (r : ℕ) × (f2_adaptive_power_bound_next_index plans 0 2400 (some 2300) (pos 80) (pos 45) ≡ r)
    × (0 < r)
    × (r ≤ 5)
    × (r ≤ 4)
    × ((r ≡ 1)
        ⊎ ((next : AnchoredPositiveOffsetPlan) × (get_elem? plans r ≡ some next)
            × (900 ≤ next.anchor.voltage_mv + 25)
            × (leb_ℤ (saturate_i32 (next.anchor.offset_mhz -ℤ pos 80)) (pos 45) ≡ true)))
next_index_lem_example =
    next_index_lem plans 0 2400 (some 2300) (pos 80) (pos 45) (plan_at 900) refl

-- A phase is for the load of an index.
abbrev phased : F2CandidateTransactionOps ℕ Rig
phased = record { motor = rig; configure_phase = λ dwell_ms i s. record s { index = i } }

abbrev two_phases : List (ℕ × ℕ)
two_phases = (10000, 0) ∷ (20000, 2) ∷ []

-- The GPU is lost in the second phase: the flag is retained.
transaction_test :
    let (rs, s) = run_phases phased (empty_f2_step_report provenance) two_phases (idle_rig 0) in
    ((finish_f2_transaction_reports rig rs s).0.cleanup.clean ≡ false)
    × ((finish_f2_transaction_reports rig rs s).0.cleanup.retain_boot_flag ≡ true)
unfolding run_phase empty_f2_step_report populate_f2_dwell_report finish_f2_transaction_reports
transaction_test = (refl, refl)

transaction-IsSafeFrom_example :
    IsSafeFrom phased AtStock Armed rig-Keeps
      (λ ms i s h. h)
      two_phases
      (begin_f2_candidate_transaction phased provenance (idle_rig 0))
transaction-IsSafeFrom_example =
    transaction-IsSafeFrom phased AtStock Armed rig-Keeps (λ ms i s h. h) provenance two_phases
      (idle_rig 0) refl
