-- ===== src/SafeLoop/Recovery/History.antt =====
-- The record over its whole life: any sequence of the operations that change it, those of
-- `crates/core/src/safe_loop.rs`, one boot being one of them, and those of the service in
-- `crates/service/src`, the clean run and the full reset included.
pub mod Invariant
pub mod Latch
use nidavellir.Shared.{ℕ, ◌⊎◌, String, Option, List, [], ◌∷◌, In}
use nidavellir.SafeLoop.Point.{TuningPoint}
use nidavellir.SafeLoop.Bugcheck.{CrashClass}
use nidavellir.SafeLoop.Record.{
  ForgeIncident, SafeLoopRecord, mark_validated, clear_recovery_latch, record_forge_incident,
  acknowledge_forge_incident, default_record,
}
use nidavellir.SafeLoop.Learning.{
  Stamp, learn_point, learn_field_failure, record_operator_field_failure, strip_gpu_vf_blacklist,
}
use nidavellir.F2.Bridge.{PowerSweepPoint}
use nidavellir.SafeLoop.Recovery.{BootFlag, boot}

pub data Op : Type 0 where
  validate : TuningPoint → Op
  clear_latch : Op
  report : ForgeIncident → Op
  acknowledge_pending : Op
  restart : Option BootFlag → CrashClass → Op
  learn : TuningPoint → Op
  field_failure : ℕ → ℕ → Op
  operator_failure : PowerSweepPoint → Option String → String → Stamp → Op
  clean_run full_reset : Op

unfoldable pub step : SafeLoopRecord → Op → SafeLoopRecord
step r (validate point) = mark_validated r point
step r clear_latch = clear_recovery_latch r
step r (report incident) = (record_forge_incident r incident).0
step r acknowledge_pending = (acknowledge_forge_incident r).0
step r (restart flag bugcheck) = (boot flag bugcheck r).0
step r (learn point) = learn_point r point
step r (field_failure target_mhz failed_mv) = learn_field_failure r target_mhz failed_mv
step r (operator_failure point run_id gpu_key stamp) =
    record_operator_field_failure r point run_id gpu_key stamp
step r clean_run = strip_gpu_vf_blacklist r
step r full_reset = default_record

unfoldable pub run : SafeLoopRecord → List Op → SafeLoopRecord
run r [] = r
run r (op ∷ ops) = run (step r op) ops

-- The two operations that take regions away are in the sequence: a clean run, which drops those of the
-- GPU's clocks, and the full reset, which drops all.
abbrev pub Forgets : List Op → Type 0
Forgets ops = In clean_run ops ⊎ In full_reset ops
