-- ===== src/Probe/Motor.antt =====
-- `run_confirmed_f2_step` of `crates/service/src/gpu_undervolt.rs`: arm, apply, verify, dwell, reset,
-- clear. The trait `F2Ops` is a record of operations on a state; each returns its result and the state
-- after it.
pub mod Safety
pub mod Trace
pub mod Validated
use nidavellir.Shared.{ℕ, String, Bool, true, false, Option, none, some, if◌then◌else◌, Bool-cases}
use nidavellir.F2.Observation.{F2EvidenceProvenance}
use nidavellir.Probe.Report.{
  PositiveOffsetVerification, raise_verified, raise_incomplete, over_raise, unverifiable,
  F2DwellOutcome, F2DwellResult, F2Outcome, arm_failed, apply_failed, verify_failed, reset_failed,
  F2StepReport, empty_f2_step_report, populate_f2_dwell_report,
}

-- `Result<(), String>`
pub data Done : Type 0 where
  ok : Done
  err : String → Done

abbrev pub is_ok : Done → Bool
is_ok ok = true
is_ok (err e) = false

pub record F2Ops (S : Type 0) : Type 0 where
  pub arm_boot_flag : S → Done × S
  pub apply_positive_offset : S → Done × S
  pub verify : S → PositiveOffsetVerification × S
  pub dwell : S → F2DwellResult × S
  pub reset_to_stock : S → Done × S
  pub clear_boot_flag : S → Done × S
  pub blacklist_point : Bool → S → Done × S

abbrev pub is_validated_outcome : F2Outcome → Bool
is_validated_outcome F2Outcome.validated = true
is_validated_outcome other = false

abbrev pub is_raise_verified : PositiveOffsetVerification → Bool
is_raise_verified raise_verified = true
is_raise_verified other = false

abbrev pub is_lost : F2DwellOutcome → Bool
is_lost F2DwellOutcome.device_lost = true
is_lost other = false

-- The outcomes whose point `run_confirmed_f2_step` has `finish_after_write` blacklist.
abbrev pub is_instability : F2DwellOutcome → Bool
is_instability F2DwellOutcome.silent_error = true
is_instability F2DwellOutcome.unstable = true
is_instability other = false

-- The report after the attempt to clear the flag.
abbrev pub cleared : Done → F2StepReport → F2StepReport
cleared ok r = record r {
  boot_flag_cleared = true;
  validated = if is_validated_outcome r.outcome then true else r.validated;
}
cleared (err e) r = record r { outcome = reset_failed; validated = false }

module _ {S : Type 0} (ops : F2Ops S) where
  abbrev pub after_clear : F2StepReport → Done × S → F2StepReport × S
  after_clear r (done, s) = (cleared done r, s)

  abbrev pub after_blacklist : Done → F2StepReport → S → F2StepReport × S
  after_blacklist ok r s = after_clear r (ops.clear_boot_flag s)
  after_blacklist (err e) r s = (record r { outcome = reset_failed }, s)

  abbrev pub after_reset : F2StepReport → Bool → Done × S → F2StepReport × S
  after_reset r blacklist (reset, s) =
      let noted = ops.blacklist_point false s in
      let r' = record r { reset_ok = some (is_ok reset) } in
      if blacklist
      then after_blacklist reset (record r' { blacklisted = is_ok noted.0 }) noted.1
      else after_blacklist reset r' s

  unfoldable pub finish_after_write : F2StepReport → Bool → S → F2StepReport × S
  finish_after_write r blacklist s = after_reset r blacklist (ops.reset_to_stock s)

  -- A crash under load: the flag is kept.
  unfoldable pub lost : F2StepReport → S → F2StepReport × S
  lost r s =
      let reset = ops.reset_to_stock s in
      let noted = ops.blacklist_point true reset.1 in
      (
        record r {
          reset_ok = some (is_ok reset.0);
          blacklisted = is_ok noted.0;
          outcome = F2Outcome.device_lost;
        },
        noted.1,
      )

  abbrev pub after_dwell : F2StepReport → F2DwellResult × S → F2StepReport × S
  after_dwell r (d, s) =
      let r' = populate_f2_dwell_report r d in
      if is_lost d.outcome then lost r' s else finish_after_write r' (is_instability d.outcome) s

  abbrev pub after_verify : F2StepReport → PositiveOffsetVerification × S → F2StepReport × S
  after_verify r (v, s) =
      if is_raise_verified v
      then after_dwell (record r { verify = some v }) (ops.dwell s)
      else finish_after_write (record r { verify = some v; outcome = verify_failed }) false s

  abbrev pub after_apply : F2StepReport → Done × S → F2StepReport × S
  after_apply r (err e, s) = finish_after_write (record r { outcome = apply_failed e }) false s
  after_apply r (ok, s) = after_verify (record r { applied = true }) (ops.verify s)

  abbrev pub after_arm : F2StepReport → Done × S → F2StepReport × S
  after_arm r (err e, s) =
      let reset = ops.reset_to_stock s in
      (record r { reset_ok = some (is_ok reset.0); outcome = arm_failed e }, reset.1)
  after_arm r (ok, s) = after_apply (record r { armed = true }) (ops.apply_positive_offset s)

  unfoldable pub run_confirmed_f2_step : F2EvidenceProvenance → S → F2StepReport × S
  unfolding empty_f2_step_report populate_f2_dwell_report
  run_confirmed_f2_step build s = after_arm (empty_f2_step_report build) (ops.arm_boot_flag s)
