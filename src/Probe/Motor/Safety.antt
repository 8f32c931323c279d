-- ===== src/Probe/Motor/Safety.antt =====
-- In what state the probe leaves the machine: `run_confirmed_f2_step` and `finish_after_write` of
-- `crates/service/src/gpu_undervolt.rs`.
use nidavellir.Shared.{◌≡◌, refl, ◌⊎◌, inl, inr, Bool, true, false, some, Bool-cases}
use nidavellir.F2.Observation.{F2EvidenceProvenance}
use nidavellir.Probe.Report.{
  PositiveOffsetVerification, F2DwellResult, F2Outcome, arm_failed, apply_failed, verify_failed,
  reset_failed, F2StepReport, empty_f2_step_report, populate_f2_dwell_report,
}
use nidavellir.Probe.Motor.{
  Done, ok, err, is_ok, F2Ops, is_raise_verified, is_lost, is_instability, cleared, after_blacklist,
  after_reset, finish_after_write, lost, after_dwell, after_verify, after_apply, after_arm,
  run_confirmed_f2_step,
}

-- What the operations do to two facts of the machine: that the GPU is at stock, and that the boot flag
-- is armed. Arming sets the flag or reports that it did not; a confirmed reset puts the GPU at stock; only
-- `clear_boot_flag` takes the flag away; and only the write takes the GPU from stock.
pub record Keeps {S : Type 0} (ops : F2Ops S) (AtStock Armed : S → Type 0) : Type 0 where
  pub arms : (s : S) → AtStock s → AtStock (ops.arm_boot_flag s).1
  pub arms_flag : (s : S) → AtStock s → (ops.arm_boot_flag s).0 ≡ ok → Armed (ops.arm_boot_flag s).1
  pub applies : (s : S) → Armed s → Armed (ops.apply_positive_offset s).1
  pub verifies : (s : S) → Armed s → Armed (ops.verify s).1
  pub dwells : (s : S) → Armed s → Armed (ops.dwell s).1
  pub resets : (s : S) → Armed s → Armed (ops.reset_to_stock s).1
  pub resets_again : (s : S) → AtStock s → AtStock (ops.reset_to_stock s).1
  pub resets_stock :
      (s : S) → Armed s → (ops.reset_to_stock s).0 ≡ ok → AtStock (ops.reset_to_stock s).1
  pub notes : (crash : Bool) (s : S) → Armed s → Armed (ops.blacklist_point crash s).1
  pub notes_stock :
      (crash : Bool) (s : S) → AtStock s → Armed s → AtStock (ops.blacklist_point crash s).1
  pub clears : (s : S) → AtStock s → Armed s → AtStock (ops.clear_boot_flag s).1

-- The outcomes that a step may have which did not clear the flag.
abbrev pub is_unsettled : F2Outcome → Bool
is_unsettled F2Outcome.device_lost = true
is_unsettled reset_failed = true
is_unsettled (arm_failed e) = true
is_unsettled other = false

module _ {S : Type 0} (ops : F2Ops S) (AtStock Armed : S → Type 0)
    (keeps : Keeps ops AtStock Armed) where
  -- Either the flag is cleared and the GPU is at stock, or the flag is not cleared, nothing counts as
  -- validated, the outcome says so, and the GPU is at stock or the flag is armed.
  abbrev pub IsRecovered : F2StepReport → S → Type 0
  IsRecovered r s =
      ((r.boot_flag_cleared ≡ true) × AtStock s)
      ⊎ ((r.boot_flag_cleared ≡ false)
          × (r.validated ≡ false)
          × (is_unsettled r.outcome ≡ true)
          × (AtStock s ⊎ Armed s))

  cleared-IsRecovered :
      (r : F2StepReport) (done : Done) (s : S)
      → r.boot_flag_cleared ≡ false
      → AtStock s
      → IsRecovered (cleared done r) s
  cleared-IsRecovered r ok s e stock = inl (refl, stock)
  cleared-IsRecovered r (err x) s e stock = inr (e, refl, refl, inl stock)

  after_blacklist-IsRecovered :
      (reset : Done) (r : F2StepReport) (s : S)
      → r.boot_flag_cleared ≡ false
      → r.validated ≡ false
      → Armed s
      → (reset ≡ ok → AtStock s)
      → IsRecovered (after_blacklist ops reset r s).0 (after_blacklist ops reset r s).1
  after_blacklist-IsRecovered ok r s e f armed stock =
      cleared-IsRecovered r (ops.clear_boot_flag s).0 (ops.clear_boot_flag s).1 e
        (keeps.clears s (stock refl) armed)
  after_blacklist-IsRecovered (err x) r s e f armed stock = inr (e, f, refl, inr armed)

  after_reset-IsRecovered :
      (r : F2StepReport) (blacklist : Bool) (reset : Done) (s : S)
      → r.boot_flag_cleared ≡ false
      → r.validated ≡ false
      → Armed s
      → (reset ≡ ok → AtStock s)
      → IsRecovered
          (after_reset ops r blacklist (reset, s)).0
          (after_reset ops r blacklist (reset, s)).1
  after_reset-IsRecovered r true reset s e f armed stock =
      let noted = ops.blacklist_point false s in
      after_blacklist-IsRecovered reset
        (record r { reset_ok = some (is_ok reset); blacklisted = is_ok noted.0 }) noted.1 e f
        (keeps.notes false s armed) (λ h. keeps.notes_stock false s (stock h) armed)
  after_reset-IsRecovered r false reset s e f armed stock =
      after_blacklist-IsRecovered reset (record r { reset_ok = some (is_ok reset) }) s e f armed
        stock

  finish-IsRecovered :
      (r : F2StepReport) (blacklist : Bool) (s : S)
      → r.boot_flag_cleared ≡ false
      → r.validated ≡ false
      → Armed s
      → IsRecovered
          (finish_after_write ops r blacklist s).0
          (finish_after_write ops r blacklist s).1
  unfolding finish_after_write
  finish-IsRecovered r blacklist s e f armed =
      let reset = ops.reset_to_stock s in
      after_reset-IsRecovered r blacklist reset.0 reset.1 e f (keeps.resets s armed)
        (keeps.resets_stock s armed)

  lost-IsRecovered :
      (r : F2StepReport) (s : S)
      → r.boot_flag_cleared ≡ false
      → r.validated ≡ false
      → Armed s
      → IsRecovered (lost ops r s).0 (lost ops r s).1
  unfolding lost
  lost-IsRecovered r s e f armed =
      inr (e, f, refl, inr (keeps.notes true (ops.reset_to_stock s).1 (keeps.resets s armed)))

  after_dwell-IsRecovered :
      (r : F2StepReport) (d : F2DwellResult) (s : S)
      → r.boot_flag_cleared ≡ false
      → r.validated ≡ false
      → Armed s
      → IsRecovered (after_dwell ops r (d, s)).0 (after_dwell ops r (d, s)).1
  unfolding populate_f2_dwell_report
  after_dwell-IsRecovered r d s e f armed =
      let r' = populate_f2_dwell_report r d in
      elim (Bool-cases (is_lost d.outcome)) [
        | inl crashed ↦ rw crashed (lost-IsRecovered r' s e f armed)
        | inr up ↦ rw up (finish-IsRecovered r' (is_instability d.outcome) s e f armed)
      ]

  after_verify-IsRecovered :
      (r : F2StepReport) (v : PositiveOffsetVerification) (s : S)
      → r.boot_flag_cleared ≡ false
      → r.validated ≡ false
      → Armed s
      → IsRecovered (after_verify ops r (v, s)).0 (after_verify ops r (v, s)).1
  after_verify-IsRecovered r v s e f armed = elim (Bool-cases (is_raise_verified v)) [
    | inl held ↦
        let d = ops.dwell s in
        rw held (
          after_dwell-IsRecovered (record r { verify = some v }) d.0 d.1 e f (keeps.dwells s armed))
    | inr missed ↦ rw missed (
        finish-IsRecovered (record r { verify = some v; outcome = verify_failed }) false s e f
          armed)
  ]

  after_apply-IsRecovered :
      (r : F2StepReport) (done : Done) (s : S)
      → r.boot_flag_cleared ≡ false
      → r.validated ≡ false
      → Armed s
      → IsRecovered (after_apply ops r (done, s)).0 (after_apply ops r (done, s)).1
  after_apply-IsRecovered r (err x) s e f armed =
      finish-IsRecovered (record r { outcome = apply_failed x }) false s e f armed
  after_apply-IsRecovered r ok s e f armed =
      let v = ops.verify s in
      after_verify-IsRecovered (record r { applied = true }) v.0 v.1 e f (keeps.verifies s armed)

  after_arm-IsRecovered :
      (r : F2StepReport) (done : Done) (s : S)
      → r.boot_flag_cleared ≡ false
      → r.validated ≡ false
      → AtStock s
      → (done ≡ ok → Armed s)
      → IsRecovered (after_arm ops r (done, s)).0 (after_arm ops r (done, s)).1
  after_arm-IsRecovered r (err x) s e f stock armed =
      inr (e, f, refl, inl (keeps.resets_again s stock))
  after_arm-IsRecovered r ok s e f stock armed =
      let a = ops.apply_positive_offset s in
      after_apply-IsRecovered (record r { armed = true }) a.0 a.1 e f (keeps.applies s (armed refl))

  -- Fail closed: a step that starts at stock, whatever any operation reports, ends in one of two ways.
  -- The boot flag was cleared, and then the GPU is at stock; or it was not, and then nothing is reported
  -- as validated, the outcome is a failed arming, a failed reset or a lost device, and the GPU is at stock
  -- or startup recovery will find the flag armed. The operations keep to what `Keeps` says of them.
  pub run_confirmed_f2_step-IsRecovered :
      (build : F2EvidenceProvenance) (s : S)
      → AtStock s
      → IsRecovered (run_confirmed_f2_step ops build s).0 (run_confirmed_f2_step ops build s).1
  unfolding run_confirmed_f2_step empty_f2_step_report
  run_confirmed_f2_step-IsRecovered build s stock =
      let a = ops.arm_boot_flag s in
      after_arm-IsRecovered (empty_f2_step_report build) a.0 a.1 refl refl (keeps.arms s stock)
        (keeps.arms_flag s stock)
