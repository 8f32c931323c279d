-- ===== src/Probe/Motor/Validated.antt =====
-- When a probed candidate counts as validated: `run_confirmed_f2_step` of
-- `crates/service/src/gpu_undervolt.rs`.
use nidavellir.Shared.{
  ◌≡◌, refl, subst, ◌⊎◌, inl, inr, Bool, true, false, ◌&&◌, some, if◌then◌else◌, Bool-cases,
}
use nidavellir.F2.Observation.{F2EvidenceProvenance}
use nidavellir.Probe.Report.{
  PositiveOffsetVerification, F2DwellOutcome, F2DwellResult, apply_failed, verify_failed,
  F2StepReport, empty_f2_step_report, populate_f2_dwell_report, outcome_of,
}
use nidavellir.Probe.Motor.{
  Done, ok, err, is_ok, F2Ops, is_validated_outcome, is_raise_verified, is_lost, is_instability,
  cleared, after_blacklist, finish_after_write, lost, after_dwell, after_verify, after_apply,
  after_arm, run_confirmed_f2_step,
}

abbrev pub is_steady : F2DwellOutcome → Bool
is_steady F2DwellOutcome.stable = true
is_steady other = false

-- What the step does after each outcome of the dwell.
abbrev Sorted : F2DwellOutcome → Type 0
Sorted o =
    ((is_lost o ≡ true) × (is_steady o ≡ false))
    ⊎ ((is_lost o ≡ false)
        × (is_steady o ≡ true)
        × (is_instability o ≡ false)
        × (is_validated_outcome (outcome_of o) ≡ true))
    ⊎ ((is_lost o ≡ false) × (is_steady o ≡ false) × (is_validated_outcome (outcome_of o) ≡ false))

sorted : (o : F2DwellOutcome) → Sorted o
sorted F2DwellOutcome.stable = inr (inl (refl, refl, refl, refl))
sorted F2DwellOutcome.device_lost = inl (refl, refl)
sorted F2DwellOutcome.silent_error = inr (inr (refl, refl, refl))
sorted F2DwellOutcome.unstable = inr (inr (refl, refl, refl))
sorted F2DwellOutcome.clock_drop = inr (inr (refl, refl, refl))
sorted F2DwellOutcome.inconclusive = inr (inr (refl, refl, refl))

module _ {S : Type 0} (ops : F2Ops S) where
  abbrev reset_and_clear : S → Bool
  reset_and_clear s =
      let reset = ops.reset_to_stock s in is_ok reset.0 && is_ok (ops.clear_boot_flag reset.1).0

  abbrev stable_and_clear : S → Bool
  stable_and_clear s =
      let d = ops.dwell s in if is_steady d.0.outcome then reset_and_clear d.1 else false

  abbrev held_and_clear : S → Bool
  held_and_clear s =
      let v = ops.verify s in if is_raise_verified v.0 then stable_and_clear v.1 else false

  -- Every operation succeeds: the flag is armed, the offset applied and read back, the dwell is stable, the
  -- reset is confirmed and the flag cleared.
  abbrev pub all_succeed : S → Bool
  all_succeed s =
      let armed = ops.arm_boot_flag s in
      let applied = ops.apply_positive_offset armed.1 in
      if is_ok armed.0 then if is_ok applied.0 then held_and_clear applied.1 else false else false

  -- The report says validated, and so does its outcome.
  abbrev pub Says : F2StepReport → Bool → Type 0
  Says r b = (r.validated ≡ b) × (is_validated_outcome r.outcome ≡ b)

  cleared_lem :
      (done : Done) (r : F2StepReport)
      → r.validated ≡ false
      → Says (cleared done r) (is_validated_outcome r.outcome && is_ok done)
  cleared_lem ok r f = elim (Bool-cases (is_validated_outcome r.outcome)) [
    | inl v ↦ rw v (refl, refl)
    | inr v ↦ rw v (f, refl)
  ]
  cleared_lem (err e) r f = elim (Bool-cases (is_validated_outcome r.outcome)) [
    | inl v ↦ rw v (refl, refl)
    | inr v ↦ rw v (refl, refl)
  ]

  blacklist_lem :
      (reset : Done) (r : F2StepReport) (s : S)
      → r.validated ≡ false
      → Says
          (after_blacklist ops reset r s).0
          (is_validated_outcome r.outcome && (is_ok reset && is_ok (ops.clear_boot_flag s).0))
  blacklist_lem (err e) r s f = elim (Bool-cases (is_validated_outcome r.outcome)) [
    | inl v ↦ rw v (f, refl)
    | inr v ↦ rw v (f, refl)
  ]
  blacklist_lem ok r s f = cleared_lem (ops.clear_boot_flag s).0 r f

  -- Nothing is blacklisted for an outcome that may count.
  finish_lem :
      (r : F2StepReport) (s : S)
      → r.validated ≡ false
      → Says
          (finish_after_write ops r false s).0
          (is_validated_outcome r.outcome && reset_and_clear s)
  unfolding finish_after_write
  finish_lem r s f =
      let reset = ops.reset_to_stock s in
      blacklist_lem reset.0 (record r { reset_ok = some (is_ok reset.0) }) reset.1 f

  finish_rejected :
      (r : F2StepReport) (blacklist : Bool) (s : S)
      → r.validated ≡ false
      → is_validated_outcome r.outcome ≡ false
      → Says (finish_after_write ops r blacklist s).0 false
  unfolding finish_after_write
  finish_rejected r false s f v =
      let reset = ops.reset_to_stock s in
      subst
        (λ b.
          Says (finish_after_write ops r false s).0
            (b && (is_ok reset.0 && is_ok (ops.clear_boot_flag reset.1).0)))
        v (finish_lem r s f)
  finish_rejected r true s f v =
      let reset = ops.reset_to_stock s in
      let noted = ops.blacklist_point false reset.1 in
      let r' = record r { reset_ok = some (is_ok reset.0); blacklisted = is_ok noted.0 } in
      subst
        (λ b.
          Says (finish_after_write ops r true s).0
            (b && (is_ok reset.0 && is_ok (ops.clear_boot_flag noted.1).0)))
        v (blacklist_lem reset.0 r' noted.1 f)

  dwell_lem :
      (r : F2StepReport) (d : F2DwellResult) (s : S)
      → r.validated ≡ false
      → Says (after_dwell ops r (d, s)).0 (if is_steady d.outcome then reset_and_clear s else false)
  unfolding populate_f2_dwell_report lost
  dwell_lem r d s f =
      let r' = populate_f2_dwell_report r d in
      elim (sorted d.outcome) [
        | inl (crashed, shaky) ↦ rw (crashed, shaky) (f, refl)
        | inr (inl (up, steady, quiet, counts)) ↦
            rw (up, steady, quiet)
              (subst (λ b. Says (finish_after_write ops r' false s).0 (b && reset_and_clear s))
                counts (finish_lem r' s f))
        | inr (inr (up, shaky, fails)) ↦
            rw (up, shaky) (finish_rejected r' (is_instability d.outcome) s f fails)
      ]

  verify_lem :
      (r : F2StepReport) (v : PositiveOffsetVerification) (s : S)
      → r.validated ≡ false
      → Says
          (after_verify ops r (v, s)).0
          (if is_raise_verified v then stable_and_clear s else false)
  verify_lem r v s f = elim (Bool-cases (is_raise_verified v)) [
    | inl held ↦ let d = ops.dwell s in rw held (dwell_lem (record r { verify = some v }) d.0 d.1 f)
    | inr missed ↦
        rw missed
          (finish_rejected (record r { verify = some v; outcome = verify_failed }) false s f refl)
  ]

  apply_lem :
      (r : F2StepReport) (done : Done) (s : S)
      → r.validated ≡ false
      → Says (after_apply ops r (done, s)).0 (if is_ok done then held_and_clear s else false)
  apply_lem r (err e) s f = finish_rejected (record r { outcome = apply_failed e }) false s f refl
  apply_lem r ok s f = let v = ops.verify s in verify_lem (record r { applied = true }) v.0 v.1 f

  arm_lem :
      (r : F2StepReport) (done : Done) (s : S)
      → r.validated ≡ false
      → Says (after_arm ops r (done, s)).0 (
          let applied = ops.apply_positive_offset s in
          if is_ok done then if is_ok applied.0 then held_and_clear applied.1 else false else false)
  arm_lem r (err e) s f = (f, refl)
  arm_lem r ok s f =
      let a = ops.apply_positive_offset s in apply_lem (record r { armed = true }) a.0 a.1 f

  -- A step reports its candidate as validated, and with the outcome validated, exactly when every one of
  -- its operations succeeds: the flag is armed, the offset applied and read back, the dwell stable, the
  -- reset confirmed and the flag cleared. No assumption is made on the operations.
  pub run_confirmed_f2_step-validated :
      (build : F2EvidenceProvenance) (s : S)
      → Says (run_confirmed_f2_step ops build s).0 (all_succeed s)
  unfolding run_confirmed_f2_step empty_f2_step_report
  run_confirmed_f2_step-validated build s =
      let a = ops.arm_boot_flag s in arm_lem (empty_f2_step_report build) a.0 a.1 refl
