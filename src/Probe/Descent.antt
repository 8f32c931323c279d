-- ===== src/Probe/Descent.antt =====
-- The descent through the candidates of one target, `run_confirmed_f2_multi_step` of
-- `crates/service/src/gpu_undervolt.rs`, and the further validations of its deepest point. The trait
-- `F2MultiStepOps` is a record: the operations of the step, the number of candidates and the choice of one.
pub mod Steps
pub mod Safety
pub mod Passes
use nidavellir.Shared.{
  ℕ, zero, suc, ◌==◌, min, Bool, true, false, List, [], ◌∷◌, Option, none, some, length,
  if◌then◌else◌,
}
use nidavellir.F2.Observation.{F2EvidenceProvenance}
use nidavellir.Probe.Report.{F2Outcome, F2StepReport}
use nidavellir.Probe.Motor.{Done, ok, err, F2Ops, is_validated_outcome, run_confirmed_f2_step}

pub data F2MultiStopReason : Type 0 where
  completed_all_planned verifier_failed silent_error unstable device_lost clock_drop inconclusive
        blacklisted reset_failed arm_failed apply_failed no_more_candidates :
      F2MultiStopReason

pub record F2MultiStepReport : Type 0 where
  pub planned : ℕ
  pub executed : ℕ
  pub steps : List F2StepReport
  pub last_good_index : Option ℕ
  pub stop_reason : F2MultiStopReason

pub record F2MultiStepOps (S : Type 0) : Type 0 where
  pub motor : F2Ops S
  pub candidate_count : S → ℕ
  pub select : ℕ → S → Done × S

-- The arms of the `match` on the outcome; `none` where the loop goes on.
abbrev pub stop_of : F2Outcome → Option F2MultiStopReason
stop_of F2Outcome.validated = none
stop_of F2Outcome.power_bound_clock_drop = none
stop_of F2Outcome.verify_failed = some F2MultiStopReason.verifier_failed
stop_of F2Outcome.silent_error = some F2MultiStopReason.silent_error
stop_of F2Outcome.unstable = some F2MultiStopReason.unstable
stop_of F2Outcome.device_lost = some F2MultiStopReason.device_lost
stop_of F2Outcome.clock_drop = some F2MultiStopReason.clock_drop
stop_of F2Outcome.inconclusive = some F2MultiStopReason.inconclusive
stop_of F2Outcome.reset_failed = some F2MultiStopReason.reset_failed
stop_of (F2Outcome.arm_failed e) = some F2MultiStopReason.arm_failed
stop_of (F2Outcome.apply_failed e) = some F2MultiStopReason.apply_failed

-- The variables of the loop.
pub record Descended : Type 0 where
  pub steps : List F2StepReport
  pub last_good : Option ℕ
  pub stop : F2MultiStopReason

module _ {S : Type 0} (ops : F2MultiStepOps S) (build : F2EvidenceProvenance) where
  abbrev pub onward : F2StepReport → Descended × S → Descended × S
  onward r (d, s) = (record d { steps = r ∷ d.steps }, s)

  abbrev pub descend_after :
      (Option ℕ → S → Descended × S)
      → ℕ
      → Option ℕ
      → F2StepReport
      → Option F2MultiStopReason
      → S
      → Descended × S
  descend_after rest i good r (some why) s =
      (record { steps = r ∷ []; last_good = good; stop = why }, s)
  descend_after rest i good r none s =
      onward r (rest (if is_validated_outcome r.outcome then some i else good) s)

  abbrev pub descend_selected :
      (Option ℕ → S → Descended × S) → ℕ → Option ℕ → Done × S → Descended × S
  descend_selected rest i good (err e, s) =
      (record { steps = []; last_good = good; stop = F2MultiStopReason.blacklisted }, s)
  descend_selected rest i good (ok, s) =
      let step = run_confirmed_f2_step ops.motor build s in
      descend_after rest i good step.0 (stop_of step.0.outcome) step.1

  -- The loop `for i in 0..planned`, with `left` rounds to go.
  unfoldable pub descend : ℕ → ℕ → Option ℕ → S → Descended × S
  descend zero i good s =
      (record { steps = []; last_good = good; stop = F2MultiStopReason.completed_all_planned }, s)
  descend (suc left) i good s =
      descend_selected (λ g t. descend left (suc i) g t) i good (ops.select i s)

  abbrev pub reported : ℕ → Descended × S → F2MultiStepReport × S
  reported planned (d, s) = (
    record {
      planned = planned;
      executed = length d.steps;
      steps = d.steps;
      last_good_index = d.last_good;
      stop_reason = if planned == 0 then F2MultiStopReason.no_more_candidates else d.stop;
    },
    s,
  )

  unfoldable pub run_confirmed_f2_multi_step : ℕ → S → F2MultiStepReport × S
  run_confirmed_f2_multi_step cap s =
      let planned = min (ops.candidate_count s) cap in reported planned (descend planned 0 none s)

  abbrev pub pass_after :
      (S → List F2StepReport × S) → F2StepReport → Bool → S → List F2StepReport × S
  pass_after rest r true s = let (rs, t) = rest s in (r ∷ rs, t)
  pass_after rest r false s = (r ∷ [], s)

  abbrev pub pass_selected : (S → List F2StepReport × S) → Done × S → List F2StepReport × S
  pass_selected rest (err e, s) = ([], s)
  pass_selected rest (ok, s) =
      let step = run_confirmed_f2_step ops.motor build s in
      pass_after rest step.0 (is_validated_outcome step.0.outcome) step.1

  unfoldable pub run_confirmed_f2_extra_validations : ℕ → ℕ → S → List F2StepReport × S
  run_confirmed_f2_extra_validations deepest_index zero s = ([], s)
  run_confirmed_f2_extra_validations deepest_index (suc extra_passes) s =
      pass_selected (λ t. run_confirmed_f2_extra_validations deepest_index extra_passes t)
        (ops.select deepest_index s)
