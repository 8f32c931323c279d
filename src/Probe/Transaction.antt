-- ===== src/Probe/Transaction.antt =====
-- The candidate transaction of `crates/service/src/gpu_undervolt.rs`: one verified write, several phases of
-- load under it, and one cleanup for all their reports. What a phase is for is a parameter, since only the
-- rig looks at it; the texts of a stop reason are constructors.
pub mod Cleanup
pub mod Whole
use nidavellir.Shared.{
  ℕ, zero, suc, Bool, true, false, List, [], ◌∷◌, map, String, Option, none, some, is_some,
  if◌then◌else◌,
}
use nidavellir.F2.Observation.{F2EvidenceProvenance}
use nidavellir.Probe.Report.{
  PositiveOffsetVerification, F2Outcome, F2StepReport, empty_f2_step_report,
  populate_f2_dwell_report,
}
use nidavellir.Probe.Motor.{Done, ok, err, is_ok, F2Ops, is_validated_outcome, is_raise_verified}

pub data StopReason : Type 0 where
  device_lost transaction_arm_failed : StopReason
  blacklist_persist_failed transaction_reset_failed boot_flag_clear_failed : String → StopReason

pub record F2TransactionCleanup : Type 0 where
  pub clean : Bool
  pub retain_boot_flag : Bool
  pub stop_reason : Option StopReason

abbrev following : Option ℕ → Option ℕ
following none = none
following (some i) = some (suc i)

-- `iter().position(p)`
abbrev pub position_of {ℓ} : {A : Type ℓ} → (A → Bool) → List A → Option ℕ
position_of p [] = none
position_of p (x ∷ xs) = if p x then some 0 else following (position_of p xs)

-- A change of the element at an index, and of the last one.
abbrev pub update_at {ℓ} : {A : Type ℓ} → (A → A) → ℕ → List A → List A
update_at f i [] = []
update_at f zero (x ∷ xs) = f x ∷ xs
update_at f (suc i) (x ∷ xs) = x ∷ update_at f i xs

abbrev pub update_last {ℓ} : {A : Type ℓ} → (A → A) → List A → List A
update_last f [] = []
update_last f (x ∷ []) = f x ∷ []
update_last f (x ∷ y ∷ ys) = x ∷ update_last f (y ∷ ys)

abbrev pub is_lost_report : F2StepReport → Bool
is_lost_report r = elim r.outcome [ F2Outcome.device_lost ↦ true | _ ↦ false ]

abbrev pub is_boundary_report : F2StepReport → Bool
is_boundary_report r = elim r.outcome [
  | F2Outcome.silent_error ↦ true
  | F2Outcome.unstable ↦ true
  | _ ↦ false
]

-- `a.or(b)`
abbrev pub either_of {ℓ} : {A : Type ℓ} → Option A → Option A → Option A
either_of none b = b
either_of (some a) b = some a

abbrev pub report_reset : Bool → F2StepReport → F2StepReport
report_reset reset_ok r = record r {
  reset_ok = some reset_ok;
  boot_flag_cleared = false;
  validated = false;
}

abbrev pub report_failed : F2StepReport → F2StepReport
report_failed r = record r { outcome = F2Outcome.reset_failed }

abbrev pub report_cleared : F2StepReport → F2StepReport
report_cleared r = record r { boot_flag_cleared = true; validated = is_validated_outcome r.outcome }

pub record Finished : Type 0 where
  pub reports : List F2StepReport
  pub cleanup : F2TransactionCleanup

abbrev pub unclean : List F2StepReport → StopReason → Finished
unclean rs why = record {
  reports = rs;
  cleanup = record { clean = false; retain_boot_flag = true; stop_reason = some why };
}

module _ {S : Type 0} (ops : F2Ops S) where
  abbrev pub note_report :
      Bool → Option ℕ → List F2StepReport → S → Option Done × (List F2StepReport × S)
  note_report crash none rs s = (none, (rs, s))
  note_report crash (some i) rs s =
      let noted = ops.blacklist_point crash s in
      (some noted.0, (update_at (λ r. record r { blacklisted = is_ok noted.0 }) i rs, noted.1))

  abbrev pub after_transaction_clear : List F2StepReport → Done × S → Finished × S
  after_transaction_clear rs (ok, s) = (
    record {
      reports = map report_cleared rs;
      cleanup = record { clean = true; retain_boot_flag = false; stop_reason = none };
    },
    s,
  )
  after_transaction_clear rs (err e, s) =
      (unclean (update_last report_failed rs) (boot_flag_clear_failed e), s)

  abbrev pub after_transaction_reset : Done → List F2StepReport → S → Finished × S
  after_transaction_reset (err e) rs s =
      (unclean (update_last report_failed rs) (transaction_reset_failed e), s)
  after_transaction_reset ok rs s = after_transaction_clear rs (ops.clear_boot_flag s)

  abbrev pub after_note : Bool → Done → Option Done × (List F2StepReport × S) → Finished × S
  after_note true reset (noted, (rs, s)) = (unclean rs StopReason.device_lost, s)
  after_note false reset (some (err e), (rs, s)) =
      (unclean (update_last report_failed rs) (blacklist_persist_failed e), s)
  after_note false reset (some ok, (rs, s)) = after_transaction_reset reset rs s
  after_note false reset (none, (rs, s)) = after_transaction_reset reset rs s

  unfoldable pub finish_f2_transaction_reports : List F2StepReport → S → Finished × S
  finish_f2_transaction_reports reports s =
      let device_lost_index = position_of is_lost_report reports in
      let boundary_failure_index = position_of is_boundary_report reports in
      let reset = ops.reset_to_stock s in
      after_note (is_some device_lost_index) reset.0 (
        note_report (is_some device_lost_index) (either_of device_lost_index boundary_failure_index)
          (map (report_reset (is_ok reset.0)) reports) reset.1)

pub record F2CandidateTransactionOps (Purpose S : Type 0) : Type 0 where
  pub motor : F2Ops S
  pub configure_phase : ℕ → Purpose → S → S

-- The result of the beginning: the base report of an active transaction, or the end of it.
pub data Begun : Type 0 where
  active : F2StepReport → Begun
  ended : F2StepReport → F2TransactionCleanup → Begun

module _ {Purpose S : Type 0} (ops : F2CandidateTransactionOps Purpose S) where
  -- The one report of a transaction that fails while it begins.
  abbrev pub only_report : F2StepReport → Finished × S → Begun × S
  only_report r (f, s) =
      (elim f.reports [ [] ↦ ended r f.cleanup | r' ∷ rs ↦ ended r' f.cleanup ], s)

  abbrev pub begin_failed : F2StepReport → S → Begun × S
  begin_failed r s = only_report r (finish_f2_transaction_reports ops.motor (r ∷ []) s)

  abbrev pub begin_verified : F2StepReport → PositiveOffsetVerification × S → Begun × S
  begin_verified r (v, s) =
      if is_raise_verified v
      then (active (record r { verify = some v }), s)
      else begin_failed (record r { verify = some v; outcome = F2Outcome.verify_failed }) s

  abbrev pub begin_applied : F2StepReport → Done × S → Begun × S
  begin_applied r (err e, s) = begin_failed (record r { outcome = F2Outcome.apply_failed e }) s
  begin_applied r (ok, s) = begin_verified (record r { applied = true }) (ops.motor.verify s)

  abbrev pub begin_armed : F2StepReport → Done × S → Begun × S
  begin_armed r (err e, s) =
      let reset = ops.motor.reset_to_stock s in
      (
        ended (record r { reset_ok = some (is_ok reset.0); outcome = F2Outcome.arm_failed e })
            (record {
              clean = false;
              retain_boot_flag = false;
              stop_reason = some transaction_arm_failed;
            }),
        reset.1,
      )
  begin_armed r (ok, s) =
      begin_applied (record r { armed = true }) (ops.motor.apply_positive_offset s)

  unfoldable pub begin_f2_candidate_transaction : F2EvidenceProvenance → S → Begun × S
  begin_f2_candidate_transaction build s =
      begin_armed (empty_f2_step_report build) (ops.motor.arm_boot_flag s)

  unfoldable pub run_phase : F2StepReport → ℕ → Purpose → S → F2StepReport × S
  run_phase base_report dwell_ms purpose s =
      let d = ops.motor.dwell (ops.configure_phase dwell_ms purpose s) in
      (populate_f2_dwell_report base_report d.0, d.1)

  -- `Drop`, for a transaction that nobody finished.
  unfoldable pub drop_transaction : Bool → S → S
  drop_transaction is_active s = if is_active then (ops.motor.reset_to_stock s).1 else s
