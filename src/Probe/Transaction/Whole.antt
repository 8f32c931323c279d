-- ===== src/Probe/Transaction/Whole.antt =====
-- A whole candidate transaction: the beginning, any phases, and the cleanup or the drop, of
-- `crates/service/src/gpu_undervolt.rs`.
use nidavellir.Shared.{
  ℕ, ◌≡◌, refl, ap, ◌⊎◌, inl, inr, true, false, List, [], ◌∷◌, some, Bool-cases,
}
use nidavellir.F2.Observation.{F2EvidenceProvenance}
use nidavellir.Probe.Report.{
  PositiveOffsetVerification, raise_verified, F2Outcome, F2StepReport, empty_f2_step_report,
}
use nidavellir.Probe.Motor.{Done, ok, err, is_raise_verified}
use nidavellir.Probe.Motor.Safety.{Keeps}
use nidavellir.Probe.Transaction.{
  F2TransactionCleanup, Finished, finish_f2_transaction_reports, F2CandidateTransactionOps, Begun,
  active, ended, only_report, begin_failed, begin_verified, begin_applied, begin_armed,
  begin_f2_candidate_transaction, run_phase, drop_transaction,
}
use nidavellir.Probe.Transaction.Cleanup.{IsConcluded, finish-IsConcluded}

-- The phases that a run asks for, in order, with their reports.
abbrev pub run_phases :
    {Purpose S : Type 0}
    → F2CandidateTransactionOps Purpose S
    → F2StepReport
    → List (ℕ × Purpose)
    → S
    → List F2StepReport × S
run_phases ops base [] s = ([], s)
run_phases ops base ((dwell_ms, purpose) ∷ phases) s =
    let first = run_phase ops base dwell_ms purpose s in
    let (rs, t) = run_phases ops base phases first.1 in (first.0 ∷ rs, t)

module _ {Purpose S : Type 0} (ops : F2CandidateTransactionOps Purpose S)
    (AtStock Armed : S → Type 0) (keeps : Keeps ops.motor AtStock Armed)
    (configures : (dwell_ms : ℕ) (purpose : Purpose) (s : S)
      → Armed s
      → Armed (ops.configure_phase dwell_ms purpose s)) where
  phases-Armed :
      (base : F2StepReport) (phases : List (ℕ × Purpose)) (s : S)
      → Armed s
      → Armed (run_phases ops base phases s).1
  unfolding run_phase
  phases-Armed base [] s armed = armed
  phases-Armed base ((dwell_ms, purpose) ∷ phases) s armed =
      let configured = ops.configure_phase dwell_ms purpose s in
      phases-Armed base phases (ops.motor.dwell configured).1
        (keeps.dwells configured (configures dwell_ms purpose s armed))

  -- A failed beginning: cleaned up to stock, or not clean and at stock or with the flag armed.
  abbrev pub IsEnded : F2TransactionCleanup → S → Type 0
  IsEnded c s = ((c.clean ≡ true) × AtStock s) ⊎ ((c.clean ≡ false) × (AtStock s ⊎ Armed s))

  -- A beginning: it failed and has ended, or the raise is verified, and after any phases both ways out are
  -- safe, the cleanup and the drop.
  abbrev pub IsSafeFrom : List (ℕ × Purpose) → Begun × S → Type 0
  IsSafeFrom phases (ended r c, s) = IsEnded c s
  IsSafeFrom phases (active r, s) =
      let (rs, t) = run_phases ops r phases s in
      (r.verify ≡ some raise_verified)
      × IsConcluded ops.motor AtStock Armed keeps (finish_f2_transaction_reports ops.motor rs t).0
          (finish_f2_transaction_reports ops.motor rs t).1
      × Armed (drop_transaction ops true t)

  concluded-IsEnded :
      (f : Finished) (s : S) → IsConcluded ops.motor AtStock Armed keeps f s → IsEnded f.cleanup s
  concluded-IsEnded f s (inl (e, g, h, stock)) = inl (e, stock)
  concluded-IsEnded f s (inr (e, g, h, safe)) = inr (e, safe)

  only_report-IsSafeFrom :
      (phases : List (ℕ × Purpose)) (r : F2StepReport) (c : F2TransactionCleanup)
      (rs : List F2StepReport) (s : S)
      → IsEnded c s
      → IsSafeFrom phases (only_report ops r (record { reports = rs; cleanup = c }, s))
  only_report-IsSafeFrom phases r c [] s h = h
  only_report-IsSafeFrom phases r c (q ∷ rs) s h = h

  failed-IsSafeFrom :
      (phases : List (ℕ × Purpose)) (r : F2StepReport) (s : S)
      → Armed s
      → IsSafeFrom phases (begin_failed ops r s)
  failed-IsSafeFrom phases r s armed =
      let f = finish_f2_transaction_reports ops.motor (r ∷ []) s in
      only_report-IsSafeFrom phases r f.0.cleanup f.0.reports f.1 (
        concluded-IsEnded f.0 f.1
          (finish-IsConcluded ops.motor AtStock Armed keeps (r ∷ []) s armed))

  raised : (v : PositiveOffsetVerification) → is_raise_verified v ≡ true → v ≡ raise_verified
  raised PositiveOffsetVerification.raise_verified e = refl
  raised PositiveOffsetVerification.raise_incomplete e = cc
  raised PositiveOffsetVerification.over_raise e = cc
  raised PositiveOffsetVerification.unverifiable e = cc

  active-IsSafeFrom :
      (phases : List (ℕ × Purpose)) (r : F2StepReport) (s : S)
      → r.verify ≡ some raise_verified
      → Armed s
      → IsSafeFrom phases (active r, s)
  unfolding drop_transaction
  active-IsSafeFrom phases r s e armed =
      let (rs, t) = run_phases ops r phases s in
      let under = phases-Armed r phases s armed in
      (e, finish-IsConcluded ops.motor AtStock Armed keeps rs t under, keeps.resets t under)

  verified-IsSafeFrom :
      (phases : List (ℕ × Purpose)) (r : F2StepReport) (v : PositiveOffsetVerification) (s : S)
      → Armed s
      → IsSafeFrom phases (begin_verified ops r (v, s))
  verified-IsSafeFrom phases r v s armed = elim (Bool-cases (is_raise_verified v)) [
    | inl held ↦
        rw held (
          active-IsSafeFrom phases (record r { verify = some v }) s (ap some (raised v held)) armed)
    | inr missed ↦ rw missed (
        failed-IsSafeFrom phases (record r { verify = some v; outcome = F2Outcome.verify_failed }) s
          armed)
  ]

  applied-IsSafeFrom :
      (phases : List (ℕ × Purpose)) (r : F2StepReport) (done : Done) (s : S)
      → Armed s
      → IsSafeFrom phases (begin_applied ops r (done, s))
  applied-IsSafeFrom phases r (err e) s armed =
      failed-IsSafeFrom phases (record r { outcome = F2Outcome.apply_failed e }) s armed
  applied-IsSafeFrom phases r ok s armed =
      let v = ops.motor.verify s in
      verified-IsSafeFrom phases (record r { applied = true }) v.0 v.1 (keeps.verifies s armed)

  armed-IsSafeFrom :
      (phases : List (ℕ × Purpose)) (r : F2StepReport) (done : Done) (s : S)
      → AtStock s
      → (done ≡ ok → Armed s)
      → IsSafeFrom phases (begin_armed ops r (done, s))
  armed-IsSafeFrom phases r (err e) s stock armed = inr (refl, inl (keeps.resets_again s stock))
  armed-IsSafeFrom phases r ok s stock armed =
      let a = ops.motor.apply_positive_offset s in
      applied-IsSafeFrom phases (record r { armed = true }) a.0 a.1 (keeps.applies s (armed refl))

  -- A candidate transaction is fail closed, whatever the operations report and whatever phases follow. A
  -- beginning that fails ends clean and at stock, or not clean and at stock or with the flag armed. A
  -- beginning that succeeds has verified the raise; then the cleanup after the phases either ends clean,
  -- at stock, with the flag given up and each report validated by its own outcome, or not clean, with the
  -- flag retained, no report validated, and the GPU at stock or the flag armed; and a transaction that is
  -- dropped instead leaves the flag armed. It starts at stock, the operations keep to what `Keeps` says,
  -- and configuring a phase leaves the flag armed.
  pub transaction-IsSafeFrom :
      (build : F2EvidenceProvenance) (phases : List (ℕ × Purpose)) (s : S)
      → AtStock s
      → IsSafeFrom phases (begin_f2_candidate_transaction ops build s)
  unfolding begin_f2_candidate_transaction
  transaction-IsSafeFrom build phases s stock =
      let a = ops.motor.arm_boot_flag s in
      armed-IsSafeFrom phases (empty_f2_step_report build) a.0 a.1 (keeps.arms s stock)
        (keeps.arms_flag s stock)
