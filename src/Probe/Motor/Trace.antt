-- ===== src/Probe/Motor/Trace.antt =====
-- The states that a probe goes through, `run_confirmed_f2_step` of
-- `crates/service/src/gpu_undervolt.rs`: the same operations, with a log of the states after each.
use nidavellir.Shared.{
  ◌≡◌, refl, ◌⊎◌, inl, inr, Bool, true, false, List, [], ◌∷◌, some, All, Bool-cases,
}
use nidavellir.F2.Observation.{F2EvidenceProvenance}
use nidavellir.Probe.Report.{
  PositiveOffsetVerification, F2DwellResult, apply_failed, verify_failed, F2StepReport,
  empty_f2_step_report, populate_f2_dwell_report,
}
use nidavellir.Probe.Motor.{
  Done, ok, err, is_ok, F2Ops, is_raise_verified, is_lost, is_instability, after_blacklist,
  finish_after_write, lost, after_dwell, after_verify, after_apply, after_arm,
  run_confirmed_f2_step,
}
use nidavellir.Probe.Motor.Safety.{Keeps, run_confirmed_f2_step-IsRecovered}

abbrev logging : {S R : Type 0} → (S → R × S) → S × List S → R × (S × List S)
logging op t = let (x, s) = op t.0 in (x, (s, s ∷ t.1))

-- The operations, which leave every state behind them in a log, the latest first.
abbrev pub logged : {S : Type 0} → F2Ops S → F2Ops (S × List S)
logged ops = record {
  arm_boot_flag = logging ops.arm_boot_flag;
  apply_positive_offset = logging ops.apply_positive_offset;
  verify = logging ops.verify;
  dwell = logging ops.dwell;
  reset_to_stock = logging ops.reset_to_stock;
  clear_boot_flag = logging ops.clear_boot_flag;
  blacklist_point = λ crash. logging (ops.blacklist_point crash);
}

module _ {S : Type 0} (ops : F2Ops S) where
  same_blacklist :
      (reset : Done) (r : F2StepReport) (t : S × List S)
      → (after_blacklist (logged ops) reset r t).0 ≡ (after_blacklist ops reset r t.0).0
  same_blacklist ok r t = refl
  same_blacklist (err e) r t = refl

  same_finish :
      (r : F2StepReport) (blacklist : Bool) (t : S × List S)
      → (finish_after_write (logged ops) r blacklist t).0
        ≡ (finish_after_write ops r blacklist t.0).0
  unfolding finish_after_write
  same_finish r true t =
      let reset = ops.reset_to_stock t.0 in
      let noted = ops.blacklist_point false reset.1 in
      same_blacklist reset.0
        (record r { reset_ok = some (is_ok reset.0); blacklisted = is_ok noted.0 })
        (noted.1, noted.1 ∷ reset.1 ∷ t.1)
  same_finish r false t =
      let reset = ops.reset_to_stock t.0 in
      same_blacklist reset.0 (record r { reset_ok = some (is_ok reset.0) }) (reset.1, reset.1 ∷ t.1)

  same_lost : (r : F2StepReport) (t : S × List S) → (lost (logged ops) r t).0 ≡ (lost ops r t.0).0
  unfolding lost
  same_lost r t = refl

  same_dwell :
      (r : F2StepReport) (d : F2DwellResult) (t : S × List S)
      → (after_dwell (logged ops) r (d, t)).0 ≡ (after_dwell ops r (d, t.0)).0
  same_dwell r d t = elim (Bool-cases (is_lost d.outcome)) [
    | inl crashed ↦ rw crashed (same_lost (populate_f2_dwell_report r d) t)
    | inr up ↦ rw up (same_finish (populate_f2_dwell_report r d) (is_instability d.outcome) t)
  ]

  same_verify :
      (r : F2StepReport) (v : PositiveOffsetVerification) (t : S × List S)
      → (after_verify (logged ops) r (v, t)).0 ≡ (after_verify ops r (v, t.0)).0
  same_verify r v t = elim (Bool-cases (is_raise_verified v)) [
    | inl held ↦
        let d = ops.dwell t.0 in
        rw held (same_dwell (record r { verify = some v }) d.0 (d.1, d.1 ∷ t.1))
    | inr missed ↦
        rw missed (same_finish (record r { verify = some v; outcome = verify_failed }) false t)
  ]

  same_apply :
      (r : F2StepReport) (done : Done) (t : S × List S)
      → (after_apply (logged ops) r (done, t)).0 ≡ (after_apply ops r (done, t.0)).0
  same_apply r (err e) t = same_finish (record r { outcome = apply_failed e }) false t
  same_apply r ok t =
      let v = ops.verify t.0 in same_verify (record r { applied = true }) v.0 (v.1, v.1 ∷ t.1)

  same_arm :
      (r : F2StepReport) (done : Done) (t : S × List S)
      → (after_arm (logged ops) r (done, t)).0 ≡ (after_arm ops r (done, t.0)).0
  same_arm r (err e) t = refl
  same_arm r ok t =
      let a = ops.apply_positive_offset t.0 in
      same_apply (record r { armed = true }) a.0 (a.1, a.1 ∷ t.1)

module _ {S : Type 0} (ops : F2Ops S) (AtStock Armed : S → Type 0)
    (keeps : Keeps ops AtStock Armed) where
  -- Startup recovery would find the machine at stock, or the flag.
  abbrev pub IsSafe : S → Type 0
  IsSafe s = AtStock s ⊎ Armed s

  abbrev StockLog : S × List S → Type 0
  StockLog t = AtStock t.0 × All IsSafe t.1

  abbrev ArmedLog : S × List S → Type 0
  ArmedLog t = Armed t.0 × All IsSafe t.1

  under_flag : (s : S) (log : List S) → Armed s → All IsSafe log → ArmedLog (s, s ∷ log)
  under_flag s log armed safe = (armed, (inr armed, safe))

  at_stock : (s : S) (log : List S) → AtStock s → All IsSafe log → StockLog (s, s ∷ log)
  at_stock s log stock safe = (stock, (inl stock, safe))

  logged-Keeps : Keeps (logged ops) StockLog ArmedLog
  logged-Keeps = record {
    arms = λ t h. at_stock (ops.arm_boot_flag t.0).1 t.1 (keeps.arms t.0 h.0) h.1;
    arms_flag =
        λ t h done. under_flag (ops.arm_boot_flag t.0).1 t.1 (keeps.arms_flag t.0 h.0 done) h.1;
    applies = λ t h. under_flag (ops.apply_positive_offset t.0).1 t.1 (keeps.applies t.0 h.0) h.1;
    verifies = λ t h. under_flag (ops.verify t.0).1 t.1 (keeps.verifies t.0 h.0) h.1;
    dwells = λ t h. under_flag (ops.dwell t.0).1 t.1 (keeps.dwells t.0 h.0) h.1;
    resets = λ t h. under_flag (ops.reset_to_stock t.0).1 t.1 (keeps.resets t.0 h.0) h.1;
    resets_again = λ t h. at_stock (ops.reset_to_stock t.0).1 t.1 (keeps.resets_again t.0 h.0) h.1;
    resets_stock =
        λ t h done. at_stock (ops.reset_to_stock t.0).1 t.1 (keeps.resets_stock t.0 h.0 done) h.1;
    notes = λ crash t h.
        under_flag (ops.blacklist_point crash t.0).1 t.1 (keeps.notes crash t.0 h.0) h.1;
    notes_stock = λ crash t h k.
        at_stock (ops.blacklist_point crash t.0).1 t.1 (keeps.notes_stock crash t.0 h.0 k.0) h.1;
    clears = λ t h k. at_stock (ops.clear_boot_flag t.0).1 t.1 (keeps.clears t.0 h.0 k.0) h.1;
  }

  -- A crash may come at any moment: in every state that a step goes through, from stock on, the GPU is at
  -- stock or the boot flag is armed, whatever the operations report. Keeping the log changes nothing of
  -- the report. The operations keep to what `Keeps` says of them.
  pub crash_anywhere :
      (build : F2EvidenceProvenance) (s : S)
      → AtStock s
      → All IsSafe (run_confirmed_f2_step (logged ops) build (s, [])).1.1
        × ((run_confirmed_f2_step (logged ops) build (s, [])).0
            ≡ (run_confirmed_f2_step ops build s).0)
  crash_anywhere build s stock = (
    elim (run_confirmed_f2_step-IsRecovered (logged ops) StockLog ArmedLog logged-Keeps build
        (s, []) (stock, tt)) [
          | inl (e, h) ↦ h.1
          | inr (e, f, g, inl h) ↦ h.1
          | inr (e, f, g, inr h) ↦ h.1
        ],
    unfold run_confirmed_f2_step in
        (let a = ops.arm_boot_flag s in
          same_arm ops (empty_f2_step_report build) a.0 (a.1, a.1 ∷ [])),
  )
