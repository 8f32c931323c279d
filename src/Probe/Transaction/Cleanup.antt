-- ===== src/Probe/Transaction/Cleanup.antt =====
-- How a candidate transaction ends, whatever its phases report: `begin_f2_candidate_transaction`,
-- `run_phase` and `finish_f2_transaction_reports` of `crates/service/src/gpu_undervolt.rs`.
use nidavellir.Shared.{
  ℕ, zero, suc, ◌≡◌, refl, ◌⊎◌, inl, inr, Bool, true, false, List, [], ◌∷◌, map, Option, none, some,
  is_some, All,
}
use nidavellir.Probe.Report.{F2StepReport}
use nidavellir.Probe.Motor.{Done, ok, err, is_ok, F2Ops, is_validated_outcome}
use nidavellir.Probe.Motor.Safety.{Keeps}
use nidavellir.Probe.Transaction.{
  position_of, update_at, update_last, is_lost_report, is_boundary_report, report_reset,
  report_failed, report_cleared, Finished, either_of, note_report, after_transaction_clear,
  after_transaction_reset, after_note, finish_f2_transaction_reports,
}

-- A report that counts, with the flag cleared, exactly when its outcome is validated.
abbrev pub IsCounted : F2StepReport → Type 0
IsCounted r = (r.boot_flag_cleared ≡ true) × (r.validated ≡ is_validated_outcome r.outcome)

-- A report that does not count.
abbrev pub IsVoid : F2StepReport → Type 0
IsVoid r = (r.boot_flag_cleared ≡ false) × (r.validated ≡ false)

module _ {A : Type 0} (P : A → Type 0) where
  All-map : (f : A → A) (xs : List A) → ((x : A) → P (f x)) → All P (map f xs)
  All-map f [] h = tt
  All-map f (x ∷ xs) h = (h x, All-map f xs h)

  All-update_at :
      (f : A → A) (i : ℕ) (xs : List A)
      → ((x : A) → P x → P (f x))
      → All P xs
      → All P (update_at f i xs)
  All-update_at f i [] h k = tt
  All-update_at f zero (x ∷ xs) h k = (h x k.0, k.1)
  All-update_at f (suc i) (x ∷ xs) h k = (k.0, All-update_at f i xs h k.1)

  All-update_last :
      (f : A → A) (xs : List A) → ((x : A) → P x → P (f x)) → All P xs → All P (update_last f xs)
  All-update_last f [] h k = tt
  All-update_last f (x ∷ []) h k = (h x k.0, tt)
  All-update_last f (x ∷ y ∷ ys) h k = (k.0, All-update_last f (y ∷ ys) h k.1)

update_last-IsVoid :
    (rs : List F2StepReport) → All IsVoid rs → All IsVoid (update_last report_failed rs)
update_last-IsVoid rs h = All-update_last IsVoid report_failed rs (λ r k. k) h

module _ {S : Type 0} (ops : F2Ops S) (AtStock Armed : S → Type 0)
    (keeps : Keeps ops AtStock Armed) where
  -- Clean: the GPU is at stock, the flag is given up and every report counts. Unclean: the flag is
  -- retained, no report counts, and the GPU is at stock or the flag armed.
  abbrev pub IsConcluded : Finished → S → Type 0
  IsConcluded f s =
      ((f.cleanup.clean ≡ true)
        × (f.cleanup.retain_boot_flag ≡ false)
        × All IsCounted f.reports
        × AtStock s)
      ⊎ ((f.cleanup.clean ≡ false)
          × (f.cleanup.retain_boot_flag ≡ true)
          × All IsVoid f.reports
          × (AtStock s ⊎ Armed s))

  cleared-IsConcluded :
      (rs : List F2StepReport) (done : Done) (s : S)
      → All IsVoid rs
      → AtStock s
      → IsConcluded
          (after_transaction_clear ops rs (done, s)).0
          (after_transaction_clear ops rs (done, s)).1
  cleared-IsConcluded rs ok s h stock =
      inl (refl, refl, All-map IsCounted report_cleared rs (λ r. (refl, refl)), stock)
  cleared-IsConcluded rs (err e) s h stock = inr (refl, refl, update_last-IsVoid rs h, inl stock)

  reset-IsConcluded :
      (reset : Done) (rs : List F2StepReport) (s : S)
      → All IsVoid rs
      → Armed s
      → (reset ≡ ok → AtStock s)
      → IsConcluded
          (after_transaction_reset ops reset rs s).0
          (after_transaction_reset ops reset rs s).1
  reset-IsConcluded (err e) rs s h armed stock =
      inr (refl, refl, update_last-IsVoid rs h, inr armed)
  reset-IsConcluded ok rs s h armed stock =
      let cleared = ops.clear_boot_flag s in
      cleared-IsConcluded rs cleared.0 cleared.1 h (keeps.clears s (stock refl) armed)

  note-IsConcluded :
      (crash : Bool) (reset : Done) (noted : Option Done) (rs : List F2StepReport) (s : S)
      → All IsVoid rs
      → Armed s
      → (reset ≡ ok → AtStock s)
      → IsConcluded
          (after_note ops crash reset (noted, (rs, s))).0
          (after_note ops crash reset (noted, (rs, s))).1
  note-IsConcluded true reset noted rs s h armed stock = inr (refl, refl, h, inr armed)
  note-IsConcluded false reset (some (err e)) rs s h armed stock =
      inr (refl, refl, update_last-IsVoid rs h, inr armed)
  note-IsConcluded false reset (some ok) rs s h armed stock =
      reset-IsConcluded reset rs s h armed stock
  note-IsConcluded false reset none rs s h armed stock = reset-IsConcluded reset rs s h armed stock

  noted-IsConcluded :
      (crash : Bool) (reset : Done) (place : Option ℕ) (rs : List F2StepReport) (s : S)
      → All IsVoid rs
      → Armed s
      → (reset ≡ ok → AtStock s)
      → IsConcluded
          (after_note ops crash reset (note_report ops crash place rs s)).0
          (after_note ops crash reset (note_report ops crash place rs s)).1
  noted-IsConcluded crash reset none rs s h armed stock =
      note-IsConcluded crash reset none rs s h armed stock
  noted-IsConcluded crash reset (some i) rs s h armed stock =
      let noted = ops.blacklist_point crash s in
      let mark = λ (r : F2StepReport). record r { blacklisted = is_ok noted.0 } in
      note-IsConcluded crash reset (some noted.0) (update_at mark i rs) noted.1
        (All-update_at IsVoid mark i rs (λ r k. k) h) (keeps.notes crash s armed)
        (λ e. keeps.notes_stock crash s (stock e) armed)

  pub finish-IsConcluded :
      (reports : List F2StepReport) (s : S)
      → Armed s
      → IsConcluded
          (finish_f2_transaction_reports ops reports s).0
          (finish_f2_transaction_reports ops reports s).1
  unfolding finish_f2_transaction_reports
  finish-IsConcluded reports s armed =
      let reset = ops.reset_to_stock s in
      let lost = position_of is_lost_report reports in
      noted-IsConcluded (is_some lost) reset.0
        (either_of lost (position_of is_boundary_report reports))
        (map (report_reset (is_ok reset.0)) reports) reset.1
        (All-map IsVoid (report_reset (is_ok reset.0)) reports (λ r. (refl, refl)))
        (keeps.resets s armed) (keeps.resets_stock s armed)
