-- ===== src/Probe/Descent/Steps.antt =====
-- The steps of a descent: after which outcomes it goes on, and what one step leaves behind, for
-- `run_confirmed_f2_multi_step` of `crates/service/src/gpu_undervolt.rs`.
use nidavellir.Shared.{
  ℕ, zero, suc, subst, none-some, some-some, ◌≡◌, refl, sym, ◌⊎◌, inl, inr, Bool, true, false, List,
  [], ◌∷◌, none, some, length, if◌then◌else◌, true-false, arith,
}
use nidavellir.Probe.Report.{F2Outcome, F2StepReport}
use nidavellir.Probe.Motor.{F2Ops, is_validated_outcome}
use nidavellir.Probe.Motor.Safety.{Keeps, is_unsettled, IsRecovered}
use nidavellir.Probe.Descent.{F2MultiStopReason, stop_of}

-- The outcomes after which a descent may go on.
abbrev pub goes_on : F2Outcome → Bool
goes_on F2Outcome.validated = true
goes_on F2Outcome.power_bound_clock_drop = true
goes_on other = false

-- The step left the flag cleared, with an outcome after which a descent goes on.
abbrev pub IsClean : F2StepReport → Type 0
IsClean r = (r.boot_flag_cleared ≡ true) × (goes_on r.outcome ≡ true)

-- Every step but the last is clean.
abbrev pub Orderly : List F2StepReport → Type 0
Orderly [] = Unit
Orderly (r ∷ []) = Unit
Orderly (r ∷ q ∷ rs) = IsClean r × Orderly (q ∷ rs)

abbrev pub is_completed : F2MultiStopReason → Bool
is_completed F2MultiStopReason.completed_all_planned = true
is_completed other = false

-- One outcome: the loop goes on, or it stops for a reason.
abbrev pub Judged : F2Outcome → Type 0
Judged o =
    ((stop_of o ≡ none) × (goes_on o ≡ true))
    ⊎ ((why : F2MultiStopReason) × (stop_of o ≡ some why)
        × (is_completed why ≡ false)
        × (goes_on o ≡ false))

pub judged : (o : F2Outcome) → Judged o
judged F2Outcome.validated = inl (refl, refl)
judged F2Outcome.power_bound_clock_drop = inl (refl, refl)
judged F2Outcome.verify_failed = inr (F2MultiStopReason.verifier_failed, refl, refl, refl)
judged F2Outcome.silent_error = inr (F2MultiStopReason.silent_error, refl, refl, refl)
judged F2Outcome.unstable = inr (F2MultiStopReason.unstable, refl, refl, refl)
judged F2Outcome.device_lost = inr (F2MultiStopReason.device_lost, refl, refl, refl)
judged F2Outcome.clock_drop = inr (F2MultiStopReason.clock_drop, refl, refl, refl)
judged F2Outcome.inconclusive = inr (F2MultiStopReason.inconclusive, refl, refl, refl)
judged F2Outcome.reset_failed = inr (F2MultiStopReason.reset_failed, refl, refl, refl)
judged (F2Outcome.arm_failed e) = inr (F2MultiStopReason.arm_failed, refl, refl, refl)
judged (F2Outcome.apply_failed e) = inr (F2MultiStopReason.apply_failed, refl, refl, refl)

pub settled : (o : F2Outcome) → goes_on o ≡ true → is_unsettled o ≡ false
settled F2Outcome.validated e = refl
settled F2Outcome.power_bound_clock_drop e = refl
settled F2Outcome.verify_failed e = refl
settled F2Outcome.silent_error e = refl
settled F2Outcome.unstable e = refl
settled F2Outcome.device_lost e = sym e
settled F2Outcome.clock_drop e = refl
settled F2Outcome.inconclusive e = refl
settled F2Outcome.reset_failed e = sym e
settled (F2Outcome.arm_failed x) e = sym e
settled (F2Outcome.apply_failed x) e = refl

pub unvalidated : (o : F2Outcome) → goes_on o ≡ false → is_validated_outcome o ≡ false
unvalidated F2Outcome.validated e = e
unvalidated F2Outcome.power_bound_clock_drop e = refl
unvalidated F2Outcome.verify_failed e = refl
unvalidated F2Outcome.silent_error e = refl
unvalidated F2Outcome.unstable e = refl
unvalidated F2Outcome.device_lost e = refl
unvalidated F2Outcome.clock_drop e = refl
unvalidated F2Outcome.inconclusive e = refl
unvalidated F2Outcome.reset_failed e = refl
unvalidated (F2Outcome.arm_failed x) e = refl
unvalidated (F2Outcome.apply_failed x) e = refl

abbrev pub is_refused : F2MultiStopReason → Bool
is_refused F2MultiStopReason.blacklisted = true
is_refused other = false

by_reason :
    (a b : F2MultiStopReason) → is_refused a ≡ false → some a ≡ some b → is_refused b ≡ false
by_reason a b f e = subst (λ why. is_refused why ≡ false) (some-some a b e) f

pub Orderly-cons :
    (r : F2StepReport) (rs : List F2StepReport) → IsClean r → Orderly rs → Orderly (r ∷ rs)
Orderly-cons r [] h k = tt
Orderly-cons r (q ∷ rs) h k = (h, k)

-- The outcome was not validated.
abbrev pub IsUnvalidated : F2StepReport → Type 0
IsUnvalidated r = is_validated_outcome r.outcome ≡ false

-- How many candidates were chosen: one for each step, and the one whose choice was refused.
abbrev pub chosen : F2MultiStopReason → List F2StepReport → ℕ
chosen why steps = if is_refused why then suc (length steps) else length steps

-- The candidates 0 to n - 1, each chosen once and in order, the last one first.
abbrev pub down : ℕ → List ℕ
down zero = []
down (suc n) = n ∷ down n

pub unrefused :
    (why : F2MultiStopReason) (steps : List F2StepReport) (r : F2StepReport)
    → chosen why (r ∷ steps) ≡ suc (chosen why steps)
unrefused why steps r = ground arith

-- The reasons to stop after a step; none is a refusal.
pub stops-is_refused :
    (o : F2Outcome) (why : F2MultiStopReason) → stop_of o ≡ some why → is_refused why ≡ false
stops-is_refused F2Outcome.validated why e = absurd (none-some why e)
stops-is_refused F2Outcome.power_bound_clock_drop why e = absurd (none-some why e)
stops-is_refused F2Outcome.verify_failed why e =
    by_reason F2MultiStopReason.verifier_failed why refl e
stops-is_refused F2Outcome.silent_error why e = by_reason F2MultiStopReason.silent_error why refl e
stops-is_refused F2Outcome.unstable why e = by_reason F2MultiStopReason.unstable why refl e
stops-is_refused F2Outcome.device_lost why e = by_reason F2MultiStopReason.device_lost why refl e
stops-is_refused F2Outcome.clock_drop why e = by_reason F2MultiStopReason.clock_drop why refl e
stops-is_refused F2Outcome.inconclusive why e = by_reason F2MultiStopReason.inconclusive why refl e
stops-is_refused F2Outcome.reset_failed why e = by_reason F2MultiStopReason.reset_failed why refl e
stops-is_refused (F2Outcome.arm_failed x) why e = by_reason F2MultiStopReason.arm_failed why refl e
stops-is_refused (F2Outcome.apply_failed x) why e =
    by_reason F2MultiStopReason.apply_failed why refl e

module _ {S : Type 0} (motor : F2Ops S) (AtStock Armed : S → Type 0)
    (keeps : Keeps motor AtStock Armed) where
  abbrev pub IsSafe : S → Type 0
  IsSafe s = AtStock s ⊎ Armed s

  -- What a step leaves behind, by what its outcome says.
  pub recovered : (r : F2StepReport) (s : S) → IsRecovered motor AtStock Armed keeps r s → IsSafe s
  recovered r s (inl (e, stock)) = inl stock
  recovered r s (inr (e, f, g, safe)) = safe

  pub clean :
      (r : F2StepReport) (s : S)
      → IsRecovered motor AtStock Armed keeps r s
      → goes_on r.outcome ≡ true
      → IsClean r × AtStock s
  clean r s (inl (e, stock)) on = ((e, on), stock)
  clean r s (inr (e, f, g, safe)) on =
      absurd (true-false (is_unsettled r.outcome) g (settled r.outcome on))
