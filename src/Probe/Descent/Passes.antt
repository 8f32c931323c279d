-- ===== src/Probe/Descent/Passes.antt =====
-- The further validations of the deepest point, `run_confirmed_f2_extra_validations` of
-- `crates/service/src/gpu_undervolt.rs`.
use nidavellir.Shared.{
  ℕ, suc, ◌+◌, ◌≤◌, ◌≡◌, ◌⊎◌, true, false, some, last?, All, List, [], ◌∷◌, length,
}
use nidavellir.F2.Observation.{F2EvidenceProvenance}
use nidavellir.Probe.Report.{F2StepReport}
use nidavellir.Probe.Motor.{is_validated_outcome}
use nidavellir.Probe.Motor.Safety.{Keeps}
use nidavellir.Probe.Descent.{F2MultiStepOps}

-- A pass that left the flag cleared and its outcome validated.
abbrev pub IsPassed : F2StepReport → Type 0
IsPassed r = (r.boot_flag_cleared ≡ true) × (is_validated_outcome r.outcome ≡ true)

-- Every pass but the last is clean and validated.
abbrev pub Repeated : List F2StepReport → Type 0
Repeated [] = Unit
Repeated (r ∷ []) = Unit
Repeated (r ∷ q ∷ rs) = IsPassed r × Repeated (q ∷ rs)

-- How the passes end, with `n` choices of the point before them and `m` after: all that were asked for
-- are passed, the last one is not validated, or one more choice was refused.
abbrev pub HasEnded : ℕ → ℕ → List F2StepReport → ℕ → Type 0
HasEnded n left rs m =
    ((m ≡ n + length rs) × (length rs ≡ left) × All IsPassed rs)
    ⊎ ((m ≡ n + length rs)
        × (q : F2StepReport) × (last? rs ≡ some q)
        × (is_validated_outcome q.outcome ≡ false))
    ⊎ ((m ≡ n + length rs + 1) × All IsPassed rs)

-- `AtStock n` and `Armed n` say of a state that the deepest point was chosen `n` times so far.
module _ {S : Type 0} (ops : F2MultiStepOps S) (build : F2EvidenceProvenance)
    (AtStock Armed : ℕ → S → Type 0) (keeps : (n : ℕ) → Keeps ops.motor (AtStock n) (Armed n))
    (deepest_index : ℕ)
    (selects : (n : ℕ) (s : S) → AtStock n s → AtStock (suc n) (ops.select deepest_index s).1) where
  -- The passes end safely, are no more than asked for, and stop at the first that is not clean.
  abbrev GoodPasses : ℕ → ℕ → List F2StepReport × S → Type 0
  GoodPasses n left (rs, s) =
      ((m : ℕ) × (AtStock m s ⊎ Armed m s) × HasEnded n left rs m)
      × (length rs ≤ left)
      × Repeated rs
