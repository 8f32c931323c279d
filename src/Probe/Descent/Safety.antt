-- ===== src/Probe/Descent/Safety.antt =====
-- The order of the candidates in a descent, and how it ends: `run_confirmed_f2_multi_step` of
-- `crates/service/src/gpu_undervolt.rs`.
use nidavellir.Shared.{
  ℕ, suc, ◌+◌, drop, get_elem?, ◌≤◌, ◌≡◌, ◌⊎◌, true, false, List, ◌∷◌, Option, none, some, All,
  length, if◌then◌else◌,
}
use nidavellir.F2.Observation.{F2EvidenceProvenance}
use nidavellir.Probe.Report.{F2StepReport}
use nidavellir.Probe.Motor.{is_validated_outcome}
use nidavellir.Probe.Motor.Safety.{Keeps}
use nidavellir.Probe.Descent.{F2MultiStepOps, F2MultiStepReport, Descended}
use nidavellir.Probe.Descent.Steps.{IsClean, Orderly, is_completed, IsUnvalidated, chosen, down}

-- `AtStock log` and `Armed log` say of a state that the candidates of `log` were chosen so far, the last
-- one first.
module _ {S : Type 0} (ops : F2MultiStepOps S) (build : F2EvidenceProvenance)
    (AtStock Armed : List ℕ → S → Type 0)
    (keeps : (log : List ℕ) → Keeps ops.motor (AtStock log) (Armed log))
    (selects : (log : List ℕ) (i : ℕ) (s : S)
      → AtStock log s
      → AtStock (i ∷ log) (ops.select i s).1) where
  -- The last validated step and its candidate, where the steps begin with candidate `i`.
  abbrev LastGood : ℕ → Option ℕ → Descended → Type 0
  LastGood i good d =
      (All IsUnvalidated d.steps × (d.last_good ≡ good))
      ⊎ ((k : ℕ) × (m : ℕ) × (r : F2StepReport) × (d.last_good ≡ some m)
          × (m ≡ i + k)
          × (get_elem? d.steps k ≡ some r)
          × (is_validated_outcome r.outcome ≡ true)
          × All IsUnvalidated (drop (suc k) d.steps))

  abbrev Good : ℕ → ℕ → Option ℕ → Descended × S → Type 0
  Good i left good (d, s) =
      ((n : ℕ) × (n ≡ i + chosen d.stop d.steps) × (AtStock (down n) s ⊎ Armed (down n) s))
      × (length d.steps ≤ left)
      × Orderly d.steps
      × ((is_completed d.stop ≡ false) ⊎ ((length d.steps ≡ left) × All IsClean d.steps))
      × LastGood i good d

  abbrev next_good : ℕ → Option ℕ → F2StepReport → Option ℕ
  next_good i good r = if is_validated_outcome r.outcome then some i else good

  -- The report of a descent over `planned` candidates, with the state that it leaves.
  abbrev pub IsInOrder : ℕ → F2MultiStepReport × S → Type 0
  IsInOrder planned (r, s) =
      (let log = down (chosen r.stop_reason r.steps) in AtStock log s ⊎ Armed log s)
      × (r.executed ≡ length r.steps)
      × (r.executed ≤ planned)
      × Orderly r.steps
      × ((is_completed r.stop_reason ≡ false) ⊎ ((r.executed ≡ planned) × All IsClean r.steps))
      × (((r.last_good_index ≡ none) × All IsUnvalidated r.steps)
          ⊎ ((k : ℕ) × (q : F2StepReport) × (r.last_good_index ≡ some k)
              × (get_elem? r.steps k ≡ some q)
              × (is_validated_outcome q.outcome ≡ true)
              × All IsUnvalidated (drop (suc k) r.steps)))
