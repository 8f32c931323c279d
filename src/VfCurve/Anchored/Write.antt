-- ===== src/VfCurve/Anchored/Write.antt =====
-- What the anchored writer puts on the hardware, `apply_bounded_anchored_positive_offset` of
-- `crates/gpu-nvapi/src/lib.rs`.
use mathlib.Core.List.{append_assoc}
use nidavellir.Shared.{
  ℕ, ◌-◌, ◌<◌, ◌≡◌, refl, sym, ap, subst, ◌⊎◌, inl, inr, ◌==◌, Bool, true, false, ◌&&◌, not, List,
  [], ◌∷◌, ◌++◌, map, arith, All, All-append, Bool-cases,
}
use nidavellir.Shared.Int.{ℤ, pos, ◌≤ℤ◌}
use nidavellir.VfCurve.Ceiling.{CurvePoint, IsTaken, is_positive, khz}
use nidavellir.VfCurve.Bounded.{
  PositiveOffsetLimits, PlanError, refused_at, Planned, rejected, planned,
}
use nidavellir.VfCurve.Bounded.Plan.{plan_bounded_iff}
use nidavellir.VfCurve.Anchored.{
  AnchoredBinEntry, AnchoredPositiveOffsetPlan, plan_bounded_anchored_positive_offset,
  write_anchored, write_plan, apply_bounded_anchored_positive_offset,
}
use nidavellir.VfCurve.Anchored.Plan.{IsLowered, anchored_plan}

-- The offset that an entry asks for, in kHz.
abbrev pub write_for : AnchoredBinEntry → ℕ × ℤ
write_for e = (e.index, khz e.offset_mhz)

-- How the writer of a plan ends before the writes that it has left: with the plan, and none left, or at
-- one that the driver refuses.
abbrev pub Ends :
    (ℕ → ℤ → Bool)
    → AnchoredPositiveOffsetPlan
    → Planned AnchoredPositiveOffsetPlan
    → List (ℕ × ℤ)
    → Type 0
Ends takes plan (planned q) rest = (q ≡ plan) × (rest ≡ [])
Ends takes plan (rejected (refused_at i)) (w ∷ rest) = (w.0 ≡ i) × (takes w.0 w.1 ≡ false)
Ends takes plan (rejected _) rest = ⊥

module _ (takes : ℕ → ℤ → Bool) (plan : AnchoredPositiveOffsetPlan) where
  abbrev IsPrefix : List (ℕ × ℤ) → List (ℕ × ℤ) × Planned AnchoredPositiveOffsetPlan → Type 0
  IsPrefix writes (done, outcome) =
      (rest : List (ℕ × ℤ)) × (writes ≡ done ++ rest)
      × Ends takes plan outcome rest
      × All (IsTaken takes) done

  guard_passed :
      (e : AnchoredBinEntry)
      → IsLowered plan.anchor.index e
      → (is_positive e.offset_mhz && not (e.index == plan.anchor.index)) ≡ false
  guard_passed e h = ground arith

  step_taken :
      (e : AnchoredBinEntry) (es : List AnchoredBinEntry) (done : List (ℕ × ℤ))
      → IsLowered plan.anchor.index e
      → takes e.index (khz e.offset_mhz) ≡ true
      → write_anchored takes plan (e ∷ es) done
        ≡ write_anchored takes plan es (done ++ write_for e ∷ [])
  unfolding write_anchored
  step_taken e es done h taken = rw (guard_passed e h, taken)

  step_refused :
      (e : AnchoredBinEntry) (es : List AnchoredBinEntry) (done : List (ℕ × ℤ))
      → IsLowered plan.anchor.index e
      → takes e.index (khz e.offset_mhz) ≡ false
      → write_anchored takes plan (e ∷ es) done ≡ (done, rejected (refused_at e.index))
  unfolding write_anchored
  step_refused e es done h stopped = rw (guard_passed e h, stopped)

  write_anchored-IsPrefix :
      (es : List AnchoredBinEntry) (done : List (ℕ × ℤ))
      → All (IsLowered plan.anchor.index) es
      → All (IsTaken takes) done
      → IsPrefix (done ++ map write_for es) (write_anchored takes plan es done)
  write_anchored-IsPrefix [] done h k = unfold write_anchored in ([], refl, (refl, refl), k)
  write_anchored-IsPrefix (e ∷ es) done h k =
      let all = done ++ map write_for (e ∷ es) in
      let next = done ++ write_for e ∷ [] in
      elim (Bool-cases (takes e.index (khz e.offset_mhz))) [
        | inl taken ↦ subst (IsPrefix all) (sym (step_taken e es done h.0 taken)) (
            subst (λ writes. IsPrefix writes (write_anchored takes plan es next))
              (append_assoc done (write_for e ∷ []) (map write_for es))
              (write_anchored-IsPrefix es next h.1
                (All-append (IsTaken takes) done (write_for e ∷ []) k (taken, tt))))
        | inr stopped ↦
            subst (IsPrefix all) (sym (step_refused e es done h.0 stopped))
              (map write_for (e ∷ es), refl, (refl, stopped), k)
      ]

  write_plan_in_bounds :
      (limits : PositiveOffsetLimits) (n : ℕ)
      → plan.anchor.offset_mhz ≡ pos n
      → 0 < n
      → pos n ≤ℤ limits.abs_max_offset_mhz
      → write_plan takes limits (planned plan) ≡ write_anchored takes plan plan.entries []
  unfolding write_plan
  write_plan_in_bounds limits n e positive capped = rw e (ground arith)

-- The anchored writer, on any driver: a plan that is rejected sets nothing. Otherwise the offsets of the
-- plan's entries are set in the order of the curve up to the first that the driver refuses: the driver
-- took every offset that was set. The writer returns the plan exactly when it refuses none, and its own
-- guards never fire. The target and the
-- previous offset are taken to fit in i32.
pub anchored_writes :
    (takes : ℕ → ℤ → Bool) (curve : List CurvePoint) (bin_index target prev : ℕ)
    (limits : PositiveOffsetLimits)
    → target < 2147483648
    → prev < 2147483648
    → let made = plan_bounded_anchored_positive_offset curve bin_index target (pos prev) limits in
      let (done, outcome) =
        apply_bounded_anchored_positive_offset takes curve bin_index target (pos prev) limits in
      ((e : PlanError) × (made ≡ rejected e) × (outcome ≡ rejected e) × (done ≡ []))
      ⊎ ((plan : AnchoredPositiveOffsetPlan) × (made ≡ planned plan)
          × (rest : List (ℕ × ℤ)) × (map write_for plan.entries ≡ done ++ rest)
          × Ends takes plan outcome rest
          × All (IsTaken takes) done)
unfolding apply_bounded_anchored_positive_offset
anchored_writes takes curve bin_index target prev limits small kept =
    go (plan_bounded_anchored_positive_offset curve bin_index target (pos prev) limits) refl
  where
    go :
        (made : Planned AnchoredPositiveOffsetPlan)
        → plan_bounded_anchored_positive_offset curve bin_index target (pos prev) limits ≡ made
        → let (done, outcome) = write_plan takes limits made in
          ((e : PlanError) × (made ≡ rejected e) × (outcome ≡ rejected e) × (done ≡ []))
          ⊎ ((plan : AnchoredPositiveOffsetPlan) × (made ≡ planned plan)
              × (rest : List (ℕ × ℤ)) × (map write_for plan.entries ≡ done ++ rest)
              × Ends takes plan outcome rest
              × All (IsTaken takes) done)
    go (rejected e) h = unfold write_plan in inl (e, refl, refl, refl)
    go (planned plan) h =
        let facts = anchored_plan curve bin_index target prev limits plan small kept h in
        let (sane, bin, found, a, raise) =
          (plan_bounded_iff curve bin_index target prev limits plan.anchor small kept).0 facts.0 in
        let bounds =
          write_plan_in_bounds takes plan limits (target - bin.freq_mhz)
            (ap (λ p. p.offset_mhz) raise) (omega (arith, a.raised)) a.in_cap in
        let written : IsPrefix takes plan (map write_for plan.entries)
            (write_plan takes limits (planned plan)) =
          subst (IsPrefix takes plan (map write_for plan.entries)) (sym bounds)
            (write_anchored-IsPrefix takes plan plan.entries [] facts.3 tt) in
        inr (plan, refl, written.0, written.1, written.2, written.3)
