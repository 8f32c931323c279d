-- ===== src/VfCurve/Ceiling/Monotone.antt =====
-- What the monotone writer puts on the hardware, `apply_vf_ceiling_monotone` of
-- `crates/gpu-nvapi/src/lib.rs`.
use nidavellir.Shared.{
  ℕ, ◌+◌, ◌-◌, ◌*◌, ◌≤◌, ◌≡◌, refl, subst, ◌⊎◌, sym, inl, inr, leb, Bool, true, false, List, [],
  ◌∷◌, ◌++◌, map, arith, All, All-append, any, if◌then◌else◌, Bool-cases,
}
use mathlib.Core.List.{append_assoc}
use nidavellir.Shared.Int.{ℤ, sub_ℕ, wrap_i32, as_i32, ◌-ℤ◌, ◌*ℤ◌}
use nidavellir.VfCurve.Ceiling.{
  CurvePoint, VfWritePlanEntry, is_positive, is_zero, offset_to, plan_bin_monotone,
  plan_vf_ceiling_monotone, khz, no_bin_at_ceiling, refused, Outcome, failed, wrote, write_monotone,
  apply_vf_ceiling_monotone, IsTaken,
}

-- Clocks at which an offset in kHz fits in i32.
abbrev pub IsPlausible : CurvePoint → Type 0
IsPlausible p = p.freq_mhz ≤ 2000000

-- How far a bin is lowered: not at all below the ceiling, else down to the target.
abbrev pub lowering : ℕ → ℕ → CurvePoint → ℕ
lowering ceiling_mv target_mhz p =
    if leb ceiling_mv p.voltage_mv then p.freq_mhz - target_mhz else 0

-- The offset that a bin is to get, in kHz.
abbrev pub write_of : ℕ → ℕ → CurvePoint → ℕ × ℤ
write_of ceiling_mv target_mhz p = (p.index, sub_ℕ 0 (lowering ceiling_mv target_mhz p * 1000))

khz-plan_bin_monotone :
    (ceiling_mv target_mhz : ℕ) (p : CurvePoint)
    → IsPlausible p
    → let offset = (plan_bin_monotone ceiling_mv target_mhz p).desired_offset_mhz in
      (khz offset ≡ sub_ℕ 0 (lowering ceiling_mv target_mhz p * 1000))
      × (is_positive offset ≡ false)
      × ((plan_bin_monotone ceiling_mv target_mhz p).index ≡ p.index)
unfolding khz offset_to wrap_i32 as_i32 ◌-ℤ◌ ◌*ℤ◌
khz-plan_bin_monotone ceiling_mv target_mhz p h = ground arith

-- How the loop ends before what it has left: with nothing left, or at an offset that the driver refuses.
abbrev pub EndsAt : (ℕ → ℤ → Bool) → Outcome → List (ℕ × ℤ) → Type 0
EndsAt takes (wrote n) rest = rest ≡ []
EndsAt takes (failed (refused i)) (w ∷ rest) = (w.0 ≡ i) × (takes w.0 w.1 ≡ false)
EndsAt takes (failed _) rest = ⊥

module _ (takes : ℕ → ℤ → Bool) (ceiling_mv target_mhz : ℕ) where
  -- The offsets that the points are to get, from the first to the last.
  abbrev writes : List CurvePoint → List (ℕ × ℤ)
  writes ps = map (write_of ceiling_mv target_mhz) ps

  abbrev plan : List CurvePoint → List VfWritePlanEntry
  plan ps = map (plan_bin_monotone ceiling_mv target_mhz) ps

  abbrev IsPrefix : List (ℕ × ℤ) → List (ℕ × ℤ) × Outcome → Type 0
  IsPrefix all (done, outcome) =
      (rest : List (ℕ × ℤ)) × (all ≡ done ++ rest)
      × EndsAt takes outcome rest
      × All (IsTaken takes) done

  step_taken :
      (e : VfWritePlanEntry) (es : List VfWritePlanEntry) (done : List (ℕ × ℤ)) (n i : ℕ) (z : ℤ)
      → (khz e.desired_offset_mhz ≡ z) × (is_positive e.desired_offset_mhz ≡ false) × (e.index ≡ i)
      → takes i z ≡ true
      → write_monotone takes (e ∷ es) done n
        ≡ write_monotone takes es
            (done ++ (i, z) ∷ [])
            (if is_zero e.desired_offset_mhz then n else n + 1)
  unfolding write_monotone
  step_taken e es done n i z (set, low, at) taken = rw (low, set, at, taken)

  step_refused :
      (e : VfWritePlanEntry) (es : List VfWritePlanEntry) (done : List (ℕ × ℤ)) (n i : ℕ) (z : ℤ)
      → (khz e.desired_offset_mhz ≡ z) × (is_positive e.desired_offset_mhz ≡ false) × (e.index ≡ i)
      → takes i z ≡ false
      → write_monotone takes (e ∷ es) done n ≡ (done, failed (refused i))
  unfolding write_monotone
  step_refused e es done n i z (set, low, at) stopped = rw (low, set, at, stopped)

  write_monotone-IsPrefix :
      (ps : List CurvePoint) (done : List (ℕ × ℤ)) (n : ℕ)
      → All IsPlausible ps
      → All (IsTaken takes) done
      → IsPrefix (done ++ writes ps) (write_monotone takes (plan ps) done n)
  write_monotone-IsPrefix [] done n h k = unfold write_monotone in ([], refl, refl, k)
  write_monotone-IsPrefix (p ∷ ps) done n h k =
      let w = write_of ceiling_mv target_mhz p in
      let e = plan_bin_monotone ceiling_mv target_mhz p in
      let bin = khz-plan_bin_monotone ceiling_mv target_mhz p h.0 in
      let next = done ++ w ∷ [] in
      let m = if is_zero e.desired_offset_mhz then n else n + 1 in
      elim (Bool-cases (takes p.index w.1)) [
        | inl taken ↦
            subst (IsPrefix (done ++ writes (p ∷ ps)))
              (sym (step_taken e (plan ps) done n p.index w.1 bin taken))
              (subst (λ all. IsPrefix all (write_monotone takes (plan ps) next m))
                (append_assoc done (w ∷ []) (writes ps))
                (write_monotone-IsPrefix ps next m h.1
                  (All-append (IsTaken takes) done (w ∷ []) k (taken, tt))))
        | inr stopped ↦
            subst (IsPrefix (done ++ writes (p ∷ ps)))
              (sym (step_refused e (plan ps) done n p.index w.1 bin stopped))
              (w ∷ writes ps, refl, (refl, stopped), k)
      ]

  any-in_flatten_set :
      (ps : List CurvePoint)
      → any (λ e. e.in_flatten_set) (plan ps) ≡ any (λ q. leb ceiling_mv q.voltage_mv) ps
  any-in_flatten_set [] = refl
  any-in_flatten_set (p ∷ ps) = ground (arith, any-in_flatten_set ps)

-- The monotone writer, on any driver and any curve of plausible clocks: if no bin is at or above the
-- ceiling it fails and sets nothing, and only then. Otherwise it sets, bin by bin in the order of the curve, the offset
-- that lowers the bin to the target, which is 0 below the ceiling and for a bin at or below the target;
-- the driver took every offset that was set, the writer stops at the first one that it refuses, and
-- succeeds exactly when there is none. No
-- offset is positive, and its guard against one never fires.
pub monotone_writes :
    (takes : ℕ → ℤ → Bool) (ceiling_mv target_mhz : ℕ) (p : CurvePoint) (ps : List CurvePoint)
    → All IsPlausible (p ∷ ps)
    → let (done, outcome) = apply_vf_ceiling_monotone takes (p ∷ ps) ceiling_mv target_mhz in
      ((outcome ≡ failed no_bin_at_ceiling)
        × (done ≡ [])
        × (any (λ q. leb ceiling_mv q.voltage_mv) (p ∷ ps) ≡ false))
      ⊎ ((rest : List (ℕ × ℤ)) × (map (write_of ceiling_mv target_mhz) (p ∷ ps) ≡ done ++ rest)
          × EndsAt takes outcome rest
          × All (IsTaken takes) done
          × (any (λ q. leb ceiling_mv q.voltage_mv) (p ∷ ps) ≡ true))
unfolding apply_vf_ceiling_monotone plan_vf_ceiling_monotone
monotone_writes takes ceiling_mv target_mhz p ps h =
    let found = any-in_flatten_set takes ceiling_mv target_mhz (p ∷ ps) in
    elim (Bool-cases (any (λ q. leb ceiling_mv q.voltage_mv) (p ∷ ps))) [
      | inl some_bin ↦
          rw (found, some_bin)
            (let (rest, all, ends, taken) =
                write_monotone-IsPrefix takes ceiling_mv target_mhz (p ∷ ps) [] 0 h tt in
              inr (rest, all, ends, taken, refl))
      | inr no_bin ↦ rw (found, no_bin) (inl (refl, refl, refl))
    ]
