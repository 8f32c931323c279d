-- ===== src/Probe/Decision/Choice.antt =====
-- Which candidates a run may try next: `resume_f2_candidates`, `f2_adaptive_power_bound_next_index` and
-- the refusal of `crates/service/src/gpu_undervolt.rs`.
use nidavellir.Shared.{
  ℕ, zero, suc, ◌+◌, ◌-◌, ltb, leb, min, max, ◌≤◌, ◌<◌, ◌≡◌, ◌↔◌, ap, ◌⊎◌, inl, inr, Bool, true,
  false, ◌&&◌, List, [], ◌∷◌, Option, none, some, length, get_elem?, filter, In, In-filter_kept,
  Bool-cases, Option-cases, none-some, unwrap_or, ltb→lt, lt→ltb, arith,
}
use nidavellir.Shared.Extremes.{In-filter}
use nidavellir.Shared.Int.{ℤ, ◌-ℤ◌, leb_ℤ}
use nidavellir.SafeLoop.Record.{SafeLoopRecord}
use nidavellir.VfCurve.Anchored.{AnchoredPositiveOffsetPlan}
use nidavellir.Probe.Decision.{
  saturate_i32, requested_stride, stride_from, is_near_step, stride_loop,
  f2_adaptive_power_bound_next_index, resume_f2_candidates, confirmed_f2_multi_refusal,
}

-- The multi-step run is let through exactly when it asks for at least one step and no more than the cap,
-- Safe Mode is off, no boot flag is armed and there is a candidate.
pub multi_refusal_iff :
    (rec : SafeLoopRecord) (boot_flag_armed : Bool) (n candidate_count cap : ℕ)
    → (confirmed_f2_multi_refusal rec boot_flag_armed (some n) candidate_count cap ≡ none) ↔ (
        (1 ≤ n)
        × (n ≤ cap)
        × (rec.safe_mode ≡ false)
        × (boot_flag_armed ≡ false)
        × (1 ≤ candidate_count))
unfolding confirmed_f2_multi_refusal
multi_refusal_iff rec boot_flag_armed n candidate_count cap = ground arith

-- A voltage above a bound, or below one, where there is one.
abbrev pub Above : Option ℕ → ℕ → Type 0
Above none mv = Unit
Above (some bound) mv = bound < mv

abbrev pub Below : Option ℕ → ℕ → Type 0
Below none mv = Unit
Below (some bound) mv = mv < bound

-- Nothing is left between a good and a bad voltage; above a bad one, with none good; below the good ones
-- and those at the power limit, with none bad.
abbrev pub IsResumable : Option ℕ → Option ℕ → Option ℕ → ℕ → Type 0
IsResumable (some good) (some bad) power_bound mv = ⊥
IsResumable none (some bad) power_bound mv = bad < mv
IsResumable good none power_bound mv = Below good mv × Below power_bound mv

filter_iff :
    {A : Type 0} (f : A → Bool) (a : A) (xs : List A)
    → In a (filter f xs) ↔ (In a xs × (f a ≡ true))
filter_iff f a xs = (λ h. In-filter f a xs h, λ h. In-filter_kept f a xs h.0 h.1)

below_iff :
    (mv : ℕ) (c : AnchoredPositiveOffsetPlan) (candidates : List AnchoredPositiveOffsetPlan)
    → In c (filter (λ candidate. ltb candidate.anchor.voltage_mv mv) candidates)
      ↔ (In c candidates × (c.anchor.voltage_mv < mv))
below_iff mv c candidates =
    let both = filter_iff (λ candidate. ltb candidate.anchor.voltage_mv mv) c candidates in
    (
      λ h. let k = both.0 h in (k.0, ltb→lt c.anchor.voltage_mv mv k.1),
      λ h. both.1 (h.0, lt→ltb c.anchor.voltage_mv mv h.1),
    )

-- A resumed descent has exactly the candidates that are still open: none when the boundary is known from
-- both sides, those above a failed voltage when none held, and else those below every voltage that held
-- and every one that the power limit bound.
pub resume_iff :
    (candidates : List AnchoredPositiveOffsetPlan) (good bad power_bound : Option ℕ)
    (c : AnchoredPositiveOffsetPlan)
    → In c (resume_f2_candidates candidates good bad power_bound).1
      ↔ (In c candidates × IsResumable good bad power_bound c.anchor.voltage_mv)
unfolding resume_f2_candidates
resume_iff candidates (some g) (some b) p c = (λ h. absurd h, λ h. h.1)
resume_iff candidates none (some b) p c =
    let both = filter_iff (λ candidate. ltb b candidate.anchor.voltage_mv) c candidates in
    (
      λ h. let k = both.0 h in (k.0, ltb→lt b c.anchor.voltage_mv k.1),
      λ h. both.1 (h.0, lt→ltb b c.anchor.voltage_mv h.1),
    )
resume_iff candidates none none none c = (λ h. (h, (tt, tt)), λ h. h.0)
resume_iff candidates (some g) none none c =
    let both = below_iff g c candidates in
    (λ h. ((both.0 h).0, ((both.0 h).1, tt)), λ h. both.1 (h.0, h.1.0))
resume_iff candidates none none (some p) c =
    let both = below_iff p c candidates in
    (λ h. ((both.0 h).0, (tt, (both.0 h).1)), λ h. both.1 (h.0, h.1.1))
resume_iff candidates (some g) none (some p) c =
    let both = below_iff (min g p) c candidates in
    (
      λ h. let k = both.0 h in (k.0, (omega (arith, k.1), omega (arith, k.1))),
      λ h. both.1 (h.0, omega (arith, h.1.0, h.1.1)),
    )

get_elem?-lt : {A : Type 0} (xs : List A) (i : ℕ) (x : A) → get_elem? xs i ≡ some x → i < length xs
get_elem?-lt [] i x e = absurd (none-some x e)
get_elem?-lt (y ∷ ys) zero x e = omega arith
get_elem?-lt (y ∷ ys) (suc i) x e = omega (arith, get_elem?-lt ys i x e)

module _ (candidates : List AnchoredPositiveOffsetPlan) (i : ℕ)
    (near : AnchoredPositiveOffsetPlan → Bool) where
  -- The next index, by one step or to a near candidate.
  abbrev pub NextIndex : ℕ → Type 0
  NextIndex r =
      (i < r)
      × (r ≤ length candidates)
      × ((r ≡ i + 1)
          ⊎ ((next : AnchoredPositiveOffsetPlan) × (get_elem? candidates r ≡ some next)
              × (near next ≡ true)))

  stride_lem :
      (stride : ℕ)
      → i < length candidates
      → NextIndex (stride_loop candidates i near stride)
        × (stride_loop candidates i near stride ≤ i + max 1 stride)
  unfolding stride_loop
  stride_lem zero h = ((omega arith, omega arith, inl (omega arith)), omega arith)
  stride_lem (suc stride) h =
      let (rest, bound) = stride_lem stride h in
      elim (Option-cases (get_elem? candidates (i + suc stride))) [
        | inl e ↦ rw e (rest, omega arith)
        | inr (next, e) ↦
            let fits = get_elem?-lt candidates (i + suc stride) next e in
            elim (Bool-cases (near next)) [
              | inl k ↦ rw (e, k) ((omega arith, omega arith, inr (next, e, k)), omega arith)
              | inr k ↦ rw (e, k) (rest, omega arith)
            ]
      ]

near_lem : (a b : ℕ) (q : Bool) → (leb (a - b) 25 && q) ≡ true → (a ≤ b + 25) × (q ≡ true)
near_lem a b q h = (ground arith, ground arith)

requested_lem : (deficit : ℕ) → max 1 (requested_stride deficit) ≤ 4
requested_lem deficit = ground arith

-- At the power limit, a descent moves on from a candidate by one index, or by at most four and then only
-- to a candidate that is at most 25 mV lower and whose offset is within the step of the reference. It
-- always moves on, and not beyond the list.
pub next_index_lem :
    (candidates : List AnchoredPositiveOffsetPlan) (i target_mhz : ℕ) (p5_clock_mhz : Option ℕ)
    (reference step : ℤ) (current : AnchoredPositiveOffsetPlan)
    → get_elem? candidates i ≡ some current
    → (r : ℕ) × (f2_adaptive_power_bound_next_index candidates i target_mhz p5_clock_mhz reference
          step
        ≡ r)
      × (i < r)
      × (r ≤ length candidates)
      × (r ≤ i + 4)
      × ((r ≡ i + 1)
          ⊎ ((next : AnchoredPositiveOffsetPlan) × (get_elem? candidates r ≡ some next)
              × (current.anchor.voltage_mv ≤ next.anchor.voltage_mv + 25)
              × (leb_ℤ (saturate_i32 (next.anchor.offset_mhz -ℤ reference)) step ≡ true)))
unfolding f2_adaptive_power_bound_next_index
next_index_lem candidates i target_mhz p5_clock_mhz reference step current e =
    let near = is_near_step current reference step in
    let stride = requested_stride (target_mhz - unwrap_or p5_clock_mhz target_mhz) in
    let (found, bound) =
      stride_lem candidates i near stride (get_elem?-lt candidates i current e) in
    (
      stride_loop candidates i near stride,
      ap (stride_from candidates i (target_mhz - unwrap_or p5_clock_mhz target_mhz) reference step)
          e,
      found.0,
      found.1,
      omega (arith, requested_lem (target_mhz - unwrap_or p5_clock_mhz target_mhz)),
      elim found.2 [
        | inl one ↦ inl one
        | inr (next, at, k) ↦
            let (drop, offset) =
              near_lem current.anchor.voltage_mv next.anchor.voltage_mv
                (leb_ℤ (saturate_i32 (next.anchor.offset_mhz -ℤ reference)) step) k in
            inr (next, at, drop, offset)
      ],
    )
