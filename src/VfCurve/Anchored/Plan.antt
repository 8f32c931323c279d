-- ===== src/VfCurve/Anchored/Plan.antt =====
-- What an anchored plan does to every bin, `plan_bounded_anchored_positive_offset` of
-- `crates/gpu-nvapi/src/lib.rs`.
use nidavellir.Shared.{
  subst, ◌⊎◌, ℕ, ◌-◌, ◌≤◌, ◌<◌, ◌≡◌, refl, sym, ap, ◌∙◌, min, ltb, ◌==◌, true, false, List, [], ◌∷◌,
  ◌++◌, map, arith, All, all, Bool-cases, inl, inr, if◌then◌else◌, filter,
}
use mathlib.Core.List.{append_assoc, append-nil}
use nidavellir.Shared.Int.{pos, sub_ℕ, wrap_i32, as_i32, as_u32, ◌+ℤ◌}
use nidavellir.VfCurve.Ceiling.{CurvePoint, is_positive}
use nidavellir.VfCurve.Bounded.{
  is_sane_base_curve, is_sane_base_point, PositiveOffsetLimits, PositiveOffsetPlan, Planned,
  rejected, planned, effective_of, plan_bounded_positive_offset,
}
use nidavellir.VfCurve.Bounded.Plan.{offset_to-small, plan_bounded_iff}
use nidavellir.VfCurve.Anchored.{
  raises, only_anchor, no_bins, anchor_bin, capped_above, elastic_below, AnchoredBinEntry,
  AnchoredPositiveOffsetPlan, Tally, entry, cap_with, cap_offset, cap_bin, leave_bin, anchored_bin,
  anchored_loop, conclude, plan_bounded_anchored_positive_offset, bind,
}

-- What a bin gets: the anchor its raise, a bin of a higher voltage what lowers it to the target if it is
-- above it, any other bin nothing.
abbrev pub entry_for : PositiveOffsetPlan → ℕ → CurvePoint → AnchoredBinEntry
entry_for anchor target p =
    if p.index == anchor.index
    then entry p anchor.offset_mhz target anchor_bin
    else if ltb anchor.voltage_mv p.voltage_mv
    then entry p (sub_ℕ 0 (p.freq_mhz - target)) (min p.freq_mhz target) capped_above
    else entry p (pos 0) p.freq_mhz elastic_below

module _ (target : ℕ) (small : target < 2147483648) where
  cap_offset-small : (base : ℕ) → base ≤ 3500 → cap_offset target base ≡ sub_ℕ 0 (base - target)
  unfolding cap_offset as_i32 wrap_i32
  cap_offset-small base h = ground (arith, offset_to-small target base)

  effective_of_capped :
      (base : ℕ) → base ≤ 3500 → effective_of base (sub_ℕ 0 (base - target)) ≡ pos (min base target)
  unfolding effective_of wrap_i32 as_i32 ◌+ℤ◌
  effective_of_capped base h = ground arith

  -- A turn that goes on lists the entry of its bin, which is not above the target.
  abbrev Lists : Tally → AnchoredBinEntry → Planned Tally → Type 0
  Lists t e (rejected _) = Unit
  Lists t e (planned t') = (t'.entries ≡ t.entries ++ e ∷ []) × (e.effective_mhz ≤ target)

  as_i32-small : as_i32 target ≡ pos target
  unfolding as_i32 wrap_i32
  as_i32-small = ground arith

  cap_with-Lists :
      (p : CurvePoint) (t : Tally)
      → Lists t
          (entry p (sub_ℕ 0 (p.freq_mhz - target)) (min p.freq_mhz target) capped_above)
          (cap_with p (pos target) (sub_ℕ 0 (p.freq_mhz - target)) (pos (min p.freq_mhz target)) t)
  unfolding cap_with as_u32
  cap_with-Lists p t = ground arith

  cap_bin-Lists :
      (p : CurvePoint) (t : Tally)
      → p.freq_mhz ≤ 3500
      → Lists t
          (entry p (sub_ℕ 0 (p.freq_mhz - target)) (min p.freq_mhz target) capped_above)
          (cap_bin p target t)
  unfolding cap_bin
  cap_bin-Lists p t h =
      rw (as_i32-small, cap_offset-small p.freq_mhz h, effective_of_capped p.freq_mhz h)
        (cap_with-Lists p t)

  leave_bin-Lists :
      (p : CurvePoint) (t : Tally)
      → p.freq_mhz ≤ 3500
      → Lists t (entry p (pos 0) p.freq_mhz elastic_below) (leave_bin p target t)
  unfolding leave_bin as_i32 wrap_i32
  leave_bin-Lists p t h = ground arith

  module _ (anchor : PositiveOffsetPlan) where
    anchored_bin-Lists :
        (p : CurvePoint) (t : Tally)
        → p.freq_mhz ≤ 3500
        → Lists t (entry_for anchor target p) (anchored_bin anchor target p t)
    unfolding anchored_bin
    anchored_bin-Lists p t h = elim (Bool-cases (p.index == anchor.index)) [
      | inl at ↦ rw at (refl, omega arith)
      | inr other ↦ elim (Bool-cases (ltb anchor.voltage_mv p.voltage_mv)) [
        | inl above ↦ rw (other, above) (cap_bin-Lists p t h)
        | inr below ↦ rw (other, below) (leave_bin-Lists p t h)
      ]
    ]

    abbrev ListsAll : Tally → List AnchoredBinEntry → Planned Tally → Type 0
    ListsAll t es (rejected _) = Unit
    ListsAll t es (planned t') =
        (t'.entries ≡ t.entries ++ es) × All (λ e. e.effective_mhz ≤ target) es

    ListsAll-cons :
        (t t' : Tally) (e : AnchoredBinEntry) (es : List AnchoredBinEntry) (r : Planned Tally)
        → Lists t e (planned t')
        → ListsAll t' es r
        → ListsAll t (e ∷ es) r
    ListsAll-cons t t' e es (rejected x) k m = tt
    ListsAll-cons t t' e es (planned u) k m =
        (m.0 ∙ ap (λ xs. xs ++ es) k.0 ∙ append_assoc t.entries (e ∷ []) es, (k.1, m.1))

    bind-ListsAll :
        (t : Tally) (e : AnchoredBinEntry) (es : List AnchoredBinEntry) (r : Planned Tally)
        (next : Tally → Planned Tally)
        → Lists t e r
        → ((t' : Tally) → ListsAll t' es (next t'))
        → ListsAll t (e ∷ es) (bind r next)
    bind-ListsAll t e es (rejected x) next k m = tt
    bind-ListsAll t e es (planned t') next k m = ListsAll-cons t t' e es (next t') k (m t')

    loop-ListsAll :
        (ps : List CurvePoint) (t : Tally)
        → All (λ p. p.freq_mhz ≤ 3500) ps
        → ListsAll t (map (entry_for anchor target) ps) (anchored_loop anchor target ps t)
    unfolding anchored_loop
    loop-ListsAll [] t h = (sym (append-nil t.entries), tt)
    loop-ListsAll (p ∷ ps) t h =
        bind-ListsAll t (entry_for anchor target p) (map (entry_for anchor target) ps)
          (anchored_bin anchor target p t) (λ t'. anchored_loop anchor target ps t')
          (anchored_bin-Lists p t h.0) (λ t'. loop-ListsAll ps t' h.1)

pub bind_planned :
    {A B : Type 0} (r : Planned A) (next : A → Planned B) (b : B)
    → bind r next ≡ planned b
    → (a : A) × (r ≡ planned a) × (next a ≡ planned b)
bind_planned (rejected x) next b h = cc
bind_planned (planned a) next b h = (a, refl, h)

conclude_planned :
    (anchor : PositiveOffsetPlan) (target : ℕ) (t : Tally) (plan : AnchoredPositiveOffsetPlan)
    → conclude anchor target t ≡ planned plan
    → (plan.anchor ≡ anchor)
      × (plan.entries ≡ t.entries)
      × (only_anchor anchor.index (filter raises t.entries) ≡ true)
unfolding conclude
conclude_planned anchor target t plan h = ground arith

sane_clocks :
    (ps : List CurvePoint) → all is_sane_base_point ps ≡ true → All (λ p. p.freq_mhz ≤ 3500) ps
sane_clocks [] h = tt
sane_clocks (p ∷ ps) h = (ground arith, sane_clocks ps (ground arith))

sane_curve : (ps : List CurvePoint) → is_sane_base_curve ps ≡ true → All (λ p. p.freq_mhz ≤ 3500) ps
sane_curve ps h = sane_clocks ps (ground arith)

-- Only an entry of the anchor's bin raises.
abbrev pub IsLowered : ℕ → AnchoredBinEntry → Type 0
IsLowered i e = (e.index ≡ i) ⊎ (is_positive e.offset_mhz ≡ false)

All-IsLowered :
    (anchor : PositiveOffsetPlan) (target : ℕ) (ps : List CurvePoint)
    → All (IsLowered anchor.index) (map (entry_for anchor target) ps)
All-IsLowered anchor target [] = tt
All-IsLowered anchor target (p ∷ ps) = (ground arith, All-IsLowered anchor target ps)

loop_planned :
    (target : ℕ) (small : target < 2147483648) (anchor : PositiveOffsetPlan)
    (curve : List CurvePoint) (t : Tally)
    → All (λ p. p.freq_mhz ≤ 3500) curve
    → anchored_loop anchor target curve no_bins ≡ planned t
    → (t.entries ≡ map (entry_for anchor target) curve)
      × All (λ e. e.effective_mhz ≤ target) (map (entry_for anchor target) curve)
unfolding no_bins
loop_planned target small anchor curve t sane h =
    subst (ListsAll target small anchor no_bins (map (entry_for anchor target) curve)) h
      (loop-ListsAll target small anchor curve no_bins sane)

-- An accepted anchored plan: its anchor is what the bounded planner plans, and it has one entry for each
-- bin of the curve, in order: the anchor's raise to the target, for a bin of a higher voltage what lowers
-- it to the target or nothing, and nothing for the other bins. No bin ends above the target, no bin but
-- the anchor is raised, and exactly one is. The target and the previous offset are taken to fit in i32.
pub anchored_plan :
    (curve : List CurvePoint) (bin_index target prev : ℕ) (limits : PositiveOffsetLimits)
    (plan : AnchoredPositiveOffsetPlan)
    → target < 2147483648
    → prev < 2147483648
    → plan_bounded_anchored_positive_offset curve bin_index target (pos prev) limits ≡ planned plan
    → (plan_bounded_positive_offset curve bin_index target (pos prev) limits ≡ planned plan.anchor)
      × (plan.entries ≡ map (entry_for plan.anchor target) curve)
      × All (λ e. e.effective_mhz ≤ target) plan.entries
      × All (IsLowered plan.anchor.index) plan.entries
      × (only_anchor plan.anchor.index (filter raises plan.entries) ≡ true)
unfolding plan_bounded_anchored_positive_offset
anchored_plan curve bin_index target prev limits plan small kept h =
    let (anchor, bounded, h1) =
      bind_planned (plan_bounded_positive_offset curve bin_index target (pos prev) limits)
        (λ anchor. bind (anchored_loop anchor target curve no_bins) (λ t. conclude anchor target t))
        plan h in
    let (t, looped, h2) =
      bind_planned (anchored_loop anchor target curve no_bins) (λ t. conclude anchor target t) plan
        h1 in
    let (same, listed, single) = conclude_planned anchor target t plan h2 in
    let sane =
      sane_curve curve
        ((plan_bounded_iff curve bin_index target prev limits anchor small kept).0 bounded).0 in
    let (entries, low) = loop_planned target small anchor curve t sane looped in
    let all_entries : plan.entries ≡ map (entry_for anchor target) curve = listed ∙ entries in
    rw (same, all_entries)
      (
        bounded,
        refl,
        low,
        All-IsLowered anchor target curve,
        subst (λ es. only_anchor anchor.index (filter raises es) ≡ true) entries single,
      )
