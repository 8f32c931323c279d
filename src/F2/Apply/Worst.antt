-- ===== src/F2/Apply/Worst.antt =====
-- The gate, the endurance test and the worst power of one run agree:
-- `current_complete_apply_gate_p99_at_anchor`, `point_has_current_endurance_qualification` and
-- `worst_current_apply_qualification_power_at_anchor` of `crates/core/src/f2_observation.rs`.
use nidavellir.Shared.{
  ℕ, ◌≤◌, ◌≡◌, refl, sym, ap, ◌∙◌, subst, inl, inr, String, Bool, true, ◌&&◌, List, [], ◌∷◌, ◌++◌,
  Option, none, some, arith, All-In, In, In-append_left, In-append_right, any-In, In-filter_kept,
  filter, str_eq, unwrap_or,
}
use nidavellir.Shared.Extremes.{max_by_key, max_by_key-IsGreatest}
use nidavellir.F2.Float.{total_key, u32_as_f32}
use nidavellir.F2.Kinds.{F2QualificationPattern, eq_pattern}
use nidavellir.F2.Observation.{F2Observation}
use nidavellir.F2.Evidence.{is_some_and, pattern_of, is_current_apply_qualification_evidence}
use nidavellir.F2.Apply.{
  ApplyPair, is_at, is_clean_reading, is_power, listed, powers, power_of, is_evidence_of_run,
  is_gate_reading, apply_qual_reading_trustworthy, current_complete_apply_gate_p99_at_anchor,
  point_has_current_endurance_qualification, worst_current_apply_qualification_power_at_anchor,
}
use nidavellir.F2.Apply.Gate.{gate_p99_lem}

-- What a gate reading of a run is, apart from its power.
reading-evidence :
    (run : String) (pair : ApplyPair) (o : F2Observation)
    → is_gate_reading (some run) pair o ≡ true
    → is_evidence_of_run run pair o ≡ true
reading-evidence run pair o h =
    first (str_eq o.run_id run && is_at pair o && is_current_apply_qualification_evidence o)
      (is_clean_reading pair o) h
  where
    first : (a b : Bool) → (a && b) ≡ true → a ≡ true
    first a b h = ground arith

reading-is_power :
    (run : String) (pair : ApplyPair) (o : F2Observation)
    → is_gate_reading (some run) pair o ≡ true
    → (o.power_p99_w ≡ some (power_of o)) × (is_power (power_of o) ≡ true)
reading-is_power run pair o h = from_option o.power_p99_w (
    last (is_evidence_of_run run pair o) o.reset_to_stock_ok o.boot_flag_cleared
      (apply_qual_reading_trustworthy o pair.target_mhz) (is_some_and o.power_p99_w is_power) h)
  where
    last : (a b c d e : Bool) → (a && (b && c && d && e)) ≡ true → e ≡ true
    last a b c d e h = ground arith

    from_option :
        (power : Option ℕ)
        → is_some_and power is_power ≡ true
        → (power ≡ some (unwrap_or power 0)) × (is_power (unwrap_or power 0) ≡ true)
    from_option none h = cc
    from_option (some bits) h = (refl, h)

In-powers :
    (o : F2Observation) (p : ℕ) (os : List F2Observation)
    → In o os
    → o.power_p99_w ≡ some p
    → In p (powers os)
In-powers o p [] h e = absurd h
In-powers o p (x ∷ os) (inl same) e =
    let own = listed u32_as_f32 x.max_watts in
    let here : In p (listed (λ p. p) x.power_p99_w) =
      subst (λ w. In p (listed (λ p. p) w)) (sym e ∙ ap (λ x. x.power_p99_w) same) (inl refl) in
    In-append_left p (listed (λ p. p) x.power_p99_w ++ own) (powers os)
      (In-append_left p (listed (λ p. p) x.power_p99_w) own here)
In-powers o p (x ∷ os) (inr h) e =
    In-append_right p (listed (λ p. p) x.power_p99_w ++ listed u32_as_f32 x.max_watts) (powers os)
      (In-powers o p os h e)

pub max-above :
    (p : ℕ) (xs : List ℕ)
    → In p xs
    → (w : ℕ) × (max_by_key total_key xs ≡ some w) × (total_key p ≤ total_key w)
max-above p xs h = elim (max_by_key-IsGreatest total_key xs) [
  | inl (e, empty) ↦ absurd (subst (In p) empty h)
  | inr (w, e, greatest) ↦ (w, e, All-In (λ x. total_key x ≤ total_key w) xs p greatest.1 h)
]

-- When the gate of a run passes with a power, the endurance test of that run passes too, and the worst
-- power of the run exists and is at least the gate's: the headroom check never works on less.
pub gate-worst :
    (obs : List F2Observation) (run : String) (pair : ApplyPair) (p : ℕ)
    → current_complete_apply_gate_p99_at_anchor obs run pair ≡ some p
    → (point_has_current_endurance_qualification obs run pair ≡ true)
      × ((w : ℕ) × (worst_current_apply_qualification_power_at_anchor obs run pair ≡ some w)
          × (total_key p ≤ total_key w))
unfolding point_has_current_endurance_qualification
    worst_current_apply_qualification_power_at_anchor
gate-worst obs run pair p h =
    let (r, seen, (y, (there, soaks, own), pat), (z, (found, reads, same), power)) =
      gate_p99_lem obs (some run) pair p h in
    let evidence = is_evidence_of_run run pair in
    let (stored, positive) = reading-is_power run pair z reads in
    let inside : In p (filter is_power (powers (filter evidence obs))) =
      subst (λ m. In m (filter is_power (powers (filter evidence obs)))) power
        (In-filter_kept is_power (power_of z) (powers (filter evidence obs))
          (In-powers z (power_of z) (filter evidence obs)
            (In-filter_kept evidence z obs found (reading-evidence run pair z reads)) stored)
          positive) in
    (
      rw (
          any-In
            (λ o.
              is_evidence_of_run run pair o
              && is_some_and (pattern_of o) (λ p. eq_pattern p F2QualificationPattern.endurance))
            y obs there (rw (reading-evidence run pair y soaks, pat) refl)),
      max-above p (filter is_power (powers (filter evidence obs))) inside,
    )
