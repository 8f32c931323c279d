-- ===== src/F2/Apply/Gate.antt =====
-- What a power of the complete Apply gate stands for, `complete_apply_gate_p99_at_anchor` of
-- `crates/core/src/f2_observation.rs`.
use nidavellir.Shared.{
  ℕ, ◌≡◌, refl, inl, inr, String, Bool, true, ◌&&◌, List, [], ◌∷◌, map, Option, none, some, arith,
  unwrap_or, All, In, filter, Bool-cases, All-weaken,
}
use nidavellir.Shared.Extremes.{max_by_key-In, In-filter}
use nidavellir.F2.Float.{total_key}
use nidavellir.F2.Kinds.{texture, endurance}
use nidavellir.F2.Observation.{F2Observation}
use nidavellir.F2.Evidence.{is_some_and, is_current_apply_qualification_evidence, pattern_of}
use nidavellir.F2.Apply.{
  ApplyPair, gate_loop, is_complete, is_power, is_of_run, is_at, apply_qual_reading_trustworthy,
  is_gate_reading, power_of, complete_apply_gate_p99_at_anchor,
}
use nidavellir.F2.Apply.Magnitude.{IsMagnitude, power-IsMagnitude}
use nidavellir.F2.Apply.Runs.{IsReading, HavePowers, gate_loop-IsSound, values-HasPower}

-- A reading that the gate takes from the journal, of this run.
abbrev pub IsGateReading :
    List F2Observation → Option String → ApplyPair → String → F2Observation → Type 0
IsGateReading obs run pair r o = In o obs × (is_gate_reading run pair o ≡ true) × (o.run_id ≡ r)

pub reading-power :
    (run : Option String) (pair : ApplyPair) (o : F2Observation)
    → is_gate_reading run pair o ≡ true
    → IsMagnitude (power_of o)
reading-power run pair o h = from_option o.power_p99_w (
    last (is_of_run run o && is_at pair o && is_current_apply_qualification_evidence o)
      o.reset_to_stock_ok o.boot_flag_cleared (apply_qual_reading_trustworthy o pair.target_mhz)
      (is_some_and o.power_p99_w is_power) h)
  where
    last : (a b c d e : Bool) → (a && (b && c && d && e)) ≡ true → e ≡ true
    last a b c d e h = ground arith

    from_option :
        (power : Option ℕ) → is_some_and power is_power ≡ true → IsMagnitude (unwrap_or power 0)
    from_option none h = ground arith
    from_option (some bits) h = power-IsMagnitude bits h

pub All-self : (xs : List F2Observation) → All (λ o. In o xs) xs
All-self [] = tt
All-self (x ∷ xs) =
    (inl refl, All-weaken (λ o. In o xs) (λ o. In o (x ∷ xs)) xs (λ o h. inr h) (All-self xs))

pub filter-HavePowers :
    (run : Option String) (pair : ApplyPair) (obs : List F2Observation)
    → HavePowers (filter (is_gate_reading run pair) obs)
filter-HavePowers run pair [] = tt
filter-HavePowers run pair (o ∷ obs) = elim (Bool-cases (is_gate_reading run pair o)) [
  | inl e ↦ rw e (reading-power run pair o e, filter-HavePowers run pair obs)
  | inr e ↦ rw e (filter-HavePowers run pair obs)
]

-- A power that passes the complete gate is the p99 of a real reading, and one run, the given one if one
-- is given, has both a Texture and an Endurance reading at exactly this pair. Every reading is current,
-- reset-clean and trustworthy.
pub gate_p99_lem :
    (obs : List F2Observation) (run : Option String) (pair : ApplyPair) (p : ℕ)
    → complete_apply_gate_p99_at_anchor obs run pair ≡ some p
    → (r : String) × ((o : F2Observation) × IsGateReading obs run pair r o
        × (pattern_of o ≡ some texture))
      × ((o : F2Observation) × IsGateReading obs run pair r o × (pattern_of o ≡ some endurance))
      × ((o : F2Observation) × IsGateReading obs run pair r o × (power_of o ≡ p))
unfolding complete_apply_gate_p99_at_anchor
gate_p99_lem obs run pair p h =
    let readings = filter (is_gate_reading run pair) obs in
    let (r, (x, a, k), (y, b, l), (z, c, m)) =
      values-HasPower readings (filter-HavePowers run pair obs) p (gate_loop [] readings)
        (gate_loop-IsSound readings (filter-HavePowers run pair obs) readings [] (All-self readings)
          tt)
        (max_by_key-In total_key p
          (map (λ r. r.power) (filter is_complete (map (λ entry. entry.1) (gate_loop [] readings))))
          h) in
    (r, (x, own x r a, k), (y, own y r b, l), (z, own z r c, m))
  where
    own :
        (o : F2Observation) (r : String)
        → IsReading (filter (is_gate_reading run pair) obs) r o
        → IsGateReading obs run pair r o
    own o r (found, same) =
        let (place, passes) = In-filter (is_gate_reading run pair) o obs found in
        (place, passes, same)
