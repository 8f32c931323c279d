-- ===== src/F2/Apply/Liveness.antt =====
-- When the complete Apply gate opens, `complete_apply_gate_p99_at_anchor` of
-- `crates/core/src/f2_observation.rs`.
use nidavellir.Shared.{
  ℕ, ◌≤◌, ◌≡◌, refl, sym, ap, ◌∙◌, subst, inl, inr, String, true, List, [], ◌∷◌, map, Option, some,
  arith, unwrap_or, All, All-In, In, In-filter_kept, filter, some-some,
}
use nidavellir.Shared.Dict.{Dict, lookup, lookup-insert, lookup-In}
use nidavellir.F2.Float.{total_key}
use nidavellir.F2.Kinds.{texture, endurance}
use nidavellir.F2.Observation.{F2Observation}
use nidavellir.F2.Evidence.{required_pattern_index, pattern_of}
use nidavellir.F2.Apply.{
  ApplyPair, GateRun, fresh_run, mark_gate, gate_step, gate_loop, is_complete, is_gate_reading,
  power_of, complete_apply_gate_p99_at_anchor,
}
use nidavellir.F2.Apply.Magnitude.{IsMagnitude, max_f32-IsMax}
use nidavellir.F2.Apply.Runs.{HavePowers, IsSound, IsSound-power, IsSound-seen, entry-IsSound}
use nidavellir.F2.Apply.Gate.{IsGateReading, All-self, filter-HavePowers}
use nidavellir.F2.Apply.Worst.{max-above}
use nidavellir.F2.Apply.Marks.{IsSeen, IsSoaked, mark-IsSeen, mark-IsSoaked, gate_loop-makes}

module _ (readings : List F2Observation) (powers : HavePowers readings) where
  texture-makes :
      (o : F2Observation) (runs : Dict GateRun)
      → pattern_of o ≡ some texture
      → In o readings
      → All (λ e. IsSound readings e.0 e.1) runs
      → (v : GateRun) × (lookup o.run_id (gate_step (pattern_of o) o runs) ≡ some v)
        × IsSeen (power_of o) v
  unfolding required_pattern_index
  texture-makes o runs e found sound =
      let before = unwrap_or (lookup o.run_id runs) fresh_run in
      let was = entry-IsSound readings powers o.run_id runs sound in
      let (one, old, new) =
        max_f32-IsMax before.power (power_of o) (IsSound-power readings powers o.run_id before was)
          (All-In (λ o. IsMagnitude (power_of o)) readings o powers found) in
      let after = mark_gate texture (required_pattern_index texture) (power_of o) before in
      (
        after,
        subst (λ p. lookup o.run_id (gate_step p o runs) ≡ some after) (sym e)
            (lookup-insert o.run_id after runs),
        (IsSound-seen readings powers o.run_id before was, new),
      )

  endurance-makes :
      (o : F2Observation) (runs : Dict GateRun)
      → pattern_of o ≡ some endurance
      → In o readings
      → All (λ e. IsSound readings e.0 e.1) runs
      → (v : GateRun) × (lookup o.run_id (gate_step (pattern_of o) o runs) ≡ some v)
        × IsSoaked (power_of o) v
  unfolding required_pattern_index
  endurance-makes o runs e found sound =
      let before = unwrap_or (lookup o.run_id runs) fresh_run in
      let was = entry-IsSound readings powers o.run_id runs sound in
      let (one, old, new) =
        max_f32-IsMax before.power (power_of o) (IsSound-power readings powers o.run_id before was)
          (All-In (λ o. IsMagnitude (power_of o)) readings o powers found) in
      let after = mark_gate endurance (required_pattern_index endurance) (power_of o) before in
      (
        after,
        subst (λ p. lookup o.run_id (gate_step p o runs) ≡ some after) (sym e)
            (lookup-insert o.run_id after runs),
        (refl, new),
      )

  -- Both readings of one run leave it complete, at no less than their powers.
  complete-run :
      (x y : F2Observation)
      → In x readings
      → In y readings
      → pattern_of x ≡ some texture
      → pattern_of y ≡ some endurance
      → y.run_id ≡ x.run_id
      → (v : GateRun) × (lookup x.run_id (gate_loop [] readings) ≡ some v)
        × (is_complete v ≡ true)
        × (total_key (power_of x) ≤ total_key v.power)
        × (total_key (power_of y) ≤ total_key v.power)
  complete-run x y hx hy px py same =
      let (v, e, (seen, left)) =
        gate_loop-makes readings powers (IsSeen (power_of x)) (mark-IsSeen (power_of x)) x readings
          [] hx (All-self readings) tt (λ runs sound. texture-makes x runs px hx sound) in
      let (w, f, (soaked, right)) =
        gate_loop-makes readings powers (IsSoaked (power_of y)) (mark-IsSoaked (power_of y)) y
          readings [] hy (All-self readings) tt
          (λ runs sound. endurance-makes y runs py hy sound) in
      let one : w ≡ v =
        some-some w v (sym f ∙ ap (λ r. lookup r (gate_loop [] readings)) same ∙ e) in
      (
        v,
        e,
        rw seen (subst (λ u. u.endurance ≡ true) one soaked),
        left,
        subst (λ u. total_key (power_of y) ≤ total_key u.power) one right,
      )

In-power : (v : GateRun) (vs : List GateRun) → In v vs → In v.power (map (λ r. r.power) vs)
In-power v [] h = absurd h
In-power v (w ∷ vs) (inl e) = inl (ap (λ r. r.power) e)
In-power v (w ∷ vs) (inr h) = inr (In-power v vs h)

-- A run that has a Texture and an Endurance reading at the pair opens the gate, whatever else the journal
-- holds, and the power that the gate gives is not below either of the two.
pub gate-opens :
    (obs : List F2Observation) (run : Option String) (pair : ApplyPair) (r : String)
    (x y : F2Observation)
    → IsGateReading obs run pair r x
    → IsGateReading obs run pair r y
    → pattern_of x ≡ some texture
    → pattern_of y ≡ some endurance
    → (p : ℕ) × (complete_apply_gate_p99_at_anchor obs run pair ≡ some p)
      × (total_key (power_of x) ≤ total_key p)
      × (total_key (power_of y) ≤ total_key p)
unfolding complete_apply_gate_p99_at_anchor
gate-opens obs run pair r x y (hx, gx, rx) (hy, gy, ry) px py =
    let readings = filter (is_gate_reading run pair) obs in
    let (v, e, complete, left, right) =
      complete-run readings (filter-HavePowers run pair obs) x y
        (In-filter_kept (is_gate_reading run pair) x obs hx gx)
        (In-filter_kept (is_gate_reading run pair) y obs hy gy) px py (ry ∙ sym rx) in
    let runs = gate_loop [] readings in
    let complete_runs = filter is_complete (map (λ entry. entry.1) runs) in
    let (p, found, above) = max-above v.power (map (λ r. r.power) complete_runs) (
      In-power v complete_runs (
        In-filter_kept is_complete v (map (λ entry. entry.1) runs) (lookup-In x.run_id v runs e)
          complete)) in
    (p, found, omega (arith, left, above), omega (arith, right, above))
