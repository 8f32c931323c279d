-- ===== src/F2/Apply/Marks.antt =====
-- What the loop of `complete_apply_gate_p99_at_anchor` has once noted of a run stays noted, in
-- `crates/core/src/f2_observation.rs`.
use nidavellir.Shared.{
  ℕ, ◌≤◌, ◌≡◌, refl, sym, ap, ◌∙◌, subst, inl, inr, String, true, List, [], ◌∷◌, Option, none, some,
  arith, unwrap_or, All, All-In, In, str_eq, eq_iff, Bool-cases,
}
use nidavellir.Shared.Dict.{Dict, lookup, insert, lookup-insert, lookup-insert_other}
use nidavellir.F2.Float.{total_key, max_f32}
use nidavellir.F2.Kinds.{
  F2QualificationPattern, pattern_a, pattern_b, high_fps, texture, transitions, memory, endurance,
  transition_shock, dx11_game,
}
use nidavellir.F2.Observation.{F2Observation}
use nidavellir.F2.Evidence.{required_pattern_index, pattern_of}
use nidavellir.F2.Apply.{GateRun, fresh_run, mark_gate, gate_step, gate_loop, set_at, power_of}
use nidavellir.F2.Apply.Magnitude.{IsMagnitude, max_f32-IsMax}
use nidavellir.F2.Apply.Runs.{HavePowers, IsSound, IsSound-power, entry-IsSound, gate_step-IsSound}

-- A run has its Texture pass, or its Endurance pass, at this power or a higher one.
abbrev pub IsSeen : ℕ → GateRun → Type 0
IsSeen power v = (v.seen ≡ true ∷ []) × (total_key power ≤ total_key v.power)

abbrev pub IsSoaked : ℕ → GateRun → Type 0
IsSoaked power v = (v.endurance ≡ true) × (total_key power ≤ total_key v.power)

raised_clock-key :
    (power x y : ℕ)
    → IsMagnitude x
    → IsMagnitude y
    → total_key power ≤ total_key x
    → total_key power ≤ total_key (max_f32 x y)
raised_clock-key power x y h k le =
    let (one, old, new) = max_f32-IsMax x y h k in omega (arith, le, old)

pub mark-IsSeen :
    (power watts : ℕ) (v : GateRun) (p : F2QualificationPattern)
    → IsMagnitude v.power
    → IsMagnitude watts
    → IsSeen power v
    → IsSeen power (mark_gate p (required_pattern_index p) watts v)
unfolding required_pattern_index
mark-IsSeen power watts v pattern_a h k s = s
mark-IsSeen power watts v pattern_b h k s = s
mark-IsSeen power watts v high_fps h k s = s
mark-IsSeen power watts v transitions h k s = s
mark-IsSeen power watts v memory h k s = s
mark-IsSeen power watts v transition_shock h k s = s
mark-IsSeen power watts v dx11_game h k s = s
mark-IsSeen power watts v texture h k s =
    (ap (set_at 0) s.0, raised_clock-key power v.power watts h k s.1)
mark-IsSeen power watts v endurance h k s = (s.0, raised_clock-key power v.power watts h k s.1)

pub mark-IsSoaked :
    (power watts : ℕ) (v : GateRun) (p : F2QualificationPattern)
    → IsMagnitude v.power
    → IsMagnitude watts
    → IsSoaked power v
    → IsSoaked power (mark_gate p (required_pattern_index p) watts v)
unfolding required_pattern_index
mark-IsSoaked power watts v pattern_a h k s = s
mark-IsSoaked power watts v pattern_b h k s = s
mark-IsSoaked power watts v high_fps h k s = s
mark-IsSoaked power watts v transitions h k s = s
mark-IsSoaked power watts v memory h k s = s
mark-IsSoaked power watts v transition_shock h k s = s
mark-IsSoaked power watts v dx11_game h k s = s
mark-IsSoaked power watts v texture h k s = (s.0, raised_clock-key power v.power watts h k s.1)
mark-IsSoaked power watts v endurance h k s = (refl, raised_clock-key power v.power watts h k s.1)

-- A mark that no later reading takes away, kept in the dictionary through the loop.
module _ (readings : List F2Observation) (powers : HavePowers readings) (Mark : GateRun → Type 0)
    (kept : (watts : ℕ) (v : GateRun) (p : F2QualificationPattern)
      → IsMagnitude v.power
      → IsMagnitude watts
      → Mark v
      → Mark (mark_gate p (required_pattern_index p) watts v)) where
  abbrev pub Marked : String → Dict GateRun → Type 0
  Marked r runs = (v : GateRun) × (lookup r runs ≡ some v) × Mark v

  abbrev Sound : Dict GateRun → Type 0
  Sound runs = All (λ e. IsSound readings e.0 e.1) runs

  watts-IsMagnitude : (o : F2Observation) → In o readings → IsMagnitude (power_of o)
  watts-IsMagnitude o found = All-In (λ o. IsMagnitude (power_of o)) readings o powers found

  gate_step-Marked :
      (pat : Option F2QualificationPattern) (o : F2Observation) (r : String) (runs : Dict GateRun)
      → In o readings
      → Sound runs
      → Marked r runs
      → Marked r (gate_step pat o runs)
  gate_step-Marked none o r runs found sound m = m
  gate_step-Marked (some p) o r runs found sound (v, e, m) =
      let before = unwrap_or (lookup o.run_id runs) fresh_run in
      let after = mark_gate p (required_pattern_index p) (power_of o) before in
      elim (Bool-cases (str_eq o.run_id r)) [
        | inr other ↦ (
          v,
          lookup-insert_other o.run_id r after runs
                (λ same. let yes_eq = (eq_iff o.run_id r).1 same in cc)
              ∙ e,
          m,
        )
        | inl same ↦
            let at = (eq_iff o.run_id r).0 same in
            let was : before ≡ v = rw (at, e) refl in
            (
              after,
              subst (λ n. lookup n (insert o.run_id after runs) ≡ some after) at
                  (lookup-insert o.run_id after runs),
              kept (power_of o) before p
                  (IsSound-power readings powers o.run_id before
                    (entry-IsSound readings powers o.run_id runs sound))
                  (watts-IsMagnitude o found) (subst Mark (sym was) m),
            )
      ]

  gate_loop-Marked :
      (os : List F2Observation) (r : String) (runs : Dict GateRun)
      → All (λ o. In o readings) os
      → Sound runs
      → Marked r runs
      → Marked r (gate_loop runs os)
  unfolding gate_loop
  gate_loop-Marked [] r runs inside sound m = m
  gate_loop-Marked (o ∷ os) r runs inside sound m =
      gate_loop-Marked os r (gate_step (pattern_of o) o runs) inside.1
        (gate_step-IsSound readings powers (pattern_of o) o runs refl inside.0 sound)
        (gate_step-Marked (pattern_of o) o r runs inside.0 sound m)

  -- A reading whose own step makes the mark leaves it on its run.
  pub gate_loop-makes :
      (o : F2Observation) (os : List F2Observation) (runs : Dict GateRun)
      → In o os
      → All (λ o. In o readings) os
      → Sound runs
      → ((runs : Dict GateRun) → Sound runs → Marked o.run_id (gate_step (pattern_of o) o runs))
      → Marked o.run_id (gate_loop runs os)
  unfolding gate_loop
  gate_loop-makes o [] runs found inside sound makes = absurd found
  gate_loop-makes o (x ∷ os) runs found inside sound makes =
      let next = gate_step (pattern_of x) x runs in
      let still = gate_step-IsSound readings powers (pattern_of x) x runs refl inside.0 sound in
      elim found [
        | inl same ↦
            gate_loop-Marked os o.run_id next inside.1 still (
              subst (λ y. Marked o.run_id (gate_step (pattern_of y) y runs)) same
                (makes runs sound))
        | inr later ↦ gate_loop-makes o os next later inside.1 still makes
      ]
