-- ===== src/F2/Apply/Runs.antt =====
-- What the loop of `complete_apply_gate_p99_at_anchor` knows of each run, in
-- `crates/core/src/f2_observation.rs`.
use nidavellir.Shared.{
  ℕ, ◌≤◌, ◌≡◌, refl, sym, ap, ◌∙◌, subst, ◌⊎◌, inl, inr, String, Bool, true, false, ◌&&◌, List, [],
  ◌∷◌, map, Option, none, some, arith, unwrap_or, All, All-In, In, filter, Option-cases, Bool-cases,
  if◌then◌else◌,
}
use nidavellir.Shared.Dict.{Dict, lookup, insert-All, lookup-All}
use nidavellir.F2.Float.{total_key, max_f32}
use nidavellir.F2.Kinds.{
  F2QualificationPattern, pattern_a, pattern_b, high_fps, texture, transitions, memory, endurance,
  transition_shock, dx11_game,
}
use nidavellir.F2.Observation.{F2Observation}
use nidavellir.F2.Evidence.{required_pattern_index, pattern_of}
use nidavellir.F2.Apply.{
  GateRun, fresh_run, mark_gate, gate_step, gate_loop, is_complete, all_seen, set_at, power_of,
}
use nidavellir.F2.Apply.Magnitude.{IsMagnitude, max_f32-IsMax}

-- One of the readings belongs to the run.
abbrev pub IsReading : List F2Observation → String → F2Observation → Type 0
IsReading readings run o = In o readings × (o.run_id ≡ run)

-- A reading of the run with this pattern.
abbrev pub HasPattern : List F2Observation → String → F2QualificationPattern → Type 0
HasPattern readings run p = (o : F2Observation) × IsReading readings run o × (pattern_of o ≡ some p)

-- A reading of the run with this power.
abbrev pub HasPower : List F2Observation → String → ℕ → Type 0
HasPower readings run power = (o : F2Observation) × IsReading readings run o × (power_of o ≡ power)

-- What the loop knows of a run: nothing, or what some reading of it showed.
abbrev pub IsUntouched : GateRun → Type 0
IsUntouched v = (v.seen ≡ false ∷ []) × (v.endurance ≡ false) × (v.power ≡ 0)

abbrev pub IsBacked : List F2Observation → String → GateRun → Type 0
IsBacked readings run v =
    ((v.seen ≡ false ∷ []) ⊎ ((v.seen ≡ true ∷ []) × HasPattern readings run texture))
    × ((v.endurance ≡ false) ⊎ HasPattern readings run endurance)
    × HasPower readings run v.power

abbrev pub IsSound : List F2Observation → String → GateRun → Type 0
IsSound readings run v = IsUntouched v ⊎ IsBacked readings run v

-- Every reading has a power.
abbrev pub HavePowers : List F2Observation → Type 0
HavePowers readings = All (λ o. IsMagnitude (power_of o)) readings

module _ (readings : List F2Observation) (powers : HavePowers readings) where
  HasPower-IsMagnitude :
      (run : String) (power : ℕ) → HasPower readings run power → IsMagnitude power
  HasPower-IsMagnitude run power (o, (found, same), e) =
      subst IsMagnitude e (All-In (λ o. IsMagnitude (power_of o)) readings o powers found)

  pub IsSound-power : (run : String) (v : GateRun) → IsSound readings run v → IsMagnitude v.power
  IsSound-power run v (inl (s, e, p)) = omega (arith, p)
  IsSound-power run v (inr (s, e, p)) = HasPower-IsMagnitude run v.power p

  -- The greater of the power so far and that of a reading is the power of a reading.
  pub max-HasPower :
      (run : String) (v : GateRun) (o : F2Observation)
      → IsSound readings run v
      → IsReading readings run o
      → HasPower readings run (max_f32 v.power (power_of o))
  max-HasPower run v o sound reading =
      let own = All-In (λ o. IsMagnitude (power_of o)) readings o powers reading.0 in
      let (one, above_old, above_new) =
        max_f32-IsMax v.power (power_of o) (IsSound-power run v sound) own in
      elim one [
        | inr new ↦ (o, reading, sym new)
        | inl old ↦ elim sound [
          | inr (s, e, (x, r, p)) ↦ (x, r, p ∙ sym old)
          | inl (s, e, p) ↦ (
            o,
            reading,
            first_power (power_of o) (max_f32 v.power (power_of o)) (old ∙ p) above_new own,
          )
        ]
      ]
    where
      first_power : (y m : ℕ) → m ≡ 0 → total_key y ≤ total_key m → IsMagnitude y → y ≡ m
      first_power y m h le k = ground arith

  pub IsSound-seen :
      (run : String) (v : GateRun) → IsSound readings run v → set_at 0 v.seen ≡ true ∷ []
  IsSound-seen run v (inl (s, none_yet, p)) = ap (set_at 0) s
  IsSound-seen run v (inr (inl s, soaked, p)) = ap (set_at 0) s
  IsSound-seen run v (inr (inr (s, seen), soaked, p)) = ap (set_at 0) s

  pub mark-IsSound :
      (run : String) (v : GateRun) (o : F2Observation) (p : F2QualificationPattern)
      → pattern_of o ≡ some p
      → IsReading readings run o
      → IsSound readings run v
      → IsSound readings run (mark_gate p (required_pattern_index p) (power_of o) v)
  unfolding required_pattern_index
  mark-IsSound run v o pattern_a e r h = h
  mark-IsSound run v o pattern_b e r h = h
  mark-IsSound run v o high_fps e r h = h
  mark-IsSound run v o transitions e r h = h
  mark-IsSound run v o memory e r h = h
  mark-IsSound run v o transition_shock e r h = h
  mark-IsSound run v o dx11_game e r h = h
  mark-IsSound run v o texture e r h = inr (
    inr (IsSound-seen run v h, (o, r, e)),
    elim h [ inl (s, none_yet, p) ↦ inl none_yet | inr (s, soaked, p) ↦ soaked ],
    max-HasPower run v o h r,
  )
  mark-IsSound run v o endurance e r h = inr (
    elim h [ inl (s, none_yet, p) ↦ inl s | inr (s, soaked, p) ↦ s ],
    inr (o, r, e),
    max-HasPower run v o h r,
  )

  pub entry-IsSound :
      (run : String) (runs : Dict GateRun)
      → All (λ e. IsSound readings e.0 e.1) runs
      → IsSound readings run (unwrap_or (lookup run runs) fresh_run)
  entry-IsSound run runs h = elim (Option-cases (lookup run runs)) [
    | inl e ↦ rw e (inl (refl, refl, refl))
    | inr (v, e) ↦ rw e (lookup-All (IsSound readings) run v runs h e)
  ]

  pub gate_step-IsSound :
      (pat : Option F2QualificationPattern) (o : F2Observation) (runs : Dict GateRun)
      → pattern_of o ≡ pat
      → In o readings
      → All (λ e. IsSound readings e.0 e.1) runs
      → All (λ e. IsSound readings e.0 e.1) (gate_step pat o runs)
  gate_step-IsSound none o runs e found h = h
  gate_step-IsSound (some p) o runs e found h =
      let before = unwrap_or (lookup o.run_id runs) fresh_run in
      insert-All (IsSound readings) o.run_id
        (mark_gate p (required_pattern_index p) (power_of o) before) runs
        (mark-IsSound o.run_id before o p e (found, refl) (entry-IsSound o.run_id runs h)) h

  pub gate_loop-IsSound :
      (os : List F2Observation) (runs : Dict GateRun)
      → All (λ o. In o readings) os
      → All (λ e. IsSound readings e.0 e.1) runs
      → All (λ e. IsSound readings e.0 e.1) (gate_loop runs os)
  unfolding gate_loop
  gate_loop-IsSound [] runs inside h = h
  gate_loop-IsSound (o ∷ os) runs inside h =
      gate_loop-IsSound os (gate_step (pattern_of o) o runs) inside.1
        (gate_step-IsSound (pattern_of o) o runs refl inside.0 h)

  unseen-is_complete : (v : GateRun) → v.seen ≡ false ∷ [] → ¬ (is_complete v ≡ true)
  unseen-is_complete v s =
      subst (λ seen. ¬ ((all_seen seen && v.endurance) ≡ true)) (sym s) (λ h. cc)

  unsoaked-is_complete : (v : GateRun) → v.endurance ≡ false → ¬ (is_complete v ≡ true)
  unsoaked-is_complete v e h = both (all_seen v.seen) v.endurance e h
    where
      both : (a b : Bool) → b ≡ false → ¬ ((a && b) ≡ true)
      both a b e h = ground arith

  -- A complete run has readings of both patterns, and its power is that of a reading.
  complete-HasPower :
      (run : String) (v : GateRun)
      → IsSound readings run v
      → is_complete v ≡ true
      → HasPattern readings run texture
        × HasPattern readings run endurance
        × HasPower readings run v.power
  complete-HasPower run v (inl (s, e, p)) c = absurd (unseen-is_complete v s c)
  complete-HasPower run v (inr (inl s, e, p)) c = absurd (unseen-is_complete v s c)
  complete-HasPower run v (inr (inr (s, seen), inl e, p)) c = absurd (unsoaked-is_complete v e c)
  complete-HasPower run v (inr (inr (s, seen), inr soaked, p)) c = (seen, soaked, p)

  pub values-HasPower :
      (p : ℕ) (runs : Dict GateRun)
      → All (λ e. IsSound readings e.0 e.1) runs
      → In p (map (λ r. r.power) (filter is_complete (map (λ entry. entry.1) runs)))
      → (run : String) × HasPattern readings run texture
        × HasPattern readings run endurance
        × HasPower readings run p
  values-HasPower p [] h found = absurd found
  values-HasPower p ((run, v) ∷ runs) h found = elim (Bool-cases (is_complete v)) [
    | inr left ↦ values-HasPower p runs h.1 (subst (λ b. In p (kept b)) left found)
    | inl complete ↦
        elim (subst (λ b. In p (kept b)) complete found)
          as (λ k.
            (run : String) × HasPattern readings run texture
            × HasPattern readings run endurance
            × HasPower readings run p) [
              | inl e ↦
                  let (seen, soaked, power) = complete-HasPower run v h.0 complete in
                  (run, seen, soaked, subst (HasPower readings run) (sym e) power)
              | inr later ↦ values-HasPower p runs h.1 later
            ]
  ]
    where
      kept : Bool → List ℕ
      kept b =
          let rest = filter is_complete (map (λ entry. entry.1) runs) in
          map (λ r. r.power) (if b then v ∷ rest else rest)
