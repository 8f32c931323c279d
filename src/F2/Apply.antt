-- ===== src/F2/Apply.antt =====
-- The gate in front of Apply, the functions on the exact Apply pair of
-- `crates/core/src/f2_observation.rs`. A `BTreeMap` of runs is a dictionary; only the greatest of its
-- values is asked for, so that its order does not matter. Floats are bits.
pub mod Magnitude
pub mod Runs
pub mod Gate
pub mod Worst
pub mod Clock
pub mod Marks
pub mod Liveness
use nidavellir.Shared.{
  ℕ, zero, suc, ◌+◌, ◌==◌, ltb, leb, max, String, str_eq, Bool, true, false, not, ◌&&◌, List, [],
  ◌∷◌, ◌++◌, map, Option, none, some, if◌then◌else◌, unwrap_or, any, all, filter,
}
use nidavellir.Shared.Dict.{Dict, lookup, insert}
use nidavellir.Shared.Extremes.{max_by_key}
use nidavellir.SafeLoop.Record.{opt_eq}
use nidavellir.F2.Float.{is_finite, is_positive, total_key, max_f32, u32_as_f32}
use nidavellir.F2.Kinds.{F2QualificationPattern, endurance, eq_pattern}
use nidavellir.F2.Observation.{F2Observation}
use nidavellir.F2.Evidence.{
  is_some_and, required_qualification_patterns, required_pattern_index, pattern_of,
  is_current_apply_qualification_pass, is_current_apply_qualification_evidence,
}
use nidavellir.F2.Frontier.{is_none_or}

abbrev pub apply_clock_hold_tol_mhz : ℕ
apply_clock_hold_tol_mhz = 0

abbrev pub apply_qual_reading_trustworthy : F2Observation → ℕ → Bool
apply_qual_reading_trustworthy o target =
    if not o.thermal_throttled
    then true
    else is_some_and o.sustained_clock_mhz (λ held. leb target (held + apply_clock_hold_tol_mhz))

-- The exact pair that a question is about.
pub record ApplyPair : Type 0 where
  pub target_mhz : ℕ
  pub anchor_mv : ℕ
  pub gpu_key : String

abbrev pub is_at : ApplyPair → F2Observation → Bool
is_at pair o =
    o.target_mhz == pair.target_mhz
    && o.anchor_mv == pair.anchor_mv
    && opt_eq o.gpu_key (some pair.gpu_key)

abbrev pub is_of_run : Option String → F2Observation → Bool
is_of_run run o = is_none_or run (λ expected. str_eq o.run_id expected)

abbrev pub is_power : ℕ → Bool
is_power bits = is_finite bits && is_positive bits

abbrev is_clean_reading : ApplyPair → F2Observation → Bool
is_clean_reading pair o =
    o.reset_to_stock_ok
    && o.boot_flag_cleared
    && apply_qual_reading_trustworthy o pair.target_mhz
    && is_some_and o.power_p99_w is_power

-- The filter of `apply_qualification_p99_at_anchor`.
abbrev pub is_required_reading : Option String → ApplyPair → F2Observation → Bool
is_required_reading run pair o =
    is_of_run run o
    && is_at pair o
    && is_current_apply_qualification_pass o
    && is_clean_reading pair o

-- The filter of `complete_apply_gate_p99_at_anchor`.
abbrev pub is_gate_reading : Option String → ApplyPair → F2Observation → Bool
is_gate_reading run pair o =
    is_of_run run o
    && is_at pair o
    && is_current_apply_qualification_evidence o
    && is_clean_reading pair o

-- `entry.0[index] = true`
abbrev pub set_at : ℕ → List Bool → List Bool
set_at i [] = []
set_at zero (b ∷ bs) = true ∷ bs
set_at (suc i) (b ∷ bs) = b ∷ set_at i bs

abbrev pub none_seen : List Bool
none_seen = map (λ p. false) required_qualification_patterns

abbrev pub all_seen : List Bool → Bool
all_seen seen = all (λ b. b) seen

abbrev pub index_of : Option F2QualificationPattern → Option ℕ
index_of none = none
index_of (some p) = required_pattern_index p

abbrev pub power_of : F2Observation → ℕ
power_of o = unwrap_or o.power_p99_w 0

-- The tuple that the loop keeps for each run.
pub record RequiredRun : Type 0 where
  pub seen : List Bool
  pub power : ℕ

abbrev mark_required : Option ℕ → ℕ → RequiredRun → RequiredRun
mark_required none watts entry = entry
mark_required (some i) watts entry = record {
  seen = set_at i entry.seen;
  power = max_f32 entry.power watts;
}

unfoldable pub required_loop : Dict RequiredRun → List F2Observation → Dict RequiredRun
required_loop runs [] = runs
required_loop runs (o ∷ os) =
    let entry = unwrap_or (lookup o.run_id runs) (record { seen = none_seen; power = 0 }) in
    required_loop
      (insert o.run_id (mark_required (index_of (pattern_of o)) (power_of o) entry) runs) os

unfoldable pub apply_qualification_p99_at_anchor :
    List F2Observation → Option String → ApplyPair → Option ℕ
unfolding required_loop
apply_qualification_p99_at_anchor obs run pair =
    let runs = required_loop [] (filter (is_required_reading run pair) obs) in
    max_by_key total_key
      (map (λ r. r.power) (filter (λ r. all_seen r.seen) (map (λ entry. entry.1) runs)))

pub record GateRun : Type 0 where
  pub seen : List Bool
  pub endurance : Bool
  pub power : ℕ

abbrev pub fresh_run : GateRun
fresh_run = record { seen = none_seen; endurance = false; power = 0 }

-- What an observation of a pattern adds to its run.
abbrev pub mark_gate : F2QualificationPattern → Option ℕ → ℕ → GateRun → GateRun
mark_gate p (some i) watts entry = record entry {
  seen = set_at i entry.seen;
  power = max_f32 entry.power watts;
}
mark_gate p none watts entry =
    if eq_pattern p F2QualificationPattern.endurance
    then record entry { endurance = true; power = max_f32 entry.power watts }
    else entry

abbrev pub gate_step : Option F2QualificationPattern → F2Observation → Dict GateRun → Dict GateRun
gate_step none o runs = runs
gate_step (some p) o runs =
    insert o.run_id
      (mark_gate p (required_pattern_index p) (power_of o)
        (unwrap_or (lookup o.run_id runs) fresh_run))
      runs

unfoldable pub gate_loop : Dict GateRun → List F2Observation → Dict GateRun
gate_loop runs [] = runs
gate_loop runs (o ∷ os) = gate_loop (gate_step (pattern_of o) o runs) os

abbrev pub is_complete : GateRun → Bool
is_complete r = all_seen r.seen && r.endurance

abbrev pub current_apply_qualification_p99_at_anchor :
    List F2Observation → String → ApplyPair → Option ℕ
current_apply_qualification_p99_at_anchor obs run pair =
    apply_qualification_p99_at_anchor obs (some run) pair

abbrev pub highest_apply_qualification_p99_at_anchor : List F2Observation → ApplyPair → Option ℕ
highest_apply_qualification_p99_at_anchor obs pair = apply_qualification_p99_at_anchor obs none pair

unfoldable pub complete_apply_gate_p99_at_anchor :
    List F2Observation → Option String → ApplyPair → Option ℕ
complete_apply_gate_p99_at_anchor obs run pair =
    let runs = gate_loop [] (filter (is_gate_reading run pair) obs) in
    max_by_key total_key (map (λ r. r.power) (filter is_complete (map (λ entry. entry.1) runs)))

abbrev pub current_complete_apply_gate_p99_at_anchor :
    List F2Observation → String → ApplyPair → Option ℕ
current_complete_apply_gate_p99_at_anchor obs run pair =
    complete_apply_gate_p99_at_anchor obs (some run) pair

abbrev pub highest_complete_apply_gate_p99_at_anchor : List F2Observation → ApplyPair → Option ℕ
highest_complete_apply_gate_p99_at_anchor obs pair = complete_apply_gate_p99_at_anchor obs none pair

-- The filter of `current_apply_qualification_p95_clock_at_anchor`.
abbrev pub is_clock_reading : String → ApplyPair → F2Observation → Bool
is_clock_reading run pair o =
    str_eq o.run_id run
    && is_at pair o
    && is_current_apply_qualification_pass o
    && o.reset_to_stock_ok
    && o.boot_flag_cleared
    && apply_qual_reading_trustworthy o pair.target_mhz

abbrev pub mark_seen : Option ℕ → List Bool → List Bool
mark_seen none seen = seen
mark_seen (some i) seen = set_at i seen

abbrev pub raised_clock : Option ℕ → ℕ → ℕ → ℕ
raised_clock none clock highest = highest
raised_clock (some i) clock highest = max highest clock

abbrev pub positive_clock : Option ℕ → Option ℕ
positive_clock none = none
positive_clock (some clock) = if ltb 0 clock then some clock else none

-- A reading without a clock ends the loop.
unfoldable pub clock_loop : List Bool → ℕ → List F2Observation → Option ℕ
clock_loop seen highest [] = if all_seen seen && ltb 0 highest then some highest else none
clock_loop seen highest (o ∷ os) = elim (positive_clock o.sustained_upper_clock_mhz) [
  | none ↦ none
  | some clock ↦
      let index = index_of (pattern_of o) in
      clock_loop (mark_seen index seen) (raised_clock index clock highest) os
]

unfoldable pub current_apply_qualification_p95_clock_at_anchor :
    List F2Observation → String → ApplyPair → Option ℕ
unfolding clock_loop
current_apply_qualification_p95_clock_at_anchor obs run pair =
    clock_loop none_seen 0 (filter (is_clock_reading run pair) obs)

-- The filter that the endurance test and the worst power share.
abbrev pub is_evidence_of_run : String → ApplyPair → F2Observation → Bool
is_evidence_of_run run pair o =
    str_eq o.run_id run && is_at pair o && is_current_apply_qualification_evidence o

unfoldable pub point_has_current_endurance_qualification :
    List F2Observation → String → ApplyPair → Bool
point_has_current_endurance_qualification obs run pair =
    all
      (λ required.
        any
          (λ o.
            is_evidence_of_run run pair o
            && is_some_and (pattern_of o) (λ p. eq_pattern p required))
          obs)
      (F2QualificationPattern.endurance ∷ [])

-- `into_iter()` of an option, through `f`.
abbrev pub listed : (ℕ → ℕ) → Option ℕ → List ℕ
listed f none = []
listed f (some n) = f n ∷ []

abbrev pub powers : List F2Observation → List ℕ
powers [] = []
powers (o ∷ os) = (listed (λ p. p) o.power_p99_w ++ listed u32_as_f32 o.max_watts) ++ powers os

unfoldable pub worst_current_apply_qualification_power_at_anchor :
    List F2Observation → String → ApplyPair → Option ℕ
worst_current_apply_qualification_power_at_anchor obs run pair =
    max_by_key total_key (filter is_power (powers (filter (is_evidence_of_run run pair) obs)))
