-- ===== src/F2/Apply/Clock.antt =====
-- The highest clock of an Apply pair, `current_apply_qualification_p95_clock_at_anchor` of
-- `crates/core/src/f2_observation.rs`.
use nidavellir.Shared.{
  ℕ, ◌≤◌, ◌<◌, ◌≡◌, refl, sym, ◌∙◌, subst, ◌⊎◌, inl, inr, ltb, max, String, Bool, true, false, ◌&&◌,
  List, [], ◌∷◌, Option, none, some, arith, All, filter, if◌then◌else◌, str_eq, is_some,
  Option-cases, Bool-cases, none-some, some-some,
}
use nidavellir.Shared.Extremes.{All-filter}
use nidavellir.F2.Kinds.{F2QualificationPattern}
use nidavellir.F2.Observation.{F2Observation}
use nidavellir.F2.Evidence.{
  is_some_and, pattern_of, required_pattern_index, is_required_qualification_pattern,
  is_current_apply_qualification_pass, is_current_apply_qualification_evidence,
}
use nidavellir.F2.Apply.{
  ApplyPair, is_at, apply_qual_reading_trustworthy, index_of, none_seen, all_seen, mark_seen,
  positive_clock, is_clock_reading, clock_loop, current_apply_qualification_p95_clock_at_anchor,
}

-- The reading has a clock above 0, and this is no less.
abbrev pub HasClock : ℕ → F2Observation → Type 0
HasClock c o = (k : ℕ) × (o.sustained_upper_clock_mhz ≡ some k) × (0 < k) × (k ≤ c)

-- The pattern of the observation is one that is required.
abbrev IsRequired : F2Observation → Type 0
IsRequired o = (i : ℕ) × (index_of (pattern_of o) ≡ some i)

positive-cases :
    (clock : Option ℕ)
    → (positive_clock clock ≡ none)
      ⊎ ((k : ℕ) × (positive_clock clock ≡ some k) × (clock ≡ some k) × (0 < k))
positive-cases none = inl refl
positive-cases (some k) = elim (Bool-cases (ltb 0 k)) [
  | inl e ↦ inr (k, rw e refl, refl, ground arith)
  | inr e ↦ inl (rw e refl)
]

last_clock :
    (seen : List Bool) (h c : ℕ)
    → (if all_seen seen && ltb 0 h then some h else none) ≡ some c
    → h ≤ c
last_clock seen h c e = elim (Bool-cases (all_seen seen && ltb 0 h)) [
  | inl k ↦
      let same : h ≡ c = some-some h c (subst (λ b. (if b then some h else none) ≡ some c) k e) in
      omega (arith, same)
  | inr k ↦ absurd (none-some c (subst (λ b. (if b then some h else none) ≡ some c) k e))
]

clock_loop-none :
    (seen : List Bool) (h : ℕ) (o : F2Observation) (os : List F2Observation)
    → positive_clock o.sustained_upper_clock_mhz ≡ none
    → clock_loop seen h (o ∷ os) ≡ none
unfolding clock_loop
clock_loop-none seen h o os e = rw (clock_loop, e) refl

clock_loop-some :
    (seen : List Bool) (h : ℕ) (o : F2Observation) (os : List F2Observation) (k i : ℕ)
    → positive_clock o.sustained_upper_clock_mhz ≡ some k
    → index_of (pattern_of o) ≡ some i
    → clock_loop seen h (o ∷ os) ≡ clock_loop (mark_seen (some i) seen) (max h k) os
unfolding clock_loop
clock_loop-some seen h o os k i e f = rw (clock_loop, e, f) refl

clock_loop-HasClock :
    (seen : List Bool) (h c : ℕ) (os : List F2Observation)
    → All IsRequired os
    → clock_loop seen h os ≡ some c
    → (h ≤ c) × All (HasClock c) os
unfolding clock_loop
clock_loop-HasClock seen h c [] required e = (last_clock seen h c e, tt)
clock_loop-HasClock seen h c (o ∷ os) required e =
    let (i, index) = required.0 in
    elim (positive-cases o.sustained_upper_clock_mhz) [
      | inl nothing ↦ absurd (none-some c (sym (clock_loop-none seen h o os nothing) ∙ e))
      | inr (k, found, clock, above) ↦
          let next : clock_loop (mark_seen (some i) seen) (max h k) os ≡ some c =
            sym (clock_loop-some seen h o os k i found index) ∙ e in
          let (le, rest) =
            clock_loop-HasClock (mark_seen (some i) seen) (max h k) c os required.1 next in
          (omega (arith, le), ((k, clock, above, omega (arith, le)), rest))
    ]

pass-IsRequired : (o : F2Observation) → is_current_apply_qualification_pass o ≡ true → IsRequired o
unfolding is_current_apply_qualification_pass is_required_qualification_pattern
pass-IsRequired o h = from_pattern (pattern_of o) (
    second (is_current_apply_qualification_evidence o)
      (is_some_and (pattern_of o) is_required_qualification_pattern) h)
  where
    second : (a b : Bool) → (a && b) ≡ true → b ≡ true
    second a b h = ground arith

    from_pattern :
        (p : Option F2QualificationPattern)
        → is_some_and p is_required_qualification_pattern ≡ true
        → (i : ℕ) × (index_of p ≡ some i)
    from_pattern none h = cc
    from_pattern (some p) h = elim (Option-cases (required_pattern_index p)) [
      | inr found ↦ found
      | inl nothing ↦ absurd (not_some (required_pattern_index p) nothing h)
    ]
      where
        not_some : (o : Option ℕ) → o ≡ none → ¬ (is_some o ≡ true)
        not_some o e h = let shut : is_some o ≡ false = rw e refl in cc

reading-IsRequired :
    (run : String) (pair : ApplyPair) (o : F2Observation)
    → is_clock_reading run pair o ≡ true
    → IsRequired o
reading-IsRequired run pair o h = pass-IsRequired o (
    third (str_eq o.run_id run) (is_at pair o) (is_current_apply_qualification_pass o)
      o.reset_to_stock_ok o.boot_flag_cleared (apply_qual_reading_trustworthy o pair.target_mhz) h)
  where
    third : (a b c d e f : Bool) → (a && b && c && d && e && f) ≡ true → c ≡ true
    third a b c d e f h = ground arith

filter-IsRequired :
    (run : String) (pair : ApplyPair) (obs : List F2Observation)
    → All IsRequired (filter (is_clock_reading run pair) obs)
filter-IsRequired run pair [] = tt
filter-IsRequired run pair (o ∷ obs) = elim (Bool-cases (is_clock_reading run pair o)) [
  | inl e ↦ rw e (reading-IsRequired run pair o e, filter-IsRequired run pair obs)
  | inr e ↦ rw e (filter-IsRequired run pair obs)
]

-- The clock fails closed: if one is given for an Apply pair, every reading of the run at that pair, each a
-- current clean pass, has a clock above 0 of its own, and none exceeds the given one.
pub p95_clock_lem :
    (obs : List F2Observation) (run : String) (pair : ApplyPair) (c : ℕ)
    → current_apply_qualification_p95_clock_at_anchor obs run pair ≡ some c
    → All (λ o. (is_clock_reading run pair o ≡ false) ⊎ HasClock c o) obs
unfolding current_apply_qualification_p95_clock_at_anchor
p95_clock_lem obs run pair c h =
    let (le, clocks) =
      clock_loop-HasClock none_seen 0 c (filter (is_clock_reading run pair) obs)
        (filter-IsRequired run pair obs) h in
    All-filter (HasClock c) (is_clock_reading run pair) obs clocks
