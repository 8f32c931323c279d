-- ===== src/F2/Bridge/Calibration.antt =====
-- The calibration reading and the histogram of `crates/core/src/f2_observation.rs`.
use nidavellir.Shared.{
  ℕ, ◌+◌, ◌≤◌, ◌<◌, ◌≡◌, refl, sym, ap, subst, ◌∙◌, ◌⊎◌, inl, inr, eq_iff, eq_refl, Bool, true,
  false, List, [], ◌∷◌, Option, none, some, if◌then◌else◌, arith, All, In, u32, Bool-cases,
}
use nidavellir.Shared.Extremes.{max_filter-IsGreatest}
use nidavellir.F2.Float.{total_key}
use nidavellir.F2.Observation.{F2Observation}
use nidavellir.F2.Apply.{ApplyPair, power_of}
use nidavellir.F2.Bridge.{
  is_calibration, current_discovery_observation_at_anchor, FailureKey, same_key, bump, failure_key,
  bump_if, histogram_loop, qualification_failure_histogram,
}

-- The calibration of an exact pair is the reading with the greatest p99 of those that are current, clean,
-- cool and measured; repeated readings only raise it. There is none exactly if there is no such reading.
pub calibration_lem :
    (obs : List F2Observation) (pair : ApplyPair)
    → ((current_discovery_observation_at_anchor obs pair ≡ none)
        × All (λ o. is_calibration pair o ≡ false) obs)
      ⊎ ((m : F2Observation) × (current_discovery_observation_at_anchor obs pair ≡ some m)
          × In m obs
          × (is_calibration pair m ≡ true)
          × All
              (λ o.
                (is_calibration pair o ≡ false) ⊎ (total_key (power_of o) ≤ total_key (power_of m)))
              obs)
unfolding current_discovery_observation_at_anchor
calibration_lem obs pair =
    max_filter-IsGreatest (λ o. total_key (power_of o)) (is_calibration pair) obs

-- The count under a key.
abbrev pub count_of : FailureKey → List (FailureKey × ℕ) → ℕ
count_of k [] = 0
count_of k (e ∷ es) = if same_key e.0 k then e.1 else count_of k es

abbrev has_key : FailureKey → Option FailureKey → Bool
has_key k none = false
has_key k (some l) = same_key l k

-- How many observations failed under a key.
abbrev pub occurrences : FailureKey → List F2Observation → ℕ
occurrences k [] = 0
occurrences k (o ∷ os) =
    if has_key k (failure_key o) then occurrences k os + 1 else occurrences k os

same_key-eq : (k l : FailureKey) → same_key k l ≡ true → k ≡ l
same_key-eq k l h =
    let target : k.target_mhz ≡ l.target_mhz = ground arith in
    let mv : k.anchor_mv ≡ l.anchor_mv = ground arith in
    let pat = (eq_iff k.pattern_text l.pattern_text).0 (ground arith) in
    let phase = (eq_iff k.phase l.phase).0 (ground arith) in
    λ i. record { target_mhz = target i; anchor_mv = mv i; pattern_text = pat i; phase = phase i }

same_key_refl : (k : FailureKey) → same_key k k ≡ true
same_key_refl k = ground (arith, eq_refl k.pattern_text, eq_refl k.phase)

same_key-other :
    (e l k : FailureKey) → same_key e l ≡ false → same_key e k ≡ true → same_key l k ≡ false
same_key-other e l k h i = elim (Bool-cases (same_key l k)) [
  | inr j ↦ j
  | inl j ↦
      let at : same_key e l ≡ true =
        subst (λ x. same_key x l ≡ true) (same_key-eq l k j ∙ sym (same_key-eq e k i))
          (same_key_refl l) in
      cc
]

count_of-bump :
    (k l : FailureKey) (es : List (FailureKey × ℕ))
    → count_of k (bump l es) ≡ (if same_key l k then u32 (count_of k es + 1) else count_of k es)
count_of-bump k l [] = elim (Bool-cases (same_key l k)) [ inl h ↦ rw h refl | inr h ↦ rw h refl ]
count_of-bump k l (e ∷ es) = elim (Bool-cases (same_key e.0 l)) [
  | inl h ↦
      let at : same_key e.0 k ≡ same_key l k = ap (λ x. same_key x k) (same_key-eq e.0 l h) in
      elim (Bool-cases (same_key l k)) [
        | inl i ↦ rw (h, at ∙ i, i) refl
        | inr i ↦ rw (h, at ∙ i, i) refl
      ]
  | inr h ↦ elim (Bool-cases (same_key e.0 k)) [
    | inl i ↦ rw (h, i, same_key-other e.0 l k h i) refl
    | inr i ↦ rw (h, i) (count_of-bump k l es)
  ]
]

count_of-bump_if :
    (k : FailureKey) (key : Option FailureKey) (es : List (FailureKey × ℕ)) (n : ℕ)
    → count_of k es < 4294967296
    → (count_of k (bump_if key es) < 4294967296)
      × (u32 (count_of k (bump_if key es) + n)
          ≡ u32 (count_of k es + (if has_key k key then n + 1 else n)))
count_of-bump_if k none es n small = (small, refl)
count_of-bump_if k (some l) es n small = elim (Bool-cases (same_key l k)) [
  | inl h ↦ rw (count_of-bump k l es, h) (omega arith, omega arith)
  | inr h ↦ rw (count_of-bump k l es, h) (small, refl)
]

histogram_loop-count :
    (k : FailureKey) (es : List (FailureKey × ℕ)) (obs : List F2Observation)
    → count_of k es < 4294967296
    → count_of k (histogram_loop es obs) ≡ u32 (count_of k es + occurrences k obs)
unfolding histogram_loop
histogram_loop-count k es [] small = omega (arith, small)
histogram_loop-count k es (o ∷ obs) small =
    let (still, same) = count_of-bump_if k (failure_key o) es (occurrences k obs) small in
    histogram_loop-count k (bump_if (failure_key o) es) obs still
    ∙ same
    ∙ elim (Bool-cases (has_key k (failure_key o))) [ inl h ↦ rw h refl | inr h ↦ rw h refl ]

-- The histogram counts: under each target, voltage, pattern and phase stands the number of the
-- observations that failed there, modulo 2^32, whatever their order.
pub histogram_lem :
    (obs : List F2Observation) (k : FailureKey)
    → count_of k (qualification_failure_histogram obs) ≡ u32 (occurrences k obs)
unfolding qualification_failure_histogram
histogram_lem obs k = histogram_loop-count k [] obs (omega arith) ∙ omega arith
