-- ===== src/F2/Frontier/Memory.antt =====
-- What the journal remembers of failures and crashes: `first_bad_for_target`, `is_known_bad` and
-- `crash_floor_for_target` of `crates/core/src/f2_observation.rs`.
use nidavellir.Shared.{
  ℕ, ◌≤◌, ◌<◌, ◌≡◌, refl, ◌∙◌, ◌⊎◌, inl, inr, leb, le→leb, Bool, true, false, ◌&&◌, List, [], ◌∷◌,
  ◌++◌, Option, none, some, arith, All, In, any, any-In, any-append, Bool-cases,
}
use nidavellir.Shared.Extremes.{max_filter-IsGreatest}
use nidavellir.F2.Observation.{F2Observation}
use nidavellir.F2.Frontier.{voltage_of, anchor_of, is_failure, first_bad_for_target, is_known_bad}

-- `limit.is_some_and(|limit| mv <= limit)`
abbrev pub is_at_or_below : ℕ → Option ℕ → Bool
is_at_or_below mv none = false
is_at_or_below mv (some limit) = leb mv limit

-- The first bad voltage is that of a failure, and no failure of the target is at a higher one.
pub first_bad-cases :
    (obs : List F2Observation) (target : ℕ)
    → ((first_bad_for_target obs target ≡ none) × All (λ o. is_failure target o ≡ false) obs)
      ⊎ ((b : F2Observation) × (first_bad_for_target obs target ≡ some b)
          × In b obs
          × (is_failure target b ≡ true)
          × All (λ o. (is_failure target o ≡ false) ⊎ (o.anchor_mv ≤ b.anchor_mv)) obs)
unfolding first_bad_for_target
first_bad-cases obs target = max_filter-IsGreatest voltage_of (is_failure target) obs

leb-false : (bad mv : ℕ) → leb mv bad ≡ false → bad < mv
leb-false bad mv h = ground arith

module _ (f : F2Observation → Bool) where
  abbrev reaches : ℕ → F2Observation → Bool
  reaches mv o = f o && leb mv o.anchor_mv

  none_reaches :
      (mv : ℕ) (obs : List F2Observation)
      → All (λ o. f o ≡ false) obs
      → any (reaches mv) obs ≡ false
  none_reaches mv [] h = refl
  none_reaches mv (o ∷ os) h = ground (arith, h.0, none_reaches mv os h.1)

  none_above :
      (mv bad : ℕ) (obs : List F2Observation)
      → All (λ o. (f o ≡ false) ⊎ (o.anchor_mv ≤ bad)) obs
      → bad < mv
      → any (reaches mv) obs ≡ false
  none_above mv bad [] h k = refl
  none_above mv bad (o ∷ os) h k = ground (arith, h.0, none_above mv bad os h.1 k)

  below_none :
      (mv : ℕ) (obs : List F2Observation)
      → All (λ o. (f o ≡ false) ⊎ (o.anchor_mv < mv)) obs
      → any (reaches mv) obs ≡ false
  below_none mv [] h = refl
  below_none mv (o ∷ os) h = ground (arith, h.0, below_none mv os h.1)

-- A voltage is known bad exactly when it is at or below the first bad one: the search through the whole
-- journal and the single remembered voltage agree.
pub is_known_bad_iff :
    (obs : List F2Observation) (target mv : ℕ)
    → is_known_bad obs target mv ≡ is_at_or_below mv (anchor_of (first_bad_for_target obs target))
unfolding is_known_bad
is_known_bad_iff obs target mv = elim (first_bad-cases obs target) [
  | inl (e, clean) ↦ none_reaches (is_failure target) mv obs clean ∙ rw e
  | inr (b, e, found, failed, greatest) ↦ elim (Bool-cases (leb mv b.anchor_mv)) [
    | inl low ↦ any-In (reaches (is_failure target) mv) b obs found (rw (failed, low)) ∙ rw (e, low)
    | inr high ↦
        none_above (is_failure target) mv b.anchor_mv obs greatest (leb-false b.anchor_mv mv high)
        ∙ rw (e, high)
  ]
]

-- A failure stays known whatever is written behind it, and so does what lies below it.
pub is_known_bad-append :
    (obs later : List F2Observation) (target mv : ℕ)
    → is_known_bad obs target mv ≡ true
    → is_known_bad (obs ++ later) target mv ≡ true
unfolding is_known_bad
is_known_bad-append obs later target mv h =
    any-append (reaches (is_failure target) mv) obs later ∙ rw h

-- A voltage above every failure is not known bad.
pub above-is_known_bad :
    (obs : List F2Observation) (target mv : ℕ)
    → All (λ o. (is_failure target o ≡ false) ⊎ (o.anchor_mv < mv)) obs
    → is_known_bad obs target mv ≡ false
unfolding is_known_bad
above-is_known_bad obs target mv h = below_none (is_failure target) mv obs h

pub failure-is_known_bad :
    (obs : List F2Observation) (target mv : ℕ) (o : F2Observation)
    → In o obs
    → is_failure target o ≡ true
    → mv ≤ o.anchor_mv
    → is_known_bad obs target mv ≡ true
unfolding is_known_bad
failure-is_known_bad obs target mv o found failed le =
    any-In (reaches (is_failure target) mv) o obs found (rw (failed, le→leb mv o.anchor_mv le) refl)
