-- ===== src/F2/Frontier/Bracket.antt =====
-- The voltage bracket of a target, `bracket_for_target` of `crates/core/src/f2_observation.rs`.
use nidavellir.Shared.{
  ℕ, ◌+◌, ◌-◌, ◌≤◌, ◌<◌, ◌≡◌, refl, ◌↔◌, ◌⊎◌, inl, inr, ◌==◌, ltb, Bool, true, false, ◌&&◌, List,
  none, some, arith, All, All-In, All-weaken, In,
}
use nidavellir.Shared.Extremes.{min_filter-IsLeast}
use nidavellir.F2.Kinds.{is_validated}
use nidavellir.F2.Observation.{F2Observation, VoltageBracket}
use nidavellir.F2.Frontier.{
  voltage_of, anchor_of, is_failure, first_bad_for_target, is_above, is_good, last_good_for_target,
  bracket_of, bracket_for_target,
}
use nidavellir.F2.Frontier.Memory.{first_bad-cases}
use nidavellir.F2.Frontier.Candidate.{IsAboveFailures, is_above_iff}

-- The observation validated the target, under whatever contract, above every failure.
abbrev pub IsGood : List F2Observation → ℕ → F2Observation → Type 0
IsGood obs target o =
    (o.target_mhz ≡ target)
    × (is_validated o.outcome ≡ true)
    × IsAboveFailures obs target o.anchor_mv

is_good_iff :
    (obs : List F2Observation) (target : ℕ) (o : F2Observation)
    → (is_good target (anchor_of (first_bad_for_target obs target)) o ≡ true) ↔ IsGood obs target o
is_good_iff obs target o =
    joined o.target_mhz target (is_validated o.outcome)
      (is_above (anchor_of (first_bad_for_target obs target)) o) (is_above_iff obs target o)
  where
    joined :
        {P : Type 0} (t target : ℕ) (v above : Bool)
        → (above ≡ true) ↔ P
        → ((t == target && v && above) ≡ true) ↔ ((t ≡ target) × (v ≡ true) × P)
    joined t target v above f = (
      λ h. (ground arith, ground arith, f.0 (ground arith)),
      λ (e, validates, p). ground (arith, f.1 p),
    )

-- The last good point is the validated one at the lowest voltage above every failure.
pub last_good_for_target_cases :
    (obs : List F2Observation) (target : ℕ)
    → ((last_good_for_target obs target ≡ none) × All (λ o. ¬ IsGood obs target o) obs)
      ⊎ ((g : F2Observation) × (last_good_for_target obs target ≡ some g)
          × In g obs
          × IsGood obs target g
          × All (λ o. (¬ IsGood obs target o) ⊎ (g.anchor_mv ≤ o.anchor_mv)) obs)
unfolding last_good_for_target
last_good_for_target_cases obs target =
    let test = is_good target (anchor_of (first_bad_for_target obs target)) in
    elim (min_filter-IsLeast voltage_of test obs) [
      | inl (e, nothing) ↦ inl (
        e,
        All-weaken (λ o. test o ≡ false) (λ o. ¬ IsGood obs target o) obs (λ o k. refused o k)
            nothing,
      )
      | inr (g, e, found, passes, least) ↦ inr (
        g,
        e,
        found,
        (is_good_iff obs target g).0 passes,
        All-weaken (λ o. (test o ≡ false) ⊎ (g.anchor_mv ≤ o.anchor_mv))
            (λ o. (¬ IsGood obs target o) ⊎ (g.anchor_mv ≤ o.anchor_mv)) obs
            (λ o k. elim k [ inl left ↦ inl (refused o left) | inr le ↦ inr le ]) least,
      )
    ]
  where
    refused :
        (o : F2Observation)
        → is_good target (anchor_of (first_bad_for_target obs target)) o ≡ false
        → ¬ IsGood obs target o
    refused o k c = let passes = (is_good_iff obs target o).1 c in cc

-- The two ends, each one observed, and what they enclose.
abbrev pub IsBracket : List F2Observation → ℕ → VoltageBracket → Type 0
IsBracket obs target b =
    (b.first_bad_mv < b.last_good_mv)
    × (b.first_bad_mv + b.width_mv ≡ b.last_good_mv)
    × All (λ o. (is_failure target o ≡ false) ⊎ (o.anchor_mv ≤ b.first_bad_mv)) obs
    × All (λ o. (¬ IsGood obs target o) ⊎ (b.last_good_mv ≤ o.anchor_mv)) obs
    × ((f : F2Observation) × In f obs
        × (is_failure target f ≡ true)
        × (f.anchor_mv ≡ b.first_bad_mv))
    × ((g : F2Observation) × In g obs × IsGood obs target g × (g.anchor_mv ≡ b.last_good_mv))

bracket_of-some :
    (good bad : ℕ)
    → bad < good
    → bracket_of (some good) (some bad)
      ≡ some (record { first_bad_mv = bad; last_good_mv = good; width_mv = good - bad })
bracket_of-some good bad h = rw (lt_ltb good bad h)
  where
    lt_ltb : (good bad : ℕ) → bad < good → ltb bad good ≡ true
    lt_ltb good bad h = ground arith

-- A bracket is claimed exactly when the target has a failure and a validated point above all its
-- failures. Then its ends are the voltages of such a failure and of such a point, no failure lies above its lower end and no such validated point below its upper end,
-- the lower end is below the upper one, and the width is their difference.
pub bracket_lem :
    (obs : List F2Observation) (target : ℕ)
    → ((bracket_for_target obs target ≡ none)
        × (All (λ o. is_failure target o ≡ false) obs ⊎ All (λ o. ¬ IsGood obs target o) obs))
      ⊎ ((b : VoltageBracket) × (bracket_for_target obs target ≡ some b) × IsBracket obs target b)
unfolding bracket_for_target
bracket_lem obs target = elim (last_good_for_target_cases obs target) [
  | inl (e, nothing) ↦ inl (rw e, inr nothing)
  | inr (g, e, found, (t, v, above), least) ↦ elim (first_bad-cases obs target) [
    | inl (f, clean) ↦ inl (rw (e, f), inl clean)
    | inr (b, f, there, failed, greatest) ↦ elim (All-In (Below g.anchor_mv) obs b above there) [
      | inl clean ↦ cc
      | inr low ↦ inr (
        record {
          first_bad_mv = b.anchor_mv;
          last_good_mv = g.anchor_mv;
          width_mv = g.anchor_mv - b.anchor_mv;
        },
        rw (e, f) (bracket_of-some g.anchor_mv b.anchor_mv low),
        (
          low,
          omega (arith, low),
          greatest,
          least,
          (b, there, failed, refl),
          (g, found, (t, v, above), refl),
        ),
      )
    ]
  ]
]
  where
    Below : ℕ → F2Observation → Type 0
    Below mv b = (is_failure target b ≡ false) ⊎ (b.anchor_mv < mv)
