-- ===== src/Sweep/Bisection/Invariant.antt =====
-- The state of a search between two steps, `crates/core/src/gpu_sweep.rs`.
use nidavellir.Shared.{
  ℕ, ◌+◌, ◌-◌, ◌≤◌, ◌<◌, ◌≡◌, ◌↔◌, inl, inr, true, Option, none, some, arith, Option-cases, u32_max,
}
use nidavellir.Sweep.Stability.{StabilityResult}
use nidavellir.Sweep.Bisection.{
  VoltageBisection, new_bisection, next_test, record_result, is_converged,
}

-- A voltage proven unstable lies below the one proven stable, and not below the hard floor.
abbrev pub IsBracket : ℕ → ℕ → Option ℕ → Type 0
IsBracket floor good none = Unit
IsBracket floor good (some u) = (floor ≤ u) × (u < good)

-- What is under test lies strictly inside the bracket.
abbrev pub IsInside : ℕ → ℕ → Option ℕ → Option ℕ → Type 0
IsInside floor good u none = Unit
IsInside floor good none (some c) = (floor ≤ c) × (c < good)
IsInside floor good (some u) (some c) = (u < c) × (c < good)

pub record IsValid (b : VoltageBisection) : Type 0 where
  pub above_floor : b.floor_mv ≤ b.stable_mv
  pub fits : b.stable_mv ≤ u32_max
  pub steps : (0 < b.descent_step_mv) × (0 < b.min_step_mv)
  pub bracket : IsBracket b.floor_mv b.stable_mv b.unstable_mv
  pub inside : IsInside b.floor_mv b.stable_mv b.unstable_mv b.current_mv

pub new_bisection-IsValid :
    (freq stock floor descent_step min_step : ℕ)
    → floor ≤ stock
    → stock ≤ u32_max
    → IsValid (new_bisection freq stock floor descent_step min_step)
unfolding new_bisection
new_bisection-IsValid freq stock floor descent_step min_step h k = ground arith

pub next_test-IsValid : (b : VoltageBisection) → IsValid b → IsValid (next_test b).0
unfolding next_test
next_test-IsValid b v = elim (Option-cases b.unstable_mv) [
  | inl no_cliff ↦ ground arith
  | inr (u, bracketed) ↦ ground arith
]

pub record_result-IsValid :
    (b : VoltageBisection) (result : StabilityResult) → IsValid b → IsValid (record_result b result)
unfolding record_result
record_result-IsValid b result v = ground arith

-- The search asks for no test exactly when it reports that it has converged, and the look at the
-- convergence changes nothing that the search has learned.
pub next_test-is_converged :
    (b : VoltageBisection) → ((next_test b).1 ≡ none) ↔ (is_converged b ≡ true)
unfolding next_test is_converged
next_test-is_converged b = elim (Option-cases b.unstable_mv) [
  | inl no_cliff ↦ (λ h. ground arith, λ h. ground arith)
  | inr (u, bracketed) ↦ (λ h. ground arith, λ h. ground arith)
]

-- What is left of the bracket, and one more while no unstable voltage is known.
abbrev pub gap : ℕ → ℕ → Option ℕ → ℕ
gap floor good none = good - floor + 1
gap floor good (some u) = good - u

abbrev pub measure : VoltageBisection → ℕ
measure b = gap b.floor_mv b.stable_mv b.unstable_mv

-- Every test narrows the bracket.
pub measure-step :
    (b : VoltageBisection) (mv : ℕ) (result : StabilityResult)
    → IsValid b
    → (next_test b).1 ≡ some mv
    → measure (record_result (next_test b).0 result) < measure b
unfolding next_test record_result
measure-step b mv result v h = elim (Option-cases b.unstable_mv) [
  | inl no_cliff ↦ ground arith
  | inr (u, bracketed) ↦ ground arith
]
