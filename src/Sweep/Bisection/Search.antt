-- ===== src/Sweep/Bisection/Search.antt =====
-- The whole search for the minimum stable voltage, `VoltageBisection` of
-- `crates/core/src/gpu_sweep.rs` driven by any verdicts.
use nidavellir.Shared.{
  ℕ, zero, suc, ◌+◌, ◌-◌, ◌≤◌, ◌<◌, ◌≡◌, refl, ◌⊎◌, inl, inr, max, true, false, Option, none, some,
  arith, Bool-cases, Option-cases, u32_max,
}
use nidavellir.Sweep.Stability.{StabilityResult, is_stable}
use nidavellir.Sweep.Bisection.{
  VoltageBisection, new_bisection, next_test, record_result, is_converged, search_min,
}
use nidavellir.Sweep.Bisection.Invariant.{
  IsValid, new_bisection-IsValid, next_test-IsValid, record_result-IsValid, measure, measure-step,
  next_test-is_converged,
}

-- The verdicts are what the state says: its stable voltage is the stock one or was found stable, and
-- its unstable one was found unstable.
abbrev Refuted : (ℕ → StabilityResult) → Option ℕ → Type 0
Refuted test none = Unit
Refuted test (some u) = is_stable (test u) ≡ false

pub record IsProven (test : ℕ → StabilityResult) (stock floor min_step : ℕ) (b : VoltageBisection)
    : Type 0 where
  pub proven : (b.stable_mv ≡ stock) ⊎ (is_stable (test b.stable_mv) ≡ true)
  pub refuted : Refuted test b.unstable_mv
  pub same_floor : b.floor_mv ≡ floor
  pub same_step : b.min_step_mv ≡ min_step
  pub not_above : b.stable_mv ≤ stock

pub step-IsProven :
    (test : ℕ → StabilityResult) (stock floor min_step : ℕ) (b : VoltageBisection) (mv : ℕ)
    → IsValid b
    → IsProven test stock floor min_step b
    → (next_test b).1 ≡ some mv
    → IsProven test stock floor min_step (record_result (next_test b).0 (test mv))
unfolding next_test record_result
step-IsProven test stock floor min_step b mv v p h =
    let inside : IsValid (next_test b).0 = next_test-IsValid b v in
    elim (Bool-cases (is_stable (test mv))) [
      | inl good ↦ ground (arith, inside)
      | inr bad ↦ ground (arith, inside)
    ]

pub ask-IsProven :
    (test : ℕ → StabilityResult) (stock floor min_step : ℕ) (b : VoltageBisection)
    → IsProven test stock floor min_step b
    → IsProven test stock floor min_step (next_test b).0
unfolding next_test
ask-IsProven test stock floor min_step b p = record {
  proven = p.proven;
  refuted = p.refuted;
  same_floor = p.same_floor;
  same_step = p.same_step;
  not_above = p.not_above;
}

pub asked_converged :
    (b : VoltageBisection) → is_converged b ≡ true → is_converged (next_test b).0 ≡ true
unfolding next_test is_converged
asked_converged b h = h

abbrev Found : (ℕ → StabilityResult) → ℕ → ℕ → ℕ → Option VoltageBisection → Type 0
Found test stock floor min_step none = ⊥
Found test stock floor min_step (some b) =
    IsValid b × IsProven test stock floor min_step b × (is_converged b ≡ true)

search_min_done :
    (test : ℕ → StabilityResult) (fuel : ℕ) (b : VoltageBisection)
    → (next_test b).1 ≡ none
    → search_min test (suc fuel) b ≡ some (next_test b).0
unfolding search_min
search_min_done test fuel b h = rw (h, search_min)

search_min_more :
    (test : ℕ → StabilityResult) (fuel : ℕ) (b : VoltageBisection) (mv : ℕ)
    → (next_test b).1 ≡ some mv
    → search_min test (suc fuel) b ≡ search_min test fuel (record_result (next_test b).0 (test mv))
unfolding search_min
search_min_more test fuel b mv h = rw (h, search_min)

search_min-Found :
    (test : ℕ → StabilityResult) (stock floor min_step fuel : ℕ) (b : VoltageBisection)
    → measure b < fuel
    → IsValid b
    → IsProven test stock floor min_step b
    → Found test stock floor min_step (search_min test fuel b)
search_min-Found test stock floor min_step zero b m v p = absurd (omega arith)
search_min-Found test stock floor min_step (suc fuel) b m v p =
    elim (Option-cases (next_test b).1) [
      | inl done ↦ rw (search_min_done test fuel b done) (
        next_test-IsValid b v,
        ask-IsProven test stock floor min_step b p,
        asked_converged b ((next_test-is_converged b).0 done),
      )
      | inr (mv, more) ↦ rw (search_min_more test fuel b mv more) (
          search_min-Found test stock floor min_step fuel (record_result (next_test b).0 (test mv))
            (omega (arith, measure-step b mv (test mv) v more))
            (record_result-IsValid (next_test b).0 (test mv) (next_test-IsValid b v))
            (step-IsProven test stock floor min_step b mv v p more))
    ]

-- The fuel that is always enough.
abbrev pub search_fuel : ℕ → ℕ → ℕ
search_fuel stock floor = stock - floor + 2

-- What a finished search knows: it lies between floor and stock, and, unless it stopped at the floor, it
-- has seen an unstable voltage at most one step below.
pub record IsMinimum (test : ℕ → StabilityResult) (stock floor step : ℕ) (b : VoltageBisection)
    : Type 0 where
  pub from_floor : floor ≤ b.stable_mv
  pub to_stock : b.stable_mv ≤ stock
  pub seen_stable : (b.stable_mv ≡ stock) ⊎ (is_stable (test b.stable_mv) ≡ true)
  pub seen_unstable :
      (b.stable_mv ≡ floor)
      ⊎ ((u : ℕ) × (u < b.stable_mv) × (b.stable_mv ≤ u + step) × (is_stable (test u) ≡ false))

pub converged-IsMinimum :
    (test : ℕ → StabilityResult) (stock floor step : ℕ) (b : VoltageBisection)
    → IsValid b
    → IsProven test stock floor step b
    → is_converged b ≡ true
    → IsMinimum test stock floor step b
unfolding is_converged
converged-IsMinimum test stock floor step b v p c = record {
  from_floor = omega (arith, v.above_floor, p.same_floor);
  to_stock = p.not_above;
  seen_stable = p.proven;
  seen_unstable = elim (Option-cases b.unstable_mv) [
    | inl no_cliff ↦ inl (ground arith)
    | inr (u, bracketed) ↦ inr (u, ground arith, ground arith, ground arith)
  ];
}

Found-IsMinimum :
    (test : ℕ → StabilityResult) (stock floor step : ℕ) (o : Option VoltageBisection)
    → Found test stock floor step o
    → (b : VoltageBisection) × (o ≡ some b) × IsMinimum test stock floor step b
Found-IsMinimum test stock floor step none f = absurd f
Found-IsMinimum test stock floor step (some b) f =
    (b, refl, converged-IsMinimum test stock floor step b f.0 f.1 f.2)

pub new_bisection-IsProven :
    (test : ℕ → StabilityResult) (freq stock floor descent_step min_step : ℕ)
    → IsProven test stock floor
        (max min_step 1)
        (new_bisection freq stock floor descent_step min_step)
unfolding new_bisection
new_bisection-IsProven test freq stock floor descent_step min_step = record {
  proven = inl refl;
  refuted = tt;
  same_floor = refl;
  same_step = refl;
  not_above = omega arith;
}

-- Whatever the verdicts, the search ends, after at most one test for each millivolt between the
-- floor and stock and one more, and it has found a minimum. The floor is at most stock, and stock
-- fits in u32.
pub search_finds :
    (test : ℕ → StabilityResult) (freq stock floor descent_step min_step : ℕ)
    → floor ≤ stock
    → stock ≤ u32_max
    → let start = new_bisection freq stock floor descent_step min_step in
      (b : VoltageBisection) × (search_min test (search_fuel stock floor) start ≡ some b)
      × IsMinimum test stock floor (max min_step 1) b
search_finds test freq stock floor descent_step min_step h k =
    let start = new_bisection freq stock floor descent_step min_step in
    Found-IsMinimum test stock floor (max min_step 1)
      (search_min test (search_fuel stock floor) start)
      (search_min-Found test stock floor (max min_step 1) (search_fuel stock floor) start
        (unfold new_bisection in omega arith)
        (new_bisection-IsValid freq stock floor descent_step min_step h k)
        (new_bisection-IsProven test freq stock floor descent_step min_step))
