-- ===== src/Sweep/Bisection.antt =====
-- `VoltageBisection` of `crates/core/src/gpu_sweep.rs`: a `&mut self` method returns the new state.
-- Truncated subtraction is `saturating_sub`; the difference in `midpoint` is u32 and wraps.
pub mod Invariant
pub mod Search
use nidavellir.Shared.{
  ℕ, zero, suc, ◌+◌, ◌-◌, ◌/◌, max, min, leb, Bool, true, false, Option, none, some, if◌then◌else◌,
  u32,
}
use nidavellir.Sweep.Stability.{StabilityResult, is_stable}

pub record VoltageBisection : Type 0 where
  pub freq_mhz : ℕ
  pub stable_mv : ℕ
  pub unstable_mv : Option ℕ
  pub floor_mv : ℕ
  pub descent_step_mv : ℕ
  pub min_step_mv : ℕ
  pub current_mv : Option ℕ

unfoldable pub new_bisection : ℕ → ℕ → ℕ → ℕ → ℕ → VoltageBisection
new_bisection freq stock floor descent_step min_step = record {
  freq_mhz = freq;
  stable_mv = stock;
  unstable_mv = none;
  floor_mv = floor;
  descent_step_mv = max descent_step 1;
  min_step_mv = max min_step 1;
  current_mv = none;
}

abbrev pub midpoint : ℕ → ℕ → ℕ
midpoint a b = u32 (a + u32 (b + 4294967296 - a) / 2)

abbrev candidate : VoltageBisection → Option ℕ → Option ℕ
candidate b none =
    if leb b.stable_mv b.floor_mv
    then none
    else some (max (b.stable_mv - b.descent_step_mv) b.floor_mv)
candidate b (some unstable) =
    if leb (b.stable_mv - unstable) b.min_step_mv
    then none
    else some (midpoint unstable b.stable_mv)

unfoldable pub next_test : VoltageBisection → VoltageBisection × Option ℕ
next_test b = let next = candidate b b.unstable_mv in (record b { current_mv = next }, next)

abbrev raise : Option ℕ → ℕ → Option ℕ
raise none tested = some tested
raise (some u) tested = some (max u tested)

abbrev record_at : VoltageBisection → StabilityResult → Option ℕ → VoltageBisection
record_at b result none = b
record_at b result (some tested) =
    let learned =
      if is_stable result
      then record b { stable_mv = min b.stable_mv tested }
      else record b { unstable_mv = raise b.unstable_mv tested } in
    record learned { current_mv = none }

-- `record`
unfoldable pub record_result : VoltageBisection → StabilityResult → VoltageBisection
record_result b result = record_at b result b.current_mv

abbrev converged : VoltageBisection → Option ℕ → Bool
converged b none = leb b.stable_mv b.floor_mv
converged b (some unstable) = leb (b.stable_mv - unstable) b.min_step_mv

unfoldable pub is_converged : VoltageBisection → Bool
is_converged b = converged b b.unstable_mv

unfoldable pub min_stable_mv : VoltageBisection → ℕ
min_stable_mv b = b.stable_mv

-- The drive of one search: test what is asked for, feed the verdict back, until nothing is asked for.
-- `none` means that the fuel ran out.
unfoldable pub search_min : (ℕ → StabilityResult) → ℕ → VoltageBisection → Option VoltageBisection
search_min test zero b = none
search_min test (suc fuel) b =
    let (asked, next) = next_test b in
    elim next [ none ↦ some asked | some mv ↦ search_min test fuel (record_result asked (test mv)) ]
