-- ===== src/Sweep/Stability.antt =====
-- `VfPoint`, `StabilityResult`, `validate_compute` and `apply_safety_margin` of
-- `crates/core/src/gpu_sweep.rs`. The u32 sums and products wrap, as in a release build.
use nidavellir.Shared.{ℕ, ◌+◌, ◌*◌, ◌==◌, Bool, true, false, if◌then◌else◌, u32}

pub record VfPoint : Type 0 where
  pub freq_mhz : ℕ
  pub voltage_mv : ℕ

pub data StabilityResult : Type 0 where
  stable silent_error crash unstable : StabilityResult

abbrev pub is_stable : StabilityResult → Bool
is_stable stable = true
is_stable _ = false

unfoldable pub validate_compute : ℕ → ℕ → StabilityResult
validate_compute expected actual = if expected == actual then stable else silent_error

unfoldable pub apply_safety_margin : ℕ → ℕ → ℕ → ℕ → ℕ
apply_safety_margin cliff_mv fixed_margin_mv temp_coeff_mv_per_c headroom_c =
    u32 (u32 (cliff_mv + fixed_margin_mv) + u32 (temp_coeff_mv_per_c * headroom_c))
