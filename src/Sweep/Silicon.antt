-- ===== src/Sweep/Silicon.antt =====
-- The simulated hardware, `SimulatedSilicon` and `SimulatedGpuTuner` of
-- `crates/core/src/gpu_control.rs`. The cast back to u32 keeps the low 32 bits, and the u32 sum in
-- `evaluate` wraps.
pub mod Frontier
use nidavellir.Shared.{
  ℕ, suc, ◌+◌, ◌-◌, ◌*◌, ◌/◌, leb, Bool, true, false, Option, none, some, if◌then◌else◌, u32,
}
use nidavellir.Shared.Int.{ℤ, pos, negsuc, pos_part, neg_part, sub_ℕ, wrap_i64}
use nidavellir.Sweep.Stability.{VfPoint, StabilityResult, stable, silent_error, crash}

pub record SimulatedSilicon : Type 0 where
  pub base_mv : ℕ
  pub ref_freq_mhz : ℕ
  pub slope_uv_per_mhz : ℕ
  pub crash_margin_mv : ℕ

unfoldable pub default_silicon : SimulatedSilicon
default_silicon = record {
  base_mv = 850;
  ref_freq_mhz = 1800;
  slope_uv_per_mhz = 800;
  crash_margin_mv = 60;
}

abbrev scale : ℤ → ℕ → ℤ
scale (pos n) k = pos (n * k)
scale (negsuc n) k = sub_ℕ 0 (suc n * k)

-- Division of i64 rounds towards 0.
abbrev div_trunc : ℤ → ℕ → ℤ
div_trunc (pos n) k = pos (n / k)
div_trunc (negsuc n) k = sub_ℕ 0 (suc n / k)

-- The product wraps in i64; a thousandth of it added to a u32 does not. The truncated difference is
-- `max(0)`.
unfoldable pub frontier_mv : SimulatedSilicon → ℕ → ℕ
unfolding wrap_i64
frontier_mv s freq =
    let delta_mhz = sub_ℕ freq s.ref_freq_mhz in
    let delta_mv = div_trunc (wrap_i64 (scale delta_mhz s.slope_uv_per_mhz)) 1000 in
    u32 (s.base_mv + pos_part delta_mv - neg_part delta_mv)

unfoldable pub evaluate : SimulatedSilicon → VfPoint → StabilityResult
evaluate s point =
    let frontier = frontier_mv s point.freq_mhz in
    if leb frontier point.voltage_mv
    then stable
    else if leb frontier (u32 (point.voltage_mv + s.crash_margin_mv))
    then silent_error
    else crash

pub record SimulatedGpuTuner : Type 0 where
  pub applied : Option VfPoint
  pub stock : Option VfPoint

unfoldable pub new_tuner : VfPoint → SimulatedGpuTuner
new_tuner stock = record { applied = some stock; stock = some stock }

abbrev or_else : Option VfPoint → Option VfPoint → Option VfPoint
or_else (some p) q = some p
or_else none q = q

unfoldable pub read_current : SimulatedGpuTuner → Option VfPoint
read_current t = or_else t.applied t.stock

unfoldable pub apply : SimulatedGpuTuner → VfPoint → SimulatedGpuTuner
apply t point = record t { applied = some point }

unfoldable pub reset : SimulatedGpuTuner → SimulatedGpuTuner
reset t = record t { applied = t.stock }
