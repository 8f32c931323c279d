-- ===== src/Sweep/Engine.antt =====
-- `GpuSweepEngine` of `crates/core/src/gpu_sweep.rs`: a `&mut self` method returns the new engine.
-- `next_command` calls itself once for each frequency that needs no test; its fuel is the number of
-- frequencies left and one more, and `none` means that the fuel ran out or `expect` failed.
pub mod Steps
pub mod Found
pub mod Drive
use nidavellir.Shared.{
  ℕ, zero, suc, ◌+◌, ◌-◌, leb, Bool, true, false, List, [], ◌∷◌, ◌++◌, Option, none, some,
  if◌then◌else◌, length, get_elem?,
}
use nidavellir.Sweep.Stability.{VfPoint, StabilityResult, apply_safety_margin}
use nidavellir.Sweep.Bisection.{
  VoltageBisection, new_bisection, next_test, record_result, min_stable_mv,
}
use nidavellir.Sweep.Profiles.{TradeoffPoint, GpuProfileSet, synthesize_profiles}

pub data SweepPhase : Type 0 where
  idle baseline vram_diagnostic voltage_bisection synthesis done aborted : SweepPhase

pub record GpuSweepConfig : Type 0 where
  pub target_freqs_mhz : List ℕ
  pub stock_mv : ℕ
  pub floor_mv : ℕ
  pub descent_step_mv : ℕ
  pub min_step_mv : ℕ
  pub fixed_margin_mv : ℕ
  pub temp_coeff_mv_per_c : ℕ
  pub temp_headroom_c : ℕ

-- `GpuSweepConfig::default`
unfoldable pub default_config : GpuSweepConfig
default_config = record {
  target_freqs_mhz = 1950 ∷ 1875 ∷ 1800 ∷ 1695 ∷ [];
  stock_mv = 1050;
  floor_mv = 700;
  descent_step_mv = 25;
  min_step_mv = 5;
  fixed_margin_mv = 15;
  temp_coeff_mv_per_c = 1;
  temp_headroom_c = 15;
}

pub data SweepCommand : Type 0 where
  apply_and_test : VfPoint → SweepCommand
  finished : SweepCommand

pub record GpuSweepEngine : Type 0 where
  pub config : GpuSweepConfig
  pub baseline_freq_mhz : ℕ
  pub phase : SweepPhase
  pub freq_index : ℕ
  pub bisection : Option VoltageBisection
  pub tradeoffs : List TradeoffPoint
  pub profiles : Option GpuProfileSet
  pub simulated : Bool

unfoldable pub new_engine : GpuSweepConfig → ℕ → Bool → GpuSweepEngine
new_engine config base_freq simulated = record {
  config = config;
  baseline_freq_mhz = base_freq;
  phase = voltage_bisection;
  freq_index = 0;
  bisection = none;
  tradeoffs = [];
  profiles = none;
  simulated = simulated;
}

abbrev begin_at : GpuSweepEngine → Option ℕ → GpuSweepEngine
begin_at e none = e
begin_at e (some freq) = record e {
  bisection = some (
      new_bisection freq e.config.stock_mv e.config.floor_mv e.config.descent_step_mv
        e.config.min_step_mv);
}

unfoldable pub start_freq : GpuSweepEngine → GpuSweepEngine
start_freq e = begin_at e (get_elem? e.config.target_freqs_mhz e.freq_index)

unfoldable pub finish : GpuSweepEngine → GpuSweepEngine × SweepCommand
finish e = (
  record e { phase = done; profiles = synthesize_profiles e.baseline_freq_mhz e.tradeoffs },
  finished,
)

-- A frequency has converged: the cliff and its margin are recorded, and the next one is up.
unfoldable pub advance : GpuSweepEngine → VoltageBisection → GpuSweepEngine
advance e bis =
    let safe =
      apply_safety_margin (min_stable_mv bis) e.config.fixed_margin_mv e.config.temp_coeff_mv_per_c
        e.config.temp_headroom_c in
    record e {
      tradeoffs = e.tradeoffs ++ record { freq_mhz = bis.freq_mhz; vmin_mv = safe } ∷ [];
      bisection = none;
      freq_index = e.freq_index + 1;
    }

abbrev pub Emitted : Type 0
Emitted = Option (GpuSweepEngine × SweepCommand)

abbrev pub emit_next :
    (GpuSweepEngine → Emitted) → GpuSweepEngine → VoltageBisection → Option ℕ → Emitted
emit_next again e bis (some mv) = some (
  record e { bisection = some bis },
  apply_and_test (record { freq_mhz = bis.freq_mhz; voltage_mv = mv }),
)
emit_next again e bis none = again (advance e bis)

-- The part behind `expect`; `again` is the recursive call.
abbrev pub emit : (GpuSweepEngine → Emitted) → GpuSweepEngine → Option VoltageBisection → Emitted
emit again e none = none
emit again e (some bis) = emit_next again e (next_test bis).0 (next_test bis).1

abbrev pub is_over : SweepPhase → Bool
is_over done = true
is_over aborted = true
is_over _ = false

abbrev begin : (GpuSweepEngine → Emitted) → GpuSweepEngine → Option VoltageBisection → Emitted
begin again e (some bis) = emit again e (some bis)
begin again e none =
    if leb (length e.config.target_freqs_mhz) e.freq_index
    then some (finish e)
    else emit again (start_freq e) (start_freq e).bisection

unfoldable pub next_command_fuel : ℕ → GpuSweepEngine → Emitted
next_command_fuel zero e = none
next_command_fuel (suc fuel) e =
    if is_over e.phase
    then some (e, finished)
    else begin (λ x. next_command_fuel fuel x) e e.bisection

unfoldable pub next_command : GpuSweepEngine → Emitted
next_command e = next_command_fuel (length e.config.target_freqs_mhz - e.freq_index + 1) e

abbrev feed : GpuSweepEngine → StabilityResult → Option VoltageBisection → GpuSweepEngine
feed e result none = e
feed e result (some bis) = record e { bisection = some (record_result bis result) }

-- `record`
unfoldable pub record_verdict : GpuSweepEngine → StabilityResult → GpuSweepEngine
record_verdict e result = feed e result e.bisection

unfoldable pub abort : GpuSweepEngine → GpuSweepEngine
abort e = record e { phase = aborted; bisection = none }

pub record GpuSweepProgress : Type 0 where
  pub phase : SweepPhase
  pub current : Option VfPoint
  pub freq_index : ℕ
  pub total_freqs : ℕ
  pub tradeoffs : List TradeoffPoint
  pub profiles : Option GpuProfileSet
  pub simulated : Bool

abbrev point_at : ℕ → Option ℕ → Option VfPoint
point_at freq none = none
point_at freq (some mv) = some (record { freq_mhz = freq; voltage_mv = mv })

abbrev current_of : Option VoltageBisection → Option VfPoint
current_of none = none
current_of (some b) = point_at b.freq_mhz b.current_mv

-- The fields that a real sweep alone fills in are left out: they are none here.
unfoldable pub progress : GpuSweepEngine → GpuSweepProgress
progress e = record {
  phase = e.phase;
  current = current_of e.bisection;
  freq_index = e.freq_index;
  total_freqs = length e.config.target_freqs_mhz;
  tradeoffs = e.tradeoffs;
  profiles = e.profiles;
  simulated = e.simulated;
}

-- The runtime's side: apply and test what is asked for, feed the verdict back, until the engine says
-- that it has finished.
abbrev pub drive_on :
    (GpuSweepEngine → Option GpuSweepEngine)
    → (VfPoint → StabilityResult)
    → Emitted
    → Option GpuSweepEngine
drive_on again test none = none
drive_on again test (some (e, finished)) = some e
drive_on again test (some (e, apply_and_test p)) = again (record_verdict e (test p))

unfoldable pub drive : (VfPoint → StabilityResult) → ℕ → GpuSweepEngine → Option GpuSweepEngine
drive test zero e = none
drive test (suc fuel) e = drive_on (λ x. drive test fuel x) test (next_command e)
