-- ===== src/Tests/Sweep.antt =====
-- The theorems on the sweep at concrete inputs, `crates/core/src/gpu_sweep.rs` and
-- `crates/core/src/gpu_control.rs`.
use nidavellir.Shared.{map, ◌+◌, ◌≤◌, ◌<◌, ◌≡◌, ◌⊎◌, refl, max, true, [], ◌∷◌, some, arith, All, In}
use nidavellir.Sweep.Stability.{VfPoint, StabilityResult}
use nidavellir.Sweep.Bisection.{VoltageBisection, new_bisection, search_min, min_stable_mv}
use nidavellir.Sweep.Bisection.Search.{search_fuel, IsMinimum, search_finds}
use nidavellir.Sweep.Engine.{GpuSweepConfig, GpuSweepEngine, done, new_engine, drive}
use nidavellir.Sweep.Engine.Found.{IsFound}
use nidavellir.Sweep.Engine.Drive.{sweep_completes}
use nidavellir.Sweep.Silicon.{evaluate, default_silicon, frontier_mv}
use nidavellir.Sweep.Silicon.Frontier.{verdict, search_silicon}
use nidavellir.Sweep.Profiles.{TradeoffPoint, synthesize_profiles, to_point}
use nidavellir.Sweep.Profiles.Choice.{IsFastest, IsEfficient, IsCalm, synthesize_profiles_lem}

abbrev start : VoltageBisection
start = new_bisection 1800 1050 700 25 5

search_finds_example :
    (b : VoltageBisection) × (search_min (verdict default_silicon 1800) (search_fuel 1050 700) start
      ≡ some b)
    × IsMinimum (verdict default_silicon 1800) 1050 700 (max 5 1) b
search_finds_example =
    search_finds (verdict default_silicon 1800) 1800 1050 700 25 5 (ground arith) (ground arith)

frontier_at : frontier_mv default_silicon 1800 ≡ 850
unfolding frontier_mv default_silicon
frontier_at = refl

search_silicon_example :
    (b : VoltageBisection) × (search_min (verdict default_silicon 1800) (search_fuel 1050 700) start
      ≡ some b)
    × (frontier_mv default_silicon 1800 ≤ min_stable_mv b)
    × ((min_stable_mv b ≡ 700) ⊎ (min_stable_mv b < frontier_mv default_silicon 1800 + max 5 1))
search_silicon_example =
    search_silicon default_silicon 1800 1050 700 25 5 (ground arith) (ground arith)
      (rw frontier_at (ground arith))

abbrev low : TradeoffPoint
low = record { freq_mhz = 1695; vmin_mv = 800 }

abbrev high : TradeoffPoint
high = record { freq_mhz = 1950; vmin_mv = 985 }

synthesize_profiles_lem_example :
    let points = high ∷ low ∷ [] in
    (g b c : TradeoffPoint) × (synthesize_profiles 1770 points
      ≡ some (record { godforge = to_point g; brokkrs_best = to_point b; deep_calm = to_point c }))
    × (In g points × All (IsFastest g) points)
    × (In b points × All (IsEfficient b) points)
    × (In c points × All (IsCalm 1770 c) points)
synthesize_profiles_lem_example = synthesize_profiles_lem 1770 high (low ∷ [])

abbrev on_silicon : VfPoint → StabilityResult
on_silicon p = evaluate default_silicon p

abbrev config : GpuSweepConfig
config = record {
  target_freqs_mhz = 1950 ∷ 1800 ∷ [];
  stock_mv = 1050;
  floor_mv = 700;
  descent_step_mv = 25;
  min_step_mv = 5;
  fixed_margin_mv = 15;
  temp_coeff_mv_per_c = 1;
  temp_headroom_c = 15;
}

sweep_completes_example :
    (e : GpuSweepEngine) × (drive on_silicon 706 (new_engine config 1770 true) ≡ some e)
    × (e.phase ≡ done)
    × (map (λ p. p.freq_mhz) e.tradeoffs ≡ 1950 ∷ 1800 ∷ [])
    × All (IsFound on_silicon config 1770 true) e.tradeoffs
    × (e.profiles ≡ synthesize_profiles 1770 e.tradeoffs)
sweep_completes_example = sweep_completes on_silicon config 1770 true (ground arith) (ground arith)
