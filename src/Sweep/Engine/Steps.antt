-- ===== src/Sweep/Engine/Steps.antt =====
-- The single steps of `GpuSweepEngine::next_command`, `crates/core/src/gpu_sweep.rs`, for an engine
-- under way.
use nidavellir.Shared.{
  ℕ, zero, suc, ◌+◌, ◌≤◌, ◌<◌, ◌≡◌, leb, Bool, List, [], ◌∷◌, ◌++◌, Option, none, some, arith, inl,
  inr, length, get_elem?, drop, Bool-cases,
}
use nidavellir.Sweep.Stability.{apply_safety_margin}
use nidavellir.Sweep.Bisection.{VoltageBisection, new_bisection, next_test, min_stable_mv}
use nidavellir.Sweep.Profiles.{TradeoffPoint, synthesize_profiles}
use nidavellir.Sweep.Engine.{
  GpuSweepConfig, GpuSweepEngine, apply_and_test, finished, voltage_bisection, done, start_freq,
  finish, advance, next_command_fuel,
}

pub drop-cons :
    (xs post : List ℕ) (i fr : ℕ)
    → drop i xs ≡ fr ∷ post
    → (get_elem? xs i ≡ some fr) × (drop (i + 1) xs ≡ post) × (length xs ≡ i + suc (length post))
drop-cons [] post zero fr h = cc
drop-cons [] post (suc i) fr h = cc
drop-cons (x ∷ xs) post zero fr h = ground arith
drop-cons (x ∷ xs) post (suc i) fr h = ground (arith, drop-cons xs post i fr h)

pub drop-nil : (xs : List ℕ) (i : ℕ) → drop i xs ≡ [] → length xs ≤ i
drop-nil [] i h = omega arith
drop-nil (x ∷ xs) zero h = cc
drop-nil (x ∷ xs) (suc i) h = ground (arith, drop-nil xs i h)

module _ (config : GpuSweepConfig) (base : ℕ) (simulated : Bool) where
  -- The engine between its first and its last command.
  abbrev pub at : ℕ → List TradeoffPoint → Option VoltageBisection → GpuSweepEngine
  at i ts bis = record {
    config = config;
    baseline_freq_mhz = base;
    phase = voltage_bisection;
    freq_index = i;
    bisection = bis;
    tradeoffs = ts;
    profiles = none;
    simulated = simulated;
  }

  abbrev pub targets : List ℕ
  targets = config.target_freqs_mhz

  abbrev pub margin : ℕ → ℕ
  margin mv =
      apply_safety_margin mv config.fixed_margin_mv config.temp_coeff_mv_per_c
        config.temp_headroom_c

  abbrev pub tradeoff : VoltageBisection → TradeoffPoint
  tradeoff b = record { freq_mhz = b.freq_mhz; vmin_mv = margin b.stable_mv }

  abbrev pub start : ℕ → VoltageBisection
  start fr =
      new_bisection fr config.stock_mv config.floor_mv config.descent_step_mv config.min_step_mv

  pub fuel_asks :
      (f i mv : ℕ) (ts : List TradeoffPoint) (b : VoltageBisection)
      → (next_test b).1 ≡ some mv
      → next_command_fuel (suc f) (at i ts (some b))
        ≡ some (
          at i ts (some (next_test b).0),
          apply_and_test (record { freq_mhz = (next_test b).0.freq_mhz; voltage_mv = mv }),
        )
  unfolding next_command_fuel
  fuel_asks f i mv ts b h = rw h

  pub fuel_converged :
      (f i : ℕ) (ts : List TradeoffPoint) (b : VoltageBisection)
      → (next_test b).1 ≡ none
      → next_command_fuel (suc f) (at i ts (some b))
        ≡ next_command_fuel f (at (i + 1) (ts ++ tradeoff (next_test b).0 ∷ []) none)
  unfolding next_command_fuel advance min_stable_mv
  fuel_converged f i ts b h = rw h

  started :
      (i fr : ℕ) (ts : List TradeoffPoint)
      → get_elem? targets i ≡ some fr
      → start_freq (at i ts none) ≡ at i ts (some (start fr))
  unfolding start_freq
  started i fr ts h = rw h

  pub fuel_starts :
      (f i fr : ℕ) (ts : List TradeoffPoint)
      → get_elem? targets i ≡ some fr
      → i < length targets
      → next_command_fuel (suc f) (at i ts none)
        ≡ next_command_fuel (suc f) (at i ts (some (start fr)))
  unfolding next_command_fuel
  fuel_starts f i fr ts h k = elim (Bool-cases (leb (length targets) i)) [
    | inl over ↦ absurd (ground arith)
    | inr left ↦ rw (left, started i fr ts h)
  ]

  pub fuel_ends :
      (f i : ℕ) (ts : List TradeoffPoint)
      → length targets ≤ i
      → next_command_fuel (suc f) (at i ts none)
        ≡ some (
          record (at i ts none) { phase = done; profiles = synthesize_profiles base ts },
          finished,
        )
  unfolding next_command_fuel finish
  fuel_ends f i ts h = elim (Bool-cases (leb (length targets) i)) [
    | inl over ↦ rw over
    | inr left ↦ absurd (ground arith)
  ]
