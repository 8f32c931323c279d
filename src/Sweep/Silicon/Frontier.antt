-- ===== src/Sweep/Silicon/Frontier.antt =====
-- The search against the simulated silicon: `crates/core/src/gpu_sweep.rs` with
-- `crates/core/src/gpu_control.rs`.
use nidavellir.Shared.{ℕ, ◌+◌, ◌≤◌, ◌<◌, ◌≡◌, ◌⊎◌, inl, inr, max, some, arith, leb, u32_max}
use nidavellir.Sweep.Stability.{StabilityResult, is_stable}
use nidavellir.Sweep.Silicon.{SimulatedSilicon, frontier_mv, evaluate}
use nidavellir.Sweep.Bisection.{VoltageBisection, new_bisection, search_min, min_stable_mv}
use nidavellir.Sweep.Bisection.Search.{search_fuel, search_finds}

-- The verdict at a frequency, as a function of the voltage.
abbrev pub verdict : SimulatedSilicon → ℕ → ℕ → StabilityResult
verdict s freq mv = evaluate s (record { freq_mhz = freq; voltage_mv = mv })

-- A voltage is judged stable exactly from the frontier on.
pub verdict_stable :
    (s : SimulatedSilicon) (freq mv : ℕ)
    → is_stable (verdict s freq mv) ≡ leb (frontier_mv s freq) mv
unfolding evaluate
verdict_stable s freq mv = ground arith

-- Where stock is not below the frontier, the search against the silicon ends, and what it finds is
-- stable and less than one step above the frontier, or it is the hard floor. The floor is at most
-- stock, and stock fits in u32.
pub search_silicon :
    (s : SimulatedSilicon) (freq stock floor descent_step min_step : ℕ)
    → floor ≤ stock
    → stock ≤ u32_max
    → frontier_mv s freq ≤ stock
    → let start = new_bisection freq stock floor descent_step min_step in
      (b : VoltageBisection) × (search_min (verdict s freq) (search_fuel stock floor) start
        ≡ some b)
      × (frontier_mv s freq ≤ min_stable_mv b)
      × ((min_stable_mv b ≡ floor) ⊎ (min_stable_mv b < frontier_mv s freq + max min_step 1))
unfolding min_stable_mv
search_silicon s freq stock floor descent_step min_step h k above =
    let (b, ended, m) = search_finds (verdict s freq) freq stock floor descent_step min_step h k in
    let judged = verdict_stable s freq in
    (
      b,
      ended,
      ground (arith, judged b.stable_mv, m.seen_stable),
      elim m.seen_unstable [
        | inl at_floor ↦ inl at_floor
        | inr (u, below, near, bad) ↦ inr (ground (arith, judged u))
      ],
    )
