-- ===== src/Sweep/Engine/Found.antt =====
-- What a sweep has found so far, `GpuSweepEngine` of `crates/core/src/gpu_sweep.rs`: the recorded points and
-- the search under way.
use nidavellir.Shared.{
  Bool, ℕ, ◌≡◌, refl, sym, ap, subst, ◌∙◌, max, List, [], ◌∷◌, ◌++◌, map, Option, none, arith, All,
}
use nidavellir.Sweep.Stability.{VfPoint, StabilityResult}
use nidavellir.Sweep.Bisection.{VoltageBisection, next_test, record_result}
use nidavellir.Sweep.Bisection.Invariant.{IsValid, next_test-IsValid, next_test-is_converged}
use nidavellir.Sweep.Bisection.Search.{
  IsProven, IsMinimum, ask-IsProven, asked_converged, converged-IsMinimum,
}
use nidavellir.Sweep.Profiles.{TradeoffPoint}
use nidavellir.Sweep.Engine.{GpuSweepConfig, GpuSweepEngine}
use nidavellir.Sweep.Engine.Steps.{at, tradeoff}

module _ (test : VfPoint → StabilityResult) (config : GpuSweepConfig) (base : ℕ)
    (simulated : Bool) where
  abbrev pub here : ℕ → List TradeoffPoint → Option VoltageBisection → GpuSweepEngine
  here i ts bis = at config base simulated i ts bis

  -- The verdict at a clock, by voltage.
  abbrev pub verdicts : ℕ → ℕ → StabilityResult
  verdicts fr mv = test (record { freq_mhz = fr; voltage_mv = mv })

  abbrev pub step : ℕ
  step = max config.min_step_mv 1

  -- A recorded point stands at the margin above a minimum that was found at its clock.
  abbrev pub IsFound : TradeoffPoint → Type 0
  IsFound p =
      (b : VoltageBisection) × (p ≡ tradeoff config base simulated b)
      × IsMinimum (verdicts p.freq_mhz) config.stock_mv config.floor_mv step b

  abbrev pub freqs : List TradeoffPoint → List ℕ
  freqs ts = map (λ p. p.freq_mhz) ts

  abbrev pub Recorded : List TradeoffPoint → List ℕ → Type 0
  Recorded ts todo = (freqs ts ++ todo ≡ config.target_freqs_mhz) × All IsFound ts

  abbrev pub Testing : VoltageBisection → ℕ → Type 0
  Testing b fr =
      IsValid b × IsProven (verdicts fr) config.stock_mv config.floor_mv step b × (b.freq_mhz ≡ fr)

  pub asked_freq : (b : VoltageBisection) → (next_test b).0.freq_mhz ≡ b.freq_mhz
  asked_freq b = unfold next_test in refl

  pub verdict_freq :
      (b : VoltageBisection) (r : StabilityResult) → (record_result b r).freq_mhz ≡ b.freq_mhz
  verdict_freq b r = unfold record_result in ground arith

  freqs-snoc :
      (ts : List TradeoffPoint) (p : TradeoffPoint) (post : List ℕ)
      → freqs (ts ++ p ∷ []) ++ post ≡ freqs ts ++ p.freq_mhz ∷ post
  freqs-snoc [] p post = refl
  freqs-snoc (t ∷ ts) p post = ap (λ fs. t.freq_mhz ∷ fs) (freqs-snoc ts p post)

  All-snoc :
      (ts : List TradeoffPoint) (p : TradeoffPoint)
      → All IsFound ts
      → IsFound p
      → All IsFound (ts ++ p ∷ [])
  All-snoc [] p h k = (k, tt)
  All-snoc (t ∷ ts) p h k = (h.0, All-snoc ts p h.1 k)

  pub Recorded-snoc :
      (ts : List TradeoffPoint) (p : TradeoffPoint) (fr : ℕ) (post : List ℕ)
      → Recorded ts (fr ∷ post)
      → p.freq_mhz ≡ fr
      → IsFound p
      → Recorded (ts ++ p ∷ []) post
  Recorded-snoc ts p fr post h e k =
      (freqs-snoc ts p post ∙ ap (λ f. freqs ts ++ f ∷ post) e ∙ h.0, All-snoc ts p h.1 k)

  pub converged-IsFound :
      (b : VoltageBisection) (fr : ℕ)
      → Testing b fr
      → (next_test b).1 ≡ none
      → IsFound (tradeoff config base simulated (next_test b).0)
  converged-IsFound b fr (valid, proven, at_clock) h =
      let minimum =
        converged-IsMinimum (verdicts fr) config.stock_mv config.floor_mv step (next_test b).0
          (next_test-IsValid b valid)
          (ask-IsProven (verdicts fr) config.stock_mv config.floor_mv step b proven)
          (asked_converged b ((next_test-is_converged b).0 h)) in
      (
        (next_test b).0,
        refl,
        subst (λ f. IsMinimum (verdicts f) config.stock_mv config.floor_mv step (next_test b).0)
            (sym (asked_freq b ∙ at_clock)) minimum,
      )
