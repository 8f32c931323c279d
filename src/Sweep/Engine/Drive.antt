-- ===== src/Sweep/Engine/Drive.antt =====
-- A whole sweep, `GpuSweepEngine` of `crates/core/src/gpu_sweep.rs` driven by any verdicts: the runtime
-- tests what the engine asks for and feeds the verdict back.
use mathlib.Core.List.{append-nil}
use nidavellir.Shared.{
  Bool, ℕ, zero, suc, ◌+◌, ◌-◌, ◌*◌, ◌≤◌, ◌<◌, ◌≡◌, refl, sym, ap, subst, ◌∙◌, List, [], ◌∷◌, ◌++◌,
  map, Option, none, some, arith, inl, inr, All, length, drop, Option-cases, u32_max,
}
use nidavellir.Sweep.Stability.{VfPoint, StabilityResult}
use nidavellir.Sweep.Bisection.{VoltageBisection, new_bisection, next_test, record_result}
use nidavellir.Sweep.Bisection.Invariant.{
  new_bisection-IsValid, next_test-IsValid, record_result-IsValid, measure, measure-step,
}
use nidavellir.Sweep.Bisection.Search.{step-IsProven, new_bisection-IsProven}
use nidavellir.Sweep.Profiles.{TradeoffPoint, synthesize_profiles}
use nidavellir.Sweep.Engine.{
  GpuSweepConfig, GpuSweepEngine, apply_and_test, finished, done, new_engine, Emitted,
  next_command_fuel, next_command, record_verdict, drive, drive_on,
}
use nidavellir.Sweep.Engine.Found.{
  here, verdicts, step, IsFound, freqs, Recorded, Testing, asked_freq, verdict_freq, Recorded-snoc,
  converged-IsFound,
}
use nidavellir.Sweep.Engine.Steps.{
  drop-cons, drop-nil, tradeoff, start, fuel_asks, fuel_converged, fuel_starts, fuel_ends,
}

module _ (test : VfPoint → StabilityResult) (config : GpuSweepConfig) (base : ℕ) (simulated : Bool)
    (floor_below : config.floor_mv ≤ config.stock_mv) (fits : config.stock_mv ≤ u32_max) where
  -- The most tests that a clock can take.
  abbrev most : ℕ
  most = config.stock_mv - config.floor_mv + 2

  -- A bound on the tests still to come.
  abbrev left : List ℕ → VoltageBisection → ℕ
  left post b = length post * most + measure b + 1

  abbrev IsFinal : GpuSweepEngine → Type 0
  IsFinal e =
      (e.phase ≡ done)
      × (freqs test config base simulated e.tradeoffs ≡ config.target_freqs_mhz)
      × All (IsFound test config base simulated) e.tradeoffs
      × (e.profiles ≡ synthesize_profiles base e.tradeoffs)

  -- The engine has asked for a test, and whatever the verdict, fewer than `n` tests are left.
  record Asks (n : ℕ) (e : GpuSweepEngine) (p : VfPoint) : Type 0 where
    index : ℕ
    recorded : List TradeoffPoint
    clock : ℕ
    post : List ℕ
    search : VoltageBisection
    under_way :
        record_verdict e (test p) ≡ here test config base simulated index recorded (some search)
    rest : drop index config.target_freqs_mhz ≡ clock ∷ post
    is_recorded : Recorded test config base simulated recorded (clock ∷ post)
    is_testing : Testing test config base simulated search clock
    fewer : left post search < n

  abbrev Good : ℕ → Emitted → Type 0
  Good n none = ⊥
  Good n (some (e, finished)) = IsFinal e
  Good n (some (e, apply_and_test p)) = Asks n e p

  Good-more : (n m : ℕ) (o : Emitted) → n ≤ m → Good n o → Good m o
  Good-more n m none h g = g
  Good-more n m (some (e, finished)) h g = g
  Good-more n m (some (e, apply_and_test p)) h g = record {
    index = g.index;
    recorded = g.recorded;
    clock = g.clock;
    post = g.post;
    search = g.search;
    under_way = g.under_way;
    rest = g.rest;
    is_recorded = g.is_recorded;
    is_testing = g.is_testing;
    fewer = omega (arith, g.fewer);
  }

  start-Testing : (fr : ℕ) → Testing test config base simulated (start config base simulated fr) fr
  start-Testing fr = (
    new_bisection-IsValid fr config.stock_mv config.floor_mv config.descent_step_mv
        config.min_step_mv floor_below fits,
    new_bisection-IsProven (verdicts test config base simulated fr) fr config.stock_mv
        config.floor_mv config.descent_step_mv config.min_step_mv,
    unfold new_bisection in refl,
  )

  start-measure : (fr : ℕ) → measure (start config base simulated fr) + 1 ≤ most
  start-measure fr = unfold new_bisection in omega arith

  ask-Asks :
      (i fr mv : ℕ) (ts : List TradeoffPoint) (post : List ℕ) (b : VoltageBisection)
      → drop i config.target_freqs_mhz ≡ fr ∷ post
      → Recorded test config base simulated ts (fr ∷ post)
      → Testing test config base simulated b fr
      → (next_test b).1 ≡ some mv
      → Asks
          (left post b)
          (here test config base simulated i ts (some (next_test b).0))
          (record { freq_mhz = (next_test b).0.freq_mhz; voltage_mv = mv })
  ask-Asks i fr mv ts post b rest recorded (valid, proven, at_clock) h =
      let asked = (next_test b).0 in
      let clock = asked_freq test config base simulated b ∙ at_clock in
      record {
        index = i;
        recorded = ts;
        clock = fr;
        post = post;
        search = record_result asked (verdicts test config base simulated fr mv);
        under_way =
            unfold record_verdict in
            ap
              (λ f.
                here test config base simulated i ts
                  (some (record_result asked (verdicts test config base simulated f mv))))
              clock;
        rest = rest;
        is_recorded = recorded;
        is_testing = (
          record_result-IsValid asked (verdicts test config base simulated fr mv)
              (next_test-IsValid b valid),
          step-IsProven (verdicts test config base simulated fr) config.stock_mv config.floor_mv
              (step test config base simulated) b mv valid proven h,
          verdict_freq test config base simulated asked (verdicts test config base simulated fr mv)
              ∙ clock,
        );
        fewer =
            omega (arith, measure-step b mv (verdicts test config base simulated fr mv) valid h);
      }

  Testing-Good :
      (i fr : ℕ) (ts : List TradeoffPoint) (post : List ℕ) (b : VoltageBisection)
      → ((us : List TradeoffPoint)
          → Recorded test config base simulated us post
          → Good (length post * most + 1) (
              next_command_fuel
                (suc (length post))
                (here test config base simulated (i + 1) us none)))
      → drop i config.target_freqs_mhz ≡ fr ∷ post
      → Recorded test config base simulated ts (fr ∷ post)
      → Testing test config base simulated b fr
      → Good (left post b) (
          next_command_fuel
            (suc (suc (length post)))
            (here test config base simulated i ts (some b)))
  Testing-Good i fr ts post b between rest recorded testing =
      let fuel = suc (length post) in
      elim (Option-cases (next_test b).1) [
        | inl over ↦
            let p = tradeoff config base simulated (next_test b).0 in
            let next = between (ts ++ p ∷ []) (
              Recorded-snoc test config base simulated ts p fr post recorded
                (asked_freq test config base simulated b ∙ testing.2)
                (converged-IsFound test config base simulated b fr testing over)) in
            subst (Good (left post b)) (sym (fuel_converged config base simulated fuel i ts b over))
              (Good-more (length post * most + 1) (left post b)
                (next_command_fuel fuel
                  (here test config base simulated (i + 1) (ts ++ p ∷ []) none))
                (omega arith) next)
        | inr (mv, more) ↦
            subst (Good (left post b)) (sym (fuel_asks config base simulated fuel i mv ts b more))
              (ask-Asks i fr mv ts post b rest recorded testing more)
      ]

  between-Good :
      (todo : List ℕ) (i : ℕ) (ts : List TradeoffPoint)
      → drop i config.target_freqs_mhz ≡ todo
      → Recorded test config base simulated ts todo
      → Good
          (length todo * most + 1)
          (next_command_fuel (suc (length todo)) (here test config base simulated i ts none))
  between-Good [] i ts rest recorded =
      subst (Good (length {A = ℕ} [] * most + 1))
        (sym (fuel_ends config base simulated 0 i ts (drop-nil config.target_freqs_mhz i rest)))
        (
          refl,
          sym (append-nil (freqs test config base simulated ts)) ∙ recorded.0,
          recorded.1,
          refl,
        )
  between-Good (fr ∷ post) i ts rest recorded =
      let (head, tail, long) = drop-cons config.target_freqs_mhz post i fr rest in
      let b = start config base simulated fr in
      let fuel = suc (length post) in
      let under_way =
        Testing-Good i fr ts post b (λ us r. between-Good post (i + 1) us tail r) rest recorded
          (start-Testing fr) in
      subst (Good (length (fr ∷ post) * most + 1))
        (sym (fuel_starts config base simulated fuel i fr ts head (omega (arith, long))))
        (Good-more (left post b) (length (fr ∷ post) * most + 1)
          (next_command_fuel (suc fuel) (here test config base simulated i ts (some b)))
          (omega (arith, start-measure fr)) under_way)

  next_asked :
      (n : ℕ) (e : GpuSweepEngine) (p : VfPoint) (a : Asks n e p)
      → Good (left a.post a.search) (next_command (record_verdict e (test p)))
  unfolding next_command
  next_asked n e p a =
      let (head, tail, long) = drop-cons config.target_freqs_mhz a.post a.index a.clock a.rest in
      let fuel : suc (suc (length a.post)) ≡ length config.target_freqs_mhz - a.index + 1 =
        omega (arith, long) in
      rw a.under_way (
        subst
          (λ f. Good (left a.post a.search) (
            next_command_fuel f
              (here test config base simulated a.index a.recorded (some a.search))))
          fuel
          (Testing-Good a.index a.clock a.recorded a.post a.search
            (λ us r. between-Good a.post (a.index + 1) us tail r) a.rest a.is_recorded
            a.is_testing))

  abbrev Ended : Option GpuSweepEngine → Type 0
  Ended none = ⊥
  Ended (some e) = IsFinal e

  drive_on-Ended :
      (m n : ℕ) (o : Emitted) → Good n o → n ≤ m → Ended (drive_on (λ x. drive test m x) test o)
  unfolding drive
  drive_on-Ended m n none g h = absurd g
  drive_on-Ended m n (some (e, finished)) g h = g
  drive_on-Ended zero n (some (e, apply_and_test p)) g h = absurd (omega (arith, g.fewer))
  drive_on-Ended (suc m) n (some (e, apply_and_test p)) g h =
      drive_on-Ended m (left g.post g.search) (next_command (record_verdict e (test p)))
        (next_asked n e p g) (omega (arith, g.fewer))

  first_command :
      Good
        (length config.target_freqs_mhz * most + 1)
        (next_command (new_engine config base simulated))
  unfolding next_command new_engine
  first_command =
      subst
        (λ f.
          Good (length config.target_freqs_mhz * most + 1)
            (next_command_fuel f (here test config base simulated 0 [] none)))
        (omega arith) (between-Good config.target_freqs_mhz 0 [] refl (refl, tt))

  drive-Ended :
      Ended
        (drive test (length config.target_freqs_mhz * most + 2) (new_engine config base simulated))
  drive-Ended =
      let bound = length config.target_freqs_mhz * most + 1 in
      let fuel : suc bound ≡ length config.target_freqs_mhz * most + 2 = omega arith in
      subst (λ m. Ended (drive test m (new_engine config base simulated))) fuel
        (unfold drive in
          drive_on-Ended bound bound (next_command (new_engine config base simulated)) first_command
            (omega arith))

  ended :
      (o : Option GpuSweepEngine)
      → Ended o
      → (e : GpuSweepEngine) × (o ≡ some e)
        × (e.phase ≡ done)
        × (freqs test config base simulated e.tradeoffs ≡ config.target_freqs_mhz)
        × All (IsFound test config base simulated) e.tradeoffs
        × (e.profiles ≡ synthesize_profiles base e.tradeoffs)
  ended none h = absurd h
  ended (some e) h = (e, refl, h.0, h.1, h.2, h.3)

  -- Whatever the verdicts, the sweep ends, after at most the distance from the floor to stock
  -- and two more tests for each clock: the engine is then done, it has one tradeoff point for
  -- each target clock, in order, each at the margin above a minimum that the search at that
  -- clock has found, and its profiles are those of its tradeoff points. The floor is at most
  -- stock, and stock fits in u32.
  pub sweep_completes :
      (e : GpuSweepEngine) × (drive test
          (length config.target_freqs_mhz * (config.stock_mv - config.floor_mv + 2) + 2)
          (new_engine config base simulated)
        ≡ some e)
      × (e.phase ≡ done)
      × (map (λ p. p.freq_mhz) e.tradeoffs ≡ config.target_freqs_mhz)
      × All (IsFound test config base simulated) e.tradeoffs
      × (e.profiles ≡ synthesize_profiles base e.tradeoffs)
  sweep_completes =
      ended
        (drive test (length config.target_freqs_mhz * most + 2) (new_engine config base simulated))
        drive-Ended
