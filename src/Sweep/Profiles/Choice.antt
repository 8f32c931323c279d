-- ===== src/Sweep/Profiles/Choice.antt =====
-- What the three profiles are chosen for, `synthesize_profiles` of `crates/core/src/gpu_sweep.rs`.
use nidavellir.Shared.{
  ℕ, ◌*◌, ◌/◌, ◌≤◌, ◌<◌, ◌≡◌, refl, ap, sym, subst, ◌⊎◌, inl, inr, max, Bool, true, false, List, [],
  ◌∷◌, some, arith, All, In, filter, unwrap_or, if◌then◌else◌, Bool-cases, u32,
}
use nidavellir.Sweep.Profiles.{
  TradeoffPoint, max_from, max_by, min_from, min_by, le_fast, le_efficient, le_calm, holds_baseline,
  to_point, synthesize_profiles,
}

-- An order given by a test.
record IsOrder (le : TradeoffPoint → TradeoffPoint → Bool) : Type 0 where
  reflexive : (p : TradeoffPoint) → le p p ≡ true
  transitive : (p q r : TradeoffPoint) → le p q ≡ true → le q r ≡ true → le p r ≡ true
  total : (p q : TradeoffPoint) → le p q ≡ false → le q p ≡ true

skip_second :
    (a p : TradeoffPoint) (ps : List TradeoffPoint) (m : TradeoffPoint)
    → In m (a ∷ ps)
    → In m (a ∷ p ∷ ps)
skip_second a p ps m (inl e) = inl e
skip_second a p ps m (inr h) = inr (inr h)

module _ (le : TradeoffPoint → TradeoffPoint → Bool) where
  -- One of the points, and no point is above it.
  abbrev IsTop : TradeoffPoint → List TradeoffPoint → TradeoffPoint → Type 0
  IsTop best ps m = In m (best ∷ ps) × (le best m ≡ true) × All (λ p. le p m ≡ true) ps

  abbrev IsBottom : TradeoffPoint → List TradeoffPoint → TradeoffPoint → Type 0
  IsBottom best ps m = In m (best ∷ ps) × (le m best ≡ true) × All (λ p. le m p ≡ true) ps

  max_from_step :
      (best next p : TradeoffPoint) (ps : List TradeoffPoint)
      → (if le best p then p else best) ≡ next
      → max_from le next ps ≡ max_from le best (p ∷ ps)
  unfolding max_from
  max_from_step best next p ps e = ap (λ b. max_from le b ps) (sym e)

  min_from_step :
      (best next p : TradeoffPoint) (ps : List TradeoffPoint)
      → (if le best p then best else p) ≡ next
      → min_from le next ps ≡ min_from le best (p ∷ ps)
  unfolding min_from
  min_from_step best next p ps e = ap (λ b. min_from le b ps) (sym e)

module _ (le : TradeoffPoint → TradeoffPoint → Bool) (order : IsOrder le) where
  max_from-IsTop :
      (best : TradeoffPoint) (ps : List TradeoffPoint) → IsTop le best ps (max_from le best ps)
  max_from-IsTop best [] = unfold max_from in (inl refl, order.reflexive best, tt)
  max_from-IsTop best (p ∷ ps) = elim (Bool-cases (le best p)) [
    | inl up ↦
        let top = max_from-IsTop p ps in
        subst (IsTop le best (p ∷ ps)) (max_from_step le best p p ps (rw up))
          (inr top.0, order.transitive best p (max_from le p ps) up top.1, (top.1, top.2))
    | inr keep ↦
        let top = max_from-IsTop best ps in
        let m = max_from le best ps in
        subst (IsTop le best (p ∷ ps)) (max_from_step le best best p ps (rw keep)) (
          skip_second best p ps m top.0,
          top.1,
          (order.transitive p best m (order.total best p keep) top.1, top.2),
        )
  ]

  min_from-IsBottom :
      (best : TradeoffPoint) (ps : List TradeoffPoint) → IsBottom le best ps (min_from le best ps)
  min_from-IsBottom best [] = unfold min_from in (inl refl, order.reflexive best, tt)
  min_from-IsBottom best (p ∷ ps) = elim (Bool-cases (le best p)) [
    | inl keep ↦
        let low = min_from-IsBottom best ps in
        let m = min_from le best ps in
        subst (IsBottom le best (p ∷ ps)) (min_from_step le best best p ps (rw keep))
          (skip_second best p ps m low.0, low.1, (order.transitive m best p low.1 keep, low.2))
    | inr down ↦
        let low = min_from-IsBottom p ps in
        subst (IsBottom le best (p ∷ ps)) (min_from_step le best p p ps (rw down)) (
          inr low.0,
          order.transitive (min_from le p ps) p best low.1 (order.total best p down),
          (low.1, low.2),
        )
  ]

le_fast-IsOrder : IsOrder le_fast
le_fast-IsOrder = record {
  reflexive = λ p. ground arith;
  transitive = λ p q r h k. ground arith;
  total = λ p q h. ground arith;
}

le_efficient-IsOrder : IsOrder le_efficient
le_efficient-IsOrder = record {
  reflexive = λ p. ground arith;
  transitive = λ p q r h k. ground arith;
  total = λ p q h. ground arith;
}

le_calm-IsOrder : IsOrder le_calm
le_calm-IsOrder = record {
  reflexive = λ p. ground arith;
  transitive = λ p q r h k. ground arith;
  total = λ p q h. ground arith;
}

-- No point is faster, and none as fast runs at a lower voltage.
abbrev pub IsFastest : TradeoffPoint → TradeoffPoint → Type 0
IsFastest g p = (p.freq_mhz < g.freq_mhz) ⊎ ((p.freq_mhz ≡ g.freq_mhz) × (g.vmin_mv ≤ p.vmin_mv))

-- No point gives more MHz for a mV, in whole thousandths.
abbrev pub IsEfficient : TradeoffPoint → TradeoffPoint → Type 0
IsEfficient b p = p.freq_mhz * 1000 / max p.vmin_mv 1 ≤ b.freq_mhz * 1000 / max b.vmin_mv 1

-- Of the points that hold 95% of the baseline none runs at a lower voltage, and none at the same
-- voltage is faster.
abbrev pub IsCalm : ℕ → TradeoffPoint → TradeoffPoint → Type 0
IsCalm baseline c p =
    (p.freq_mhz < u32 (baseline * 95 / 100))
    ⊎ ((u32 (baseline * 95 / 100) ≤ c.freq_mhz)
        × ((c.vmin_mv < p.vmin_mv) ⊎ ((c.vmin_mv ≡ p.vmin_mv) × (p.freq_mhz ≤ c.freq_mhz))))

All-IsFastest :
    (g : TradeoffPoint) (ps : List TradeoffPoint)
    → All (λ p. le_fast p g ≡ true) ps
    → All (IsFastest g) ps
All-IsFastest g [] h = tt
All-IsFastest g (p ∷ ps) h = (ground arith, All-IsFastest g ps h.1)

All-IsEfficient :
    (b : TradeoffPoint) (ps : List TradeoffPoint)
    → All (λ p. le_efficient p b ≡ true) ps
    → All (IsEfficient b) ps
All-IsEfficient b [] h = tt
All-IsEfficient b (p ∷ ps) h = (ground arith, All-IsEfficient b ps h.1)

-- The calm choice: the least of the points that hold the baseline, or the fastest point if none does.
All-IsCalm :
    (baseline : ℕ) (c : TradeoffPoint) (ps : List TradeoffPoint)
    → holds_baseline baseline c ≡ true
    → All (λ p. le_calm c p ≡ true) (filter (holds_baseline baseline) ps)
    → All (IsCalm baseline c) ps
All-IsCalm baseline c [] holds h = tt
All-IsCalm baseline c (p ∷ ps) holds h = elim (Bool-cases (holds_baseline baseline p)) [
  | inl kept ↦
      let passed : All (λ q. le_calm c q ≡ true) (p ∷ filter (holds_baseline baseline) ps) =
        subst
          (λ b.
            All (λ q. le_calm c q ≡ true)
              (if b
                then p ∷ filter (holds_baseline baseline) ps
                else filter (holds_baseline baseline) ps))
          kept h in
      (inr (ground arith), All-IsCalm baseline c ps holds passed.1)
  | inr left ↦
      let passed : All (λ q. le_calm c q ≡ true) (filter (holds_baseline baseline) ps) =
        subst
          (λ b.
            All (λ q. le_calm c q ≡ true)
              (if b
                then p ∷ filter (holds_baseline baseline) ps
                else filter (holds_baseline baseline) ps))
          left h in
      (inl (ground arith), All-IsCalm baseline c ps holds passed)
]

All-IsCalm_none :
    (baseline : ℕ) (c : TradeoffPoint) (ps : List TradeoffPoint)
    → filter (holds_baseline baseline) ps ≡ []
    → All (IsCalm baseline c) ps
All-IsCalm_none baseline c [] h = tt
All-IsCalm_none baseline c (p ∷ ps) h =
    (inl (ground arith), All-IsCalm_none baseline c ps (ground arith))

In-filter_kept :
    (f : TradeoffPoint → Bool) (c p : TradeoffPoint) (ps : List TradeoffPoint)
    → f p ≡ true
    → (In c (filter f ps) → In c ps × (f c ≡ true))
    → In c (p ∷ filter f ps)
    → In c (p ∷ ps) × (f c ≡ true)
In-filter_kept f c p ps kept rest (inl e) = (inl e, subst (λ q. f q ≡ true) (sym e) kept)
In-filter_kept f c p ps kept rest (inr h) = (inr (rest h).0, (rest h).1)

In-filter :
    (f : TradeoffPoint → Bool) (c : TradeoffPoint) (ps : List TradeoffPoint)
    → In c (filter f ps)
    → In c ps × (f c ≡ true)
In-filter f c [] h = absurd h
In-filter f c (p ∷ ps) h = elim (Bool-cases (f p)) [
  | inl kept ↦
      In-filter_kept f c p ps kept (In-filter f c ps)
        (subst (λ b. In c (if b then p ∷ filter f ps else filter f ps)) kept h)
  | inr left ↦
      let (found, passed) =
        In-filter f c ps (subst (λ b. In c (if b then p ∷ filter f ps else filter f ps)) left h) in
      (inr found, passed)
]

-- The calm choice among the points: the least of those that hold the baseline, or the fastest point.
min_by-IsCalm :
    (baseline : ℕ) (g : TradeoffPoint) (points : List TradeoffPoint)
    → In g points
    → let c = unwrap_or (min_by le_calm (filter (holds_baseline baseline) points)) g in
      In c points × All (IsCalm baseline c) points
unfolding min_by
min_by-IsCalm baseline g points h = go (filter (holds_baseline baseline) points) refl
  where
    go :
        (kept : List TradeoffPoint)
        → filter (holds_baseline baseline) points ≡ kept
        → let c = unwrap_or (min_by le_calm kept) g in In c points × All (IsCalm baseline c) points
    go [] e = (h, All-IsCalm_none baseline g points e)
    go (p ∷ ps) e =
        let c = min_from le_calm p ps in
        let low = min_from-IsBottom le_calm le_calm-IsOrder p ps in
        let (found, holds) =
          In-filter (holds_baseline baseline) c points (subst (In c) (sym e) low.0) in
        (
          found,
          All-IsCalm baseline c points holds
              (subst (All (λ q. le_calm c q ≡ true)) (sym e) (low.1, low.2)),
        )

-- The three profiles exist for every tradeoff map that is not empty, and stand at points of it. Godforge
-- is at the highest clock, at its lowest voltage; Brokkr's Best has the best ratio of clock to voltage;
-- Deep Calm has the lowest voltage among the points that hold 95% of the baseline clock.
pub synthesize_profiles_lem :
    (baseline : ℕ) (p : TradeoffPoint) (ps : List TradeoffPoint)
    → let points = p ∷ ps in
      (g b c : TradeoffPoint) × (synthesize_profiles baseline points
        ≡ some
            (record { godforge = to_point g; brokkrs_best = to_point b; deep_calm = to_point c }))
      × (In g points × All (IsFastest g) points)
      × (In b points × All (IsEfficient b) points)
      × (In c points × All (IsCalm baseline c) points)
unfolding synthesize_profiles max_by
synthesize_profiles_lem baseline p ps =
    let points = p ∷ ps in
    let g = max_from le_fast p ps in
    let b = max_from le_efficient p ps in
    let fast = max_from-IsTop le_fast le_fast-IsOrder p ps in
    let efficient = max_from-IsTop le_efficient le_efficient-IsOrder p ps in
    let calm = min_by-IsCalm baseline g points fast.0 in
    (
      g,
      b,
      unwrap_or (min_by le_calm (filter (holds_baseline baseline) points)) g,
      refl,
      (fast.0, All-IsFastest g points (fast.1, fast.2)),
      (efficient.0, All-IsEfficient b points (efficient.1, efficient.2)),
      calm,
    )
