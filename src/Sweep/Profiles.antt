-- ===== src/Sweep/Profiles.antt =====
-- `synthesize_profiles` of `crates/core/src/gpu_sweep.rs`. `max_by_key` keeps the last of equal
-- maxima, `min_by_key` the first of equal minima. Names and descriptions of the profiles are fixed
-- texts and left out.
pub mod Choice
use nidavellir.Shared.{
  ℕ, ◌*◌, ◌/◌, ◌==◌, max, ltb, leb, Bool, true, false, ◌&&◌, ◌||◌, List, [], ◌∷◌, Option, none,
  some, if◌then◌else◌, filter, unwrap_or, u32,
}
use nidavellir.Sweep.Stability.{VfPoint}

pub record TradeoffPoint : Type 0 where
  pub freq_mhz : ℕ
  pub vmin_mv : ℕ

pub record GpuProfileSet : Type 0 where
  pub godforge : VfPoint
  pub brokkrs_best : VfPoint
  pub deep_calm : VfPoint

-- `iter().max_by_key`, for an order of the keys given as "at most".
unfoldable pub max_from :
    (TradeoffPoint → TradeoffPoint → Bool) → TradeoffPoint → List TradeoffPoint → TradeoffPoint
max_from le best [] = best
max_from le best (p ∷ ps) = max_from le (if le best p then p else best) ps

unfoldable pub max_by :
    (TradeoffPoint → TradeoffPoint → Bool) → List TradeoffPoint → Option TradeoffPoint
unfolding max_from
max_by le [] = none
max_by le (p ∷ ps) = some (max_from le p ps)

-- `iter().min_by_key`
unfoldable pub min_from :
    (TradeoffPoint → TradeoffPoint → Bool) → TradeoffPoint → List TradeoffPoint → TradeoffPoint
min_from le best [] = best
min_from le best (p ∷ ps) = min_from le (if le best p then best else p) ps

unfoldable pub min_by :
    (TradeoffPoint → TradeoffPoint → Bool) → List TradeoffPoint → Option TradeoffPoint
unfolding min_from
min_by le [] = none
min_by le (p ∷ ps) = some (min_from le p ps)

-- `(freq_mhz, Reverse(vmin_mv))`
abbrev pub le_fast : TradeoffPoint → TradeoffPoint → Bool
le_fast p q = ltb p.freq_mhz q.freq_mhz || (p.freq_mhz == q.freq_mhz && leb q.vmin_mv p.vmin_mv)

-- MHz per mV, in thousandths.
abbrev pub efficiency : TradeoffPoint → ℕ
efficiency p = p.freq_mhz * 1000 / max p.vmin_mv 1

abbrev pub le_efficient : TradeoffPoint → TradeoffPoint → Bool
le_efficient p q = leb (efficiency p) (efficiency q)

-- `(vmin_mv, Reverse(freq_mhz))`
abbrev pub le_calm : TradeoffPoint → TradeoffPoint → Bool
le_calm p q = ltb p.vmin_mv q.vmin_mv || (p.vmin_mv == q.vmin_mv && leb q.freq_mhz p.freq_mhz)

abbrev pub threshold : ℕ → ℕ
threshold baseline = u32 (baseline * 95 / 100)

abbrev pub holds_baseline : ℕ → TradeoffPoint → Bool
holds_baseline baseline p = leb (threshold baseline) p.freq_mhz

abbrev pub to_point : TradeoffPoint → VfPoint
to_point p = record { freq_mhz = p.freq_mhz; voltage_mv = p.vmin_mv }

abbrev pub profiles_of :
    ℕ → List TradeoffPoint → Option TradeoffPoint → Option TradeoffPoint → Option GpuProfileSet
profiles_of baseline points none brokkrs = none
profiles_of baseline points (some godforge) none = none
profiles_of baseline points (some godforge) (some brokkrs) =
    let calm = unwrap_or (min_by le_calm (filter (holds_baseline baseline) points)) godforge in
    some (record {
      godforge = to_point godforge;
      brokkrs_best = to_point brokkrs;
      deep_calm = to_point calm;
    })

unfoldable pub synthesize_profiles : ℕ → List TradeoffPoint → Option GpuProfileSet
synthesize_profiles baseline points =
    profiles_of baseline points (max_by le_fast points) (max_by le_efficient points)
