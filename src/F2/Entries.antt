-- ===== src/F2/Entries.antt =====
-- The entries of the frontier, `frontier_entry_for_target` to `qualified_frontier_for_gpu` of
-- `crates/core/src/f2_observation.rs`. A sort of u32 is an insertion sort: every sort gives this list.
pub mod Sound
pub mod Qualified
pub mod Targets
pub mod Learned
use nidavellir.Shared.{
  ℕ, ◌==◌, leb, String, Bool, ◌&&◌, List, [], ◌∷◌, map, Option, none, some, if◌then◌else◌, filter,
}
use nidavellir.Shared.Extremes.{min_by_key}
use nidavellir.SafeLoop.Record.{opt_eq}
use nidavellir.F2.Float.{F64}
use nidavellir.F2.Observation.{F2Observation, F2FrontierEntry}
use nidavellir.F2.Frontier.{
  voltage_of, discovery_frontier_candidates, is_qualified_at, frontier_entry_from_best,
}

abbrev pub insert_target : ℕ → List ℕ → List ℕ
insert_target n [] = n ∷ []
insert_target n (m ∷ ms) = if leb n m then n ∷ m ∷ ms else m ∷ insert_target n ms

-- `sort_unstable`
abbrev pub sort_targets : List ℕ → List ℕ
sort_targets [] = []
sort_targets (n ∷ ns) = insert_target n (sort_targets ns)

abbrev pub dedup_from : ℕ → List ℕ → List ℕ
dedup_from n [] = n ∷ []
dedup_from n (m ∷ ms) = if n == m then dedup_from n ms else n ∷ dedup_from m ms

-- `dedup`
abbrev pub dedup : List ℕ → List ℕ
dedup [] = []
dedup (n ∷ ns) = dedup_from n ns

abbrev pub cons_some {ℓ} : {A : Type ℓ} → Option A → List A → List A
cons_some none xs = xs
cons_some (some x) xs = x ∷ xs

-- `filter_map(f)`
abbrev pub filter_map {ℓ κ} : {A : Type ℓ} {B : Type κ} → (A → Option B) → List A → List B
filter_map f [] = []
filter_map f (x ∷ xs) = cons_some (f x) (filter_map f xs)

unfoldable pub targets_of : List F2Observation → List ℕ
targets_of obs = dedup (sort_targets (map (λ o. o.target_mhz) obs))

unfoldable pub scoped : String → List F2Observation → List F2Observation
scoped gpu obs = filter (λ o. opt_eq o.gpu_key (some gpu)) obs

module _ (float : F64) where
  abbrev pub entry_at : List F2Observation → ℕ → Option F2Observation → Option F2FrontierEntry
  entry_at obs target none = none
  entry_at obs target (some best) = some (frontier_entry_from_best float obs target best)

  unfoldable pub frontier_entry_for_target : List F2Observation → ℕ → Option F2FrontierEntry
  frontier_entry_for_target obs target =
      entry_at obs target (min_by_key voltage_of (discovery_frontier_candidates obs target))

  unfoldable pub qualified_frontier_entry_for_target :
      List F2Observation → ℕ → Option F2FrontierEntry
  qualified_frontier_entry_for_target obs target = entry_at obs target (
      min_by_key voltage_of
        (filter (is_qualified_at obs target) (discovery_frontier_candidates obs target)))

  unfoldable pub learned_frontier : List F2Observation → List F2FrontierEntry
  unfolding targets_of
  learned_frontier obs = filter_map (frontier_entry_for_target obs) (targets_of obs)

  unfoldable pub learned_frontier_for_gpu : List F2Observation → String → List F2FrontierEntry
  learned_frontier_for_gpu obs gpu = learned_frontier (scoped gpu obs)

  unfoldable pub qualified_frontier_for_gpu : List F2Observation → String → List F2FrontierEntry
  unfolding targets_of
  qualified_frontier_for_gpu obs gpu =
      let own = scoped gpu obs in
      filter_map (qualified_frontier_entry_for_target own) (targets_of own)
