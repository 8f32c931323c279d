-- ===== src/F2/Entries/Learned.antt =====
-- The whole frontier: `learned_frontier`, `learned_frontier_for_gpu` and `qualified_frontier_for_gpu` of
-- `crates/core/src/f2_observation.rs`.
use nidavellir.Shared.{
  ℕ, ◌<◌, ◌≡◌, refl, sym, ap, ◌∙◌, subst, ◌↔◌, inl, inr, Bool, false, String, List, [], ◌∷◌, ◌++◌,
  map, Option, some, All, In, filter, Option-cases,
}
use nidavellir.SafeLoop.Record.{opt_eq}
use nidavellir.F2.Float.{F64}
use nidavellir.F2.Observation.{F2Observation, F2FrontierEntry}
use nidavellir.F2.Frontier.{frontier_entry_from_best}
use nidavellir.F2.Entries.{
  cons_some, filter_map, targets_of, scoped, frontier_entry_for_target,
  qualified_frontier_entry_for_target, learned_frontier, learned_frontier_for_gpu,
  qualified_frontier_for_gpu,
}
use nidavellir.F2.Entries.Sound.{frontier_entry-inversion}
use nidavellir.F2.Entries.Targets.{IsAscending, targets_of-IsAscending, In-targets_of}

module _ (f : ℕ → Option F2FrontierEntry) where
  In-filter_map :
      (e : F2FrontierEntry) (ts : List ℕ) → In e (filter_map f ts) → (t : ℕ) × (f t ≡ some e)
  In-filter_map e [] h = absurd h
  In-filter_map e (t ∷ ts) h = elim (Option-cases (f t)) [
    | inl p ↦ In-filter_map e ts (subst (λ o. In e (cons_some o (filter_map f ts))) p h)
    | inr (d, p) ↦
        elim (subst (λ o. In e (cons_some o (filter_map f ts))) p h)
          as (λ h. (t : ℕ) × (f t ≡ some e)) [
            | inl q ↦ (t, p ∙ ap some (sym q))
            | inr k ↦ In-filter_map e ts k
          ]
  ]

  In-filter_map_at :
      (e : F2FrontierEntry) (t : ℕ) (ts : List ℕ) → In t ts → f t ≡ some e → In e (filter_map f ts)
  In-filter_map_at e t [] h p = absurd h
  In-filter_map_at e t (u ∷ ts) (inl q) p = rw (sym (ap f q), p) (inl refl)
  In-filter_map_at e t (u ∷ ts) (inr h) p = elim (Option-cases (f u)) [
    | inl q ↦ rw q (In-filter_map_at e t ts h p)
    | inr (d, q) ↦ rw q (inr (In-filter_map_at e t ts h p))
  ]

  -- Entries whose targets are those that they were built for.
  module _ (own : (t : ℕ) (e : F2FrontierEntry) → f t ≡ some e → e.target_mhz ≡ t) where
    filter_map-All :
        (n : ℕ) (ts : List ℕ)
        → All (λ t. n < t) ts
        → All (λ t. n < t) (map (λ e. e.target_mhz) (filter_map f ts))
    filter_map-All n [] h = tt
    filter_map-All n (t ∷ ts) h = elim (Option-cases (f t)) [
      | inl p ↦ rw p (filter_map-All n ts h.1)
      | inr (e, p) ↦ rw p (subst (λ m. n < m) (sym (own t e p)) h.0, filter_map-All n ts h.1)
    ]

    filter_map-IsAscending :
        (ts : List ℕ) → IsAscending ts → IsAscending (map (λ e. e.target_mhz) (filter_map f ts))
    filter_map-IsAscending [] h = tt
    filter_map-IsAscending (t ∷ ts) h = elim (Option-cases (f t)) [
      | inl p ↦ rw p (filter_map-IsAscending ts h.1)
      | inr (e, p) ↦ rw p (
        subst (λ m. All (λ u. m < u) (map (λ e. e.target_mhz) (filter_map f ts))) (sym (own t e p))
            (filter_map-All t ts h.0),
        filter_map-IsAscending ts h.1,
      )
    ]

filter-other :
    {A : Type 0} (p : A → Bool) (pre : List A) (o : A) (post : List A)
    → p o ≡ false
    → filter p (pre ++ o ∷ post) ≡ filter p (pre ++ post)
filter-other p [] o post h = rw h
filter-other p (x ∷ pre) o post h = rw (filter-other p pre o post h)

scoped-other :
    (gpu : String) (pre : List F2Observation) (o : F2Observation) (post : List F2Observation)
    → opt_eq o.gpu_key (some gpu) ≡ false
    → scoped gpu (pre ++ o ∷ post) ≡ scoped gpu (pre ++ post)
unfolding scoped
scoped-other gpu pre o post h = filter-other (λ x. opt_eq x.gpu_key (some gpu)) pre o post h

module _ (float : F64) where
  pub entry-target :
      (obs : List F2Observation) (t : ℕ) (e : F2FrontierEntry)
      → frontier_entry_for_target float obs t ≡ some e
      → e.target_mhz ≡ t
  unfolding frontier_entry_from_best
  entry-target obs t e h =
      let (best, same, place, candidate, least) = frontier_entry-inversion float obs t e h in
      ap (λ x. x.target_mhz) (sym same)

  -- The learned frontier is in strictly ascending order of its targets, and it has exactly the entries
  -- that some target has: no target with a candidate is left out.
  pub learned_frontier_lem :
      (obs : List F2Observation) (e : F2FrontierEntry)
      → IsAscending (map (λ x. x.target_mhz) (learned_frontier float obs))
        × (In e (learned_frontier float obs)
            ↔ ((t : ℕ) × (frontier_entry_for_target float obs t ≡ some e)))
  unfolding learned_frontier
  learned_frontier_lem obs e =
      let f = frontier_entry_for_target float obs in
      (
        filter_map-IsAscending f (entry-target obs) (targets_of obs) (targets_of-IsAscending obs),
        (
          In-filter_map f e (targets_of obs),
          λ (t, h).
              let (best, same, place, candidate, least) =
                frontier_entry-inversion float obs t e h in
              let (at, validates, evident, above, clear) = candidate in
              In-filter_map_at f e t (targets_of obs)
                (subst (λ u. In u (targets_of obs)) at (In-targets_of best obs place)) h,
        ),
      )

  -- Wherever an observation of another GPU, or of none that is named, stands in the journal, the
  -- learned and the qualified frontier of this GPU are as without it.
  pub other_gpu_ignored :
      (gpu : String) (pre : List F2Observation) (o : F2Observation) (post : List F2Observation)
      → opt_eq o.gpu_key (some gpu) ≡ false
      → (learned_frontier_for_gpu float (pre ++ o ∷ post) gpu
          ≡ learned_frontier_for_gpu float (pre ++ post) gpu)
        × (qualified_frontier_for_gpu float (pre ++ o ∷ post) gpu
            ≡ qualified_frontier_for_gpu float (pre ++ post) gpu)
  unfolding learned_frontier_for_gpu qualified_frontier_for_gpu
  other_gpu_ignored gpu pre o post other =
      let same = scoped-other gpu pre o post other in
      (
        ap (learned_frontier float) same,
        ap (λ own. filter_map (qualified_frontier_entry_for_target float own) (targets_of own))
            same,
      )
