-- ===== src/F2/Entries/Sound.antt =====
-- What the entries of the frontier stand for: `frontier_entry_for_target` and
-- `qualified_frontier_entry_for_target` of `crates/core/src/f2_observation.rs`.
use nidavellir.Shared.{
  ℕ, ◌≤◌, ◌<◌, ◌≡◌, sym, ap, ◌∙◌, subst, ◌⊎◌, inl, inr, false, List, none, some, none-some,
  some-some, ◌++◌, In-append, All-append_left, All, All-In, All-weaken, In, saturating_add,
}
use nidavellir.Shared.Extremes.{min_filter-IsLeast}
use nidavellir.F2.Float.{F64}
use nidavellir.F2.Kinds.{is_validated}
use nidavellir.F2.Observation.{F2Observation, F2FrontierEntry}
use nidavellir.F2.Frontier.{
  voltage_of, candidate_test, discovery_frontier_candidates, frontier_entry_from_best, is_known_bad,
  is_failure, is_crash,
}
use nidavellir.F2.Frontier.Memory.{above-is_known_bad}
use nidavellir.F2.Frontier.Candidate.{IsCandidate, candidate_test_iff}
use nidavellir.F2.Entries.{entry_at, frontier_entry_for_target}

module _ (float : F64) where
  -- The frontier of a target is its candidate at the lowest voltage: a point that validated under the
  -- current contract, above every failure the journal holds for the target and at least 12 mV
  -- above every device loss of the target. There is none exactly if no observation is a candidate.
  pub frontier_entry_lem :
      (obs : List F2Observation) (target : ℕ)
      → ((frontier_entry_for_target float obs target ≡ none)
          × All (λ o. ¬ IsCandidate obs target o) obs)
        ⊎ ((best : F2Observation) × (frontier_entry_for_target float obs target
              ≡ some (frontier_entry_from_best float obs target best))
            × In best obs
            × IsCandidate obs target best
            × All (λ o. (¬ IsCandidate obs target o) ⊎ (best.anchor_mv ≤ o.anchor_mv)) obs)
  unfolding frontier_entry_for_target discovery_frontier_candidates
  frontier_entry_lem obs target =
      elim (min_filter-IsLeast voltage_of (candidate_test obs target) obs) [
        | inl (e, nothing) ↦ inl (
          ap (entry_at float obs target) e,
          All-weaken (λ o. candidate_test obs target o ≡ false) (λ o. ¬ IsCandidate obs target o)
              obs (λ o k. refused o k) nothing,
        )
        | inr (best, e, found, passes, least) ↦ inr (
          best,
          ap (entry_at float obs target) e,
          found,
          (candidate_test_iff obs target best).0 passes,
          All-weaken (λ o. (candidate_test obs target o ≡ false) ⊎ (best.anchor_mv ≤ o.anchor_mv))
              (λ o. (¬ IsCandidate obs target o) ⊎ (best.anchor_mv ≤ o.anchor_mv)) obs
              (λ o k. elim k [ inl left ↦ inl (refused o left) | inr le ↦ inr le ]) least,
        )
      ]
    where
      refused :
          (o : F2Observation) → candidate_test obs target o ≡ false → ¬ IsCandidate obs target o
      refused o k c = let passes = (candidate_test_iff obs target o).1 c in cc

  -- The same, from an entry that exists.
  pub frontier_entry-inversion :
      (obs : List F2Observation) (target : ℕ) (e : F2FrontierEntry)
      → frontier_entry_for_target float obs target ≡ some e
      → (best : F2Observation) × (frontier_entry_from_best float obs target best ≡ e)
        × In best obs
        × IsCandidate obs target best
        × All (λ o. (¬ IsCandidate obs target o) ⊎ (best.anchor_mv ≤ o.anchor_mv)) obs
  frontier_entry-inversion obs target e h = elim (frontier_entry_lem obs target) [
    | inl (nothing, f) ↦ absurd (none-some e (sym nothing ∙ h))
    | inr (best, found, place, candidate, least) ↦ (
      best,
      some-some (frontier_entry_from_best float obs target best) e (sym found ∙ h),
      place,
      candidate,
      least,
    )
  ]

  -- No entry stands at a voltage that the journal knows bad, whatever was written when.
  pub frontier-is_known_bad :
      (obs : List F2Observation) (target : ℕ) (e : F2FrontierEntry)
      → frontier_entry_for_target float obs target ≡ some e
      → is_known_bad obs target e.best_anchor_mv ≡ false
  unfolding frontier_entry_from_best
  frontier-is_known_bad obs target e h =
      let (best, same, place, (t, v, d, above, clear), least) =
        frontier_entry-inversion obs target e h in
      subst (λ x. is_known_bad obs target x.best_anchor_mv ≡ false) same
        (above-is_known_bad obs target best.anchor_mv above)

  -- Learning is cautious: whatever is appended that did not validate, failures, crashes, refusals and
  -- runs without result, no frontier appears where there was none, and none moves to a lower voltage.
  pub frontier-append :
      (obs later : List F2Observation) (target : ℕ) (e : F2FrontierEntry)
      → All (λ o. is_validated o.outcome ≡ false) later
      → frontier_entry_for_target float (obs ++ later) target ≡ some e
      → (d : F2FrontierEntry) × (frontier_entry_for_target float obs target ≡ some d)
        × (d.best_anchor_mv ≤ e.best_anchor_mv)
  unfolding frontier_entry_from_best
  frontier-append obs later target e unproven h =
      let (best, same, place, (t, v, d, above, clear), least) =
        frontier_entry-inversion (obs ++ later) target e h in
      let before : IsCandidate obs target best = (
        t,
        v,
        d,
        All-append_left (λ b. (is_failure target b ≡ false) ⊎ (b.anchor_mv < best.anchor_mv)) obs
            later above,
        All-append_left
            (λ c. (is_crash target c ≡ false) ⊎ (saturating_add c.anchor_mv 12 ≤ best.anchor_mv))
            obs later clear,
      ) in
      let old : In best obs = elim (In-append best obs later place) [
        | inl found ↦ found
        | inr found ↦
            let fails = All-In (λ o. is_validated o.outcome ≡ false) later best unproven found in cc
      ] in
      elim (frontier_entry_lem obs target) [
        | inl (nothing, all_refused) ↦
            absurd (All-In (λ o. ¬ IsCandidate obs target o) obs best all_refused old before)
        | inr (first, found, in_obs, candidate, lowest) ↦ (
          frontier_entry_from_best float obs target first,
          found,
          subst (λ x. first.anchor_mv ≤ x.best_anchor_mv) same
              (elim (All-In (λ o. (¬ IsCandidate obs target o) ⊎ (first.anchor_mv ≤ o.anchor_mv))
                obs best lowest old) [ inl never ↦ absurd (never before) | inr le ↦ le ]),
        )
      ]
