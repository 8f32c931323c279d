-- ===== src/F2/Entries/Qualified.antt =====
-- What may be published: `qualified_frontier_entry_for_target` of
-- `crates/core/src/f2_observation.rs`.
use nidavellir.Shared.{
  ℕ, ◌≤◌, ◌≡◌, refl, sym, ap, ◌∙◌, subst, ◌⊎◌, inl, inr, ◌==◌, Bool, true, ◌&&◌, ◌||◌, List, some,
  none-some, some-some, arith, All-In, In, any, any-In, any-found, In-filter_kept, filter,
}
use nidavellir.Shared.Extremes.{min_by_key, min_by_key-IsLeast, In-filter}
use nidavellir.F2.Float.{F64}
use nidavellir.F2.Kinds.{qualification, eq_kind, texture, is_validated}
use nidavellir.F2.Observation.{F2Observation, F2FrontierEntry}
use nidavellir.F2.Evidence.{
  is_some_and, f2_qualification_contract_version, has_proven_cleanup, has_reproducible_provenance,
  covers_required, is_current_discovery_evidence, is_current_qualification_pass,
}
use nidavellir.F2.Frontier.{
  voltage_of, candidate_test, discovery_frontier_candidates, frontier_entry_from_best,
  is_qualified_at, is_evidence_at, proves,
}
use nidavellir.F2.Frontier.Candidate.{IsCandidate, candidate_test_iff}
use nidavellir.F2.Entries.{entry_at, frontier_entry_for_target, qualified_frontier_entry_for_target}
use nidavellir.F2.Entries.Sound.{frontier_entry_lem}

-- An observation at this voltage is a current pass of the Texture pattern.
abbrev pub IsTexturePass : ℕ → ℕ → F2Observation → Type 0
IsTexturePass target mv o = (o.target_mhz ≡ target) × (o.anchor_mv ≡ mv) × (proves texture o ≡ true)

qualified-IsTexturePass :
    (obs : List F2Observation) (target : ℕ) (best : F2Observation)
    → is_qualified_at obs target best ≡ true
    → (o : F2Observation) × In o obs × IsTexturePass target best.anchor_mv o
qualified-IsTexturePass obs target best h =
    let (o, found, passes) =
      any-found (λ o. o.target_mhz == target && o.anchor_mv == best.anchor_mv && proves texture o)
        obs (and_true _ h) in
    (o, found, parts o.target_mhz target o.anchor_mv best.anchor_mv (proves texture o) passes)
  where
    and_true : (b : Bool) → (b && true) ≡ true → b ≡ true
    and_true b h = ground arith

    parts :
        (t target a mv : ℕ) (p : Bool)
        → (t == target && a == mv && p) ≡ true
        → (t ≡ target) × (a ≡ mv) × (p ≡ true)
    parts t target a mv p h = ground arith

proves-pass : (o : F2Observation) → proves texture o ≡ true → is_current_qualification_pass o ≡ true
proves-pass o h = first (is_current_qualification_pass o) _ h
  where
    first : (b c : Bool) → (b && c) ≡ true → b ≡ true
    first b c h = ground arith

pass-is_validated :
    (o : F2Observation) → is_current_qualification_pass o ≡ true → is_validated o.outcome ≡ true
unfolding is_current_qualification_pass
pass-is_validated o h =
    third (eq_kind o.evidence_kind qualification)
      (is_some_and o.qualification_contract_version (λ v. v == f2_qualification_contract_version))
      (is_validated o.outcome) (has_proven_cleanup o) (has_reproducible_provenance o)
      (is_some_and o.qualification_coverage covers_required) h
  where
    third : (b c d e f g : Bool) → (b && c && d && e && f && g) ≡ true → d ≡ true
    third b c d e f g h = ground arith

evidence-at :
    (target mv : ℕ) (o : F2Observation)
    → IsTexturePass target mv o
    → is_evidence_at target mv o ≡ true
evidence-at target mv o (t, a, p) =
    let passed = proves-pass o p in
    joined o.target_mhz target o.anchor_mv mv (is_validated o.outcome)
      (is_current_discovery_evidence o) (is_current_qualification_pass o) t a passed
      (pass-is_validated o passed)
  where
    joined :
        (t target a mv : ℕ) (v d q : Bool)
        → t ≡ target
        → a ≡ mv
        → q ≡ true
        → v ≡ true
        → (t == target && v && a == mv && (d || q)) ≡ true
    joined t target a mv v d q e f g k = ground arith

module _ (float : F64) where
  -- The one required pattern is counted.
  counted :
      (obs : List F2Observation) (target : ℕ) (best o : F2Observation)
      → In o obs
      → IsTexturePass target best.anchor_mv o
      → (frontier_entry_from_best float obs target best).validation_count ≡ 1
  unfolding frontier_entry_from_best
  counted obs target best o found h =
      let (t, a, passed) = h in
      let at : any (proves texture) (filter (is_evidence_at target best.anchor_mv) obs) ≡ true =
        any-In (proves texture) o (filter (is_evidence_at target best.anchor_mv) obs)
          (In-filter_kept (is_evidence_at target best.anchor_mv) o obs found
            (evidence-at target best.anchor_mv o h))
          passed in
      rw at

  -- Published knowledge: the entry stands for a discovery candidate, a current pass of the required
  -- Texture pattern is recorded at exactly its voltage and counted, and the physical frontier exists, at
  -- this voltage or a deeper one.
  abbrev pub IsPublishable : List F2Observation → ℕ → F2FrontierEntry → Type 0
  IsPublishable obs target e =
      ((best : F2Observation) × (frontier_entry_from_best float obs target best ≡ e)
        × In best obs
        × IsCandidate obs target best)
      × ((o : F2Observation) × In o obs × IsTexturePass target e.best_anchor_mv o)
      × (e.validation_count ≡ 1)
      × ((d : F2FrontierEntry) × (frontier_entry_for_target float obs target ≡ some d)
          × (d.best_anchor_mv ≤ e.best_anchor_mv))

  frontier-below :
      (obs : List F2Observation) (target : ℕ) (best : F2Observation)
      → In best obs
      → IsCandidate obs target best
      → (d : F2FrontierEntry) × (frontier_entry_for_target float obs target ≡ some d)
        × (d.best_anchor_mv ≤ best.anchor_mv)
  unfolding frontier_entry_from_best
  frontier-below obs target best place candidate = elim (frontier_entry_lem float obs target) [
    | inl (nothing, refused) ↦
        absurd (All-In (λ o. ¬ IsCandidate obs target o) obs best refused place candidate)
    | inr (first, found, there, sound, least) ↦ (
      frontier_entry_from_best float obs target first,
      found,
      elim (All-In (λ o. (¬ IsCandidate obs target o) ⊎ (first.anchor_mv ≤ o.anchor_mv)) obs best
          least place) [ inl never ↦ absurd (never candidate) | inr le ↦ le ],
    )
  ]

  least-entry :
      (obs : List F2Observation) (target : ℕ) (e : F2FrontierEntry) (xs : List F2Observation)
      → entry_at float obs target (min_by_key voltage_of xs) ≡ some e
      → (best : F2Observation) × (frontier_entry_from_best float obs target best ≡ e) × In best xs
  least-entry obs target e xs h = elim (min_by_key-IsLeast voltage_of xs) [
    | inl (nothing, empty) ↦ absurd (none-some e (sym (ap (entry_at float obs target) nothing) ∙ h))
    | inr (best, found, least) ↦ (
      best,
      some-some (frontier_entry_from_best float obs target best) e
          (sym (ap (entry_at float obs target) found) ∙ h),
      least.0,
    )
  ]

  best-IsPublishable :
      (obs : List F2Observation) (target : ℕ) (best : F2Observation)
      → In best (discovery_frontier_candidates obs target)
      → is_qualified_at obs target best ≡ true
      → IsPublishable obs target (frontier_entry_from_best float obs target best)
  unfolding discovery_frontier_candidates frontier_entry_from_best
  best-IsPublishable obs target best place qualified =
      let (there, passes) = In-filter (candidate_test obs target) best obs place in
      let candidate = (candidate_test_iff obs target best).0 passes in
      let (o, found, passed) = qualified-IsTexturePass obs target best qualified in
      (
        (best, refl, there, candidate),
        (o, found, passed),
        counted obs target best o found passed,
        frontier-below obs target best there candidate,
      )

  -- What the qualified frontier offers for publication is proved twice over: it is a discovery
  -- candidate, a current pass of the required Texture pattern was recorded at exactly its voltage, its
  -- entry counts that pass, and the physical frontier of the target is at its voltage or deeper.
  pub qualified_entry_lem :
      (obs : List F2Observation) (target : ℕ) (e : F2FrontierEntry)
      → qualified_frontier_entry_for_target float obs target ≡ some e
      → IsPublishable obs target e
  unfolding qualified_frontier_entry_for_target
  qualified_entry_lem obs target e h =
      let (best, same, found) =
        least-entry obs target e
          (filter (is_qualified_at obs target) (discovery_frontier_candidates obs target)) h in
      let (place, qualified) =
        In-filter (is_qualified_at obs target) best (discovery_frontier_candidates obs target)
          found in
      subst (IsPublishable obs target) same (best-IsPublishable obs target best place qualified)
