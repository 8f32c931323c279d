-- ===== src/Tests/F2.antt =====
-- Runs of the F2 functions on a journal in small, and uses of their theorems on it.
use nidavellir.Shared.{
  ℕ, ◌≤◌, ◌≡◌, refl, ◌↔◌, ◌⊎◌, true, false, List, [], ◌∷◌, ◌++◌, map, Option, none, some, All, In,
}
use nidavellir.Shared.Extremes.{min_by_key, max_by_key}
use nidavellir.F2.Observation.{F2Observation, F2FrontierEntry, VoltageBracket}
use nidavellir.F2.Evidence.{
  is_reproducible, is_current_discovery_evidence, is_current_qualification_pass,
  is_required_qualification_pattern, required_pattern_index,
}
use nidavellir.F2.Frontier.{
  anchor_of, first_bad_for_target, last_good_for_target, bracket_for_target, is_known_bad,
  is_failure, crash_floor_for_target, frontier_entry_from_best, discovery_frontier_candidates,
}
use nidavellir.F2.Frontier.Bracket.{IsGood, IsBracket, bracket_lem}
use nidavellir.F2.Frontier.Candidate.{IsCandidate}
use nidavellir.F2.Entries.{
  frontier_entry_for_target, qualified_frontier_entry_for_target, learned_frontier,
}
use nidavellir.F2.Entries.Sound.{frontier_entry_lem, frontier-append}
use nidavellir.F2.Entries.Qualified.{IsPublishable, qualified_entry_lem}
use nidavellir.F2.Entries.Targets.{IsAscending}
use nidavellir.F2.Entries.Learned.{learned_frontier_lem}
use nidavellir.Tests.Journal.{rough, seen_at, dropped_at, lost_at, journal}

-- What the small journal adds up to.
bounds_of_journal :
    (anchor_of (first_bad_for_target journal 1900) ≡ some 860)
    × (crash_floor_for_target journal 1900 ≡ some 860)
    × (anchor_of (last_good_for_target journal 1900) ≡ some 870)
    × (is_known_bad journal 1900 860 ≡ true)
    × (is_known_bad journal 1900 861 ≡ false)
unfolding min_by_key max_by_key first_bad_for_target crash_floor_for_target last_good_for_target
    is_known_bad
bounds_of_journal = (refl, refl, refl, refl, refl)

abbrev best_of : Option F2FrontierEntry → Option ℕ
best_of none = none
best_of (some e) = some e.best_anchor_mv

-- Discovery is at 875 mV, which was never qualified; 900 mV may be published.
frontiers_of_journal :
    (best_of (frontier_entry_for_target rough journal 1900) ≡ some 875)
    × (best_of (qualified_frontier_entry_for_target rough journal 1900) ≡ some 900)
unfolding min_by_key max_by_key frontier_entry_for_target qualified_frontier_entry_for_target
    discovery_frontier_candidates first_bad_for_target crash_floor_for_target
    is_current_discovery_evidence is_reproducible is_current_qualification_pass
    is_required_qualification_pattern required_pattern_index frontier_entry_from_best
frontiers_of_journal = (refl, refl)

abbrev deep : F2FrontierEntry
deep = frontier_entry_from_best rough journal 1900 (seen_at 875)

journal-frontier : frontier_entry_for_target rough journal 1900 ≡ some deep
unfolding min_by_key max_by_key frontier_entry_for_target discovery_frontier_candidates
    first_bad_for_target crash_floor_for_target is_current_discovery_evidence is_reproducible
    frontier_entry_from_best
journal-frontier = refl

frontier_entry_lem_example :
    ((frontier_entry_for_target rough journal 1900 ≡ none)
      × All (λ o. ¬ IsCandidate journal 1900 o) journal)
    ⊎ ((best : F2Observation) × (frontier_entry_for_target rough journal 1900
          ≡ some (frontier_entry_from_best rough journal 1900 best))
        × In best journal
        × IsCandidate journal 1900 best
        × All (λ o. (¬ IsCandidate journal 1900 o) ⊎ (best.anchor_mv ≤ o.anchor_mv)) journal)
frontier_entry_lem_example = frontier_entry_lem rough journal 1900

abbrev early : List F2Observation
early = seen_at 900 ∷ seen_at 875 ∷ seen_at 870 ∷ []

abbrev late : List F2Observation
late = lost_at 860 ∷ dropped_at 850 ∷ []

abbrev later_entry : F2FrontierEntry
later_entry = frontier_entry_from_best rough (early ++ late) 1900 (seen_at 875)

later-frontier : frontier_entry_for_target rough (early ++ late) 1900 ≡ some later_entry
unfolding min_by_key max_by_key frontier_entry_for_target discovery_frontier_candidates
    first_bad_for_target crash_floor_for_target is_current_discovery_evidence is_reproducible
    frontier_entry_from_best
later-frontier = refl

frontier-append_example :
    (d : F2FrontierEntry) × (frontier_entry_for_target rough early 1900 ≡ some d)
    × (d.best_anchor_mv ≤ later_entry.best_anchor_mv)
frontier-append_example =
    frontier-append rough early late 1900 later_entry (refl, (refl, tt)) later-frontier

abbrev published : F2FrontierEntry
published = frontier_entry_from_best rough journal 1900 (seen_at 900)

journal-qualified : qualified_frontier_entry_for_target rough journal 1900 ≡ some published
unfolding min_by_key max_by_key qualified_frontier_entry_for_target discovery_frontier_candidates
    first_bad_for_target crash_floor_for_target is_current_discovery_evidence is_reproducible
    is_current_qualification_pass is_required_qualification_pattern required_pattern_index
    frontier_entry_from_best
journal-qualified = refl

qualified_entry_lem_example : IsPublishable rough journal 1900 published
qualified_entry_lem_example = qualified_entry_lem rough journal 1900 published journal-qualified

learned_frontier_lem_example :
    IsAscending (map (λ x. x.target_mhz) (learned_frontier rough journal))
    × (In deep (learned_frontier rough journal)
        ↔ ((t : ℕ) × (frontier_entry_for_target rough journal t ≡ some deep)))
learned_frontier_lem_example = learned_frontier_lem rough journal deep

abbrev foreign : F2Observation
foreign = record (lost_at 990) { gpu_key = some "other" }

bracket_lem_example :
    ((bracket_for_target journal 1900 ≡ none)
      × (All (λ o. is_failure 1900 o ≡ false) journal ⊎ All (λ o. ¬ IsGood journal 1900 o) journal))
    ⊎ ((b : VoltageBracket) × (bracket_for_target journal 1900 ≡ some b) × IsBracket journal 1900 b)
bracket_lem_example = bracket_lem journal 1900

-- A failure above the lowest validated point: a bracket is claimed all the same.
inconsistent_bracket :
    bracket_for_target (seen_at 900 ∷ seen_at 850 ∷ dropped_at 870 ∷ []) 1900
    ≡ some (record { first_bad_mv = 870; last_good_mv = 900; width_mv = 30 })
unfolding min_by_key max_by_key bracket_for_target last_good_for_target first_bad_for_target
inconsistent_bracket = refl
