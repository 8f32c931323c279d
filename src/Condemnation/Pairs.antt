-- ===== src/Condemnation/Pairs.antt =====
-- The condemned pairs of one GPU: `condemned_pairs`, `condemned_pairs_for_run`,
-- `effective_condemnation_events` and `CondemnedPairs` of `crates/core/src/condemnation.rs`.
pub mod Active
pub mod Refusal
use nidavellir.Shared.{
  ℕ, ◌==◌, ltb, leb, String, str_eq, Bool, true, false, not, ◌&&◌, ◌||◌, List, [], ◌∷◌, ◌++◌,
  Option, none, some, if◌then◌else◌, any, filter, is_some,
}
use nidavellir.SafeLoop.Record.{opt_eq}
use nidavellir.Condemnation.Event.{
  CondemnationSeverity, rigid, quarantine, CondemnationEvent, matches_gpu, cancels,
}
use nidavellir.Condemnation.Envelope.{vf_floor_envelope}

pub record CondemnedPairs : Type 0 where
  pub rigid : List (ℕ × ℕ)
  pub quarantine : List (ℕ × ℕ)
  pub quarantine_contracts : List (ℕ × ℕ × Option ℕ)

abbrev empty : CondemnedPairs
empty = record { rigid = []; quarantine = []; quarantine_contracts = [] }

-- The `match` on the severity.
abbrev push_pair : CondemnationSeverity → CondemnationEvent → CondemnedPairs → CondemnedPairs
push_pair CondemnationSeverity.rigid e out = record out {
  rigid = out.rigid ++ (e.target_mhz, e.vf_bin_mv) ∷ [];
}
push_pair CondemnationSeverity.quarantine e out = record out {
  quarantine = out.quarantine ++ (e.target_mhz, e.vf_bin_mv) ∷ [];
  quarantine_contracts =
      out.quarantine_contracts
      ++ (e.target_mhz, e.vf_bin_mv, e.qualification_contract_version) ∷ [];
}

-- Whether the loop goes past an entry, given the entries behind it.
abbrev pub is_skipped : String → CondemnationEvent → List CondemnationEvent → Bool
is_skipped gpu e later =
    not (matches_gpu e.gpu_key gpu)
    || e.rehabilitated
    || any (cancels gpu e.target_mhz e.vf_bin_mv) later

-- `for (i, e) in events.iter().enumerate()`; the list behind `e` is `events[i + 1..]`.
condemned_loop : String → CondemnedPairs → List CondemnationEvent → CondemnedPairs
condemned_loop gpu out [] = out
condemned_loop gpu out (e ∷ later) =
    condemned_loop gpu (if is_skipped gpu e later then out else push_pair e.severity e out) later

unfoldable pub condemned_pairs : List CondemnationEvent → String → CondemnedPairs
unfolding condemned_loop
condemned_pairs events gpu = condemned_loop gpu empty events

unfoldable pub condemned_pairs_for_run : List CondemnationEvent → String → String → CondemnedPairs
condemned_pairs_for_run events gpu run =
    condemned_pairs (filter (λ e. opt_eq e.run_id (some run)) events) gpu

-- A later entry that lifts an event on an audit surface: there the keys must be equal.
abbrev lifts : CondemnationEvent → CondemnationEvent → Bool
lifts event later =
    later.rehabilitated
    && later.target_mhz == event.target_mhz
    && later.vf_bin_mv == event.vf_bin_mv
    && opt_eq later.gpu_key event.gpu_key

unfoldable pub effective_condemnation_events : List CondemnationEvent → List CondemnationEvent
effective_condemnation_events [] = []
effective_condemnation_events (event ∷ later) =
    let rest = effective_condemnation_events later in
    if not event.rehabilitated && not (any (lifts event) later) then event ∷ rest else rest

-- `vf_floor_envelope(..).is_some_and(|floor| anchor_mv <= floor)`
abbrev at_or_below : ℕ → Option ℕ → Bool
at_or_below mv none = false
at_or_below mv (some floor) = leb mv floor

abbrev below : ℕ → Option ℕ → Bool
below mv none = false
below mv (some floor) = ltb mv floor

unfoldable pub refuses : CondemnedPairs → ℕ → ℕ → Bool
refuses pairs clock_mhz anchor_mv =
    at_or_below anchor_mv (vf_floor_envelope pairs.rigid clock_mhz)
    || below anchor_mv (vf_floor_envelope pairs.quarantine clock_mhz)

-- `contract.is_none_or(|condemned_under| condemned_under >= current)`
abbrev is_none_or_ge : ℕ → Option ℕ → Bool
is_none_or_ge current none = true
is_none_or_ge current (some condemned_under) = leb current condemned_under

abbrev requires_reproof : ℕ → ℕ → ℕ → ℕ × ℕ × Option ℕ → Bool
requires_reproof clock mv current (c, v, contract) =
    c == clock && v == mv && is_none_or_ge current contract

unfoldable pub required_apply_passes : CondemnedPairs → ℕ → ℕ → ℕ → ℕ
required_apply_passes pairs clock_mhz anchor_mv current_contract =
    if any (requires_reproof clock_mhz anchor_mv current_contract) pairs.quarantine_contracts
    then 2
    else 1
