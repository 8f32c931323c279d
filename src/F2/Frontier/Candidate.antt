-- ===== src/F2/Frontier/Candidate.antt =====
-- Which observations the frontier may stand at, `discovery_frontier_candidates` of
-- `crates/core/src/f2_observation.rs`, against a description that speaks of each observation.
use nidavellir.Shared.{
  ℕ, ◌≤◌, ◌<◌, ◌≡◌, refl, sym, subst, ◌∙◌, ◌↔◌, ◌⊎◌, inl, inr, ltb, leb, Bool, true, false, ◌&&◌,
  List, [], ◌∷◌, map, none, some, ◌==◌, arith, All, All-In, All-weaken, In, filter, saturating_add,
}
use nidavellir.Shared.Extremes.{max_by_key-IsGreatest, In-filter, All-filter, filter_none}
use nidavellir.F2.Kinds.{is_validated}
use nidavellir.F2.Observation.{F2Observation}
use nidavellir.F2.Evidence.{is_current_discovery_evidence}
use nidavellir.F2.Frontier.{
  voltage_of, anchor_of, is_failure, first_bad_for_target, is_above, is_crash,
  crash_floor_for_target, is_clear, candidate_test,
}
use nidavellir.F2.Frontier.Memory.{first_bad-cases}

All-map :
    (Q : ℕ → Type 0) (xs : List F2Observation)
    → All Q (map voltage_of xs)
    → All (λ o. Q o.anchor_mv) xs
All-map Q [] h = tt
All-map Q (x ∷ xs) h = (h.0, All-map Q xs h.1)

In-map :
    (mv : ℕ) (xs : List F2Observation)
    → In mv (map voltage_of xs)
    → (o : F2Observation) × In o xs × (o.anchor_mv ≡ mv)
In-map mv [] h = absurd h
In-map mv (x ∷ xs) (inl e) = (x, inl refl, sym e)
In-map mv (x ∷ xs) (inr h) = let (o, found, e) = In-map mv xs h in (o, inr found, e)

map_none : (xs : List F2Observation) → map voltage_of xs ≡ [] → xs ≡ []
map_none [] h = refl
map_none (x ∷ xs) h = ground arith

-- The crash floor is the voltage of a crash, and no crash of the target is at a higher one.
pub crash_floor-cases :
    (obs : List F2Observation) (target : ℕ)
    → ((crash_floor_for_target obs target ≡ none) × All (λ o. is_crash target o ≡ false) obs)
      ⊎ ((c : F2Observation) × (crash_floor_for_target obs target ≡ some c.anchor_mv)
          × In c obs
          × (is_crash target c ≡ true)
          × All (λ o. (is_crash target o ≡ false) ⊎ (o.anchor_mv ≤ c.anchor_mv)) obs)
unfolding crash_floor_for_target
crash_floor-cases obs target =
    let crashes = filter (is_crash target) obs in
    elim (max_by_key-IsGreatest (λ mv. mv) (map voltage_of crashes)) [
      | inl (e, empty) ↦ inl (e, filter_none (is_crash target) obs (map_none crashes empty))
      | inr (mv, e, greatest) ↦
          let (c, found, at) = In-map mv crashes greatest.0 in
          let (place, crashed) = In-filter (is_crash target) c obs found in
          inr (
            c,
            e ∙ rw at,
            place,
            crashed,
            All-filter (λ o. o.anchor_mv ≤ c.anchor_mv) (is_crash target) obs
                (subst (λ m. All (λ o. o.anchor_mv ≤ m) crashes) (sym at)
                  (All-map (λ x. x ≤ mv) crashes greatest.1)),
          )
    ]

-- Every failure of the target lies below this voltage.
abbrev pub IsAboveFailures : List F2Observation → ℕ → ℕ → Type 0
IsAboveFailures obs target mv = All (λ b. (is_failure target b ≡ false) ⊎ (b.anchor_mv < mv)) obs

-- Every device loss of the target lies 12 mV or more below this voltage.
abbrev pub IsClearOfCrashes : List F2Observation → ℕ → ℕ → Type 0
IsClearOfCrashes obs target mv =
    All (λ c. (is_crash target c ≡ false) ⊎ (saturating_add c.anchor_mv 12 ≤ mv)) obs

pub is_above_iff :
    (obs : List F2Observation) (target : ℕ) (o : F2Observation)
    → (is_above (anchor_of (first_bad_for_target obs target)) o ≡ true)
      ↔ IsAboveFailures obs target o.anchor_mv
is_above_iff obs target o = elim (first_bad-cases obs target) [
  | inl (e, clean) ↦
      (λ h. All-weaken (λ b. is_failure target b ≡ false) Below obs (λ b k. inl k) clean, λ h. rw e)
  | inr (b, e, found, failed, greatest) ↦ (
    λ h.
        All-weaken (λ x. (is_failure target x ≡ false) ⊎ (x.anchor_mv ≤ b.anchor_mv)) Below obs
          (λ x k. elim k [
            | inl clean ↦ inl clean
            | inr low ↦ inr (lt_of b.anchor_mv x.anchor_mv o.anchor_mv low (sym (rw e) ∙ h))
          ])
          greatest,
    λ h. elim (All-In Below obs b h found) [
      | inl clean ↦ cc
      | inr low ↦ rw e (to_ltb b.anchor_mv o.anchor_mv low)
    ],
  )
]
  where
    Below : F2Observation → Type 0
    Below b = (is_failure target b ≡ false) ⊎ (b.anchor_mv < o.anchor_mv)

    lt_of : (b x m : ℕ) → x ≤ b → ltb b m ≡ true → x < m
    lt_of b x m low h = ground arith

    to_ltb : (b m : ℕ) → b < m → ltb b m ≡ true
    to_ltb b m h = ground arith

pub is_clear_iff :
    (obs : List F2Observation) (target : ℕ) (o : F2Observation)
    → (is_clear (crash_floor_for_target obs target) o ≡ true)
      ↔ IsClearOfCrashes obs target o.anchor_mv
is_clear_iff obs target o = elim (crash_floor-cases obs target) [
  | inl (e, clean) ↦
      (λ h. All-weaken (λ c. is_crash target c ≡ false) Clear obs (λ c k. inl k) clean, λ h. rw e)
  | inr (c, e, found, crashed, greatest) ↦ (
    λ h.
        All-weaken (λ x. (is_crash target x ≡ false) ⊎ (x.anchor_mv ≤ c.anchor_mv)) Clear obs
          (λ x k. elim k [
            | inl clean ↦ inl clean
            | inr low ↦ inr (le_of c.anchor_mv x.anchor_mv o.anchor_mv low (sym (rw e) ∙ h))
          ])
          greatest,
    λ h. elim (All-In Clear obs c h found) [
      | inl clean ↦ cc
      | inr low ↦ rw e (to_leb (saturating_add c.anchor_mv 12) o.anchor_mv low)
    ],
  )
]
  where
    Clear : F2Observation → Type 0
    Clear c = (is_crash target c ≡ false) ⊎ (saturating_add c.anchor_mv 12 ≤ o.anchor_mv)

    le_of : (c x m : ℕ) → x ≤ c → leb (saturating_add c 12) m ≡ true → saturating_add x 12 ≤ m
    le_of c x m low h = ground arith

    to_leb : (c m : ℕ) → c ≤ m → leb c m ≡ true
    to_leb c m h = ground arith

-- The observation validated the target under the current discovery contract, above every failure of
-- the target and clear of its device losses.
abbrev pub IsCandidate : List F2Observation → ℕ → F2Observation → Type 0
IsCandidate obs target o =
    (o.target_mhz ≡ target)
    × (is_validated o.outcome ≡ true)
    × (is_current_discovery_evidence o ≡ true)
    × IsAboveFailures obs target o.anchor_mv
    × IsClearOfCrashes obs target o.anchor_mv

and_iff :
    {P Q : Type 0} (t target : ℕ) (v d above clear : Bool)
    → (above ≡ true) ↔ P
    → (clear ≡ true) ↔ Q
    → ((t == target && v && d && above && clear) ≡ true)
      ↔ ((t ≡ target) × (v ≡ true) × (d ≡ true) × P × Q)
and_iff t target v d above clear f g = (
  λ h. (ground arith, ground arith, ground arith, f.0 (ground arith), g.0 (ground arith)),
  λ (e, validates, evident, p, q). ground (arith, f.1 p, g.1 q),
)

-- The test of the source and the description agree.
pub candidate_test_iff :
    (obs : List F2Observation) (target : ℕ) (o : F2Observation)
    → (candidate_test obs target o ≡ true) ↔ IsCandidate obs target o
candidate_test_iff obs target o =
    and_iff o.target_mhz target (is_validated o.outcome) (is_current_discovery_evidence o)
      (is_above (anchor_of (first_bad_for_target obs target)) o)
      (is_clear (crash_floor_for_target obs target) o) (is_above_iff obs target o)
      (is_clear_iff obs target o)
