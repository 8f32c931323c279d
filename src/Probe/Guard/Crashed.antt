-- ===== src/Probe/Guard/Crashed.antt =====
-- A candidate that the machine crashed on: `confirmed_f2_refusal` of
-- `crates/service/src/gpu_undervolt.rs` over the record that the startup of
-- `crates/core/src/safe_loop.rs` leaves.
use nidavellir.Shared.{
  ℕ, ◌<◌, ◌≤◌, ◌≡◌, refl, ◌∙◌, sym, subst, ◌⊎◌, inl, inr, Bool, true, false, ◌||◌, List, Option,
  none, some, none-some, true-false, ap,
}
use nidavellir.SafeLoop.Bugcheck.{CrashClass}
use nidavellir.SafeLoop.Record.{SafeLoopRecord, is_blacklisted, clear_recovery_latch}
use nidavellir.SafeLoop.Recovery.{BootFlag, counts, boot}
use nidavellir.SafeLoop.Recovery.Boot.{crash-is_blacklisted, crash_trips}
use nidavellir.SafeLoop.Recovery.History.{Op, run, Forgets}
use nidavellir.SafeLoop.Recovery.History.Latch.{run-is_blacklisted}
use nidavellir.VfCurve.Bounded.{PositiveOffsetLimits, PositiveOffsetPlan}
use nidavellir.Probe.Guard.{
  f2_intent, candidate_blacklisted, field_pair_blacklisted, field_vf_floor_mv, confirmed_f2_refusal,
}
use nidavellir.Probe.Guard.Confirmed.{confirmed_iff}

-- A blacklisted intent blacklists the candidate.
intent-candidate_blacklisted :
    (rec : SafeLoopRecord) (target_mhz : ℕ) (cand : PositiveOffsetPlan)
    → is_blacklisted rec (f2_intent target_mhz cand) ≡ true
    → candidate_blacklisted rec target_mhz cand ≡ true
unfolding candidate_blacklisted
intent-candidate_blacklisted rec target_mhz cand h =
    ap (λ b. b || field_pair_blacklisted rec target_mhz cand.voltage_mv) h

blacklisted_refused :
    (rec : SafeLoopRecord) (armed : Bool) (steps : Option ℕ) (cand : PositiveOffsetPlan)
    (limits : PositiveOffsetLimits) (target_mhz : ℕ)
    → is_blacklisted rec (f2_intent target_mhz cand) ≡ true
    → ¬ (confirmed_f2_refusal rec armed steps (some cand) limits target_mhz ≡ none)
unfolding confirmed_f2_refusal
blacklisted_refused rec armed none cand limits target_mhz h e = none-some _ (sym e)
blacklisted_refused rec armed (some n) cand limits target_mhz h e =
    let clear = (confirmed_iff rec armed n cand limits target_mhz).0 e in
    true-false (candidate_blacklisted rec target_mhz cand)
      (intent-candidate_blacklisted rec target_mhz cand h) clear.1.1.1.1.1.1.1.1.1

-- After the machine crashed on an armed candidate, the candidate is refused, for any number of steps and
-- any limits, whatever is done to the record after that startup (validations, resets of the latch,
-- incident reports, acknowledgements, further boots, points learned, operator's reports), unless a clean
-- run or the full reset was among it, which drop regions. The crash does not count, or fewer than two
-- counted ones in a row came before it.
pub crash_refused :
    (flag : BootFlag) (bugcheck : CrashClass) (r : SafeLoopRecord) (ops : List Op) (armed : Bool)
    (steps : Option ℕ) (cand : PositiveOffsetPlan) (limits : PositiveOffsetLimits) (target_mhz : ℕ)
    → flag.intent ≡ f2_intent target_mhz cand
    → (counts flag bugcheck ≡ false) ⊎ (r.consecutive_crashes < 2)
    → (¬ (
        confirmed_f2_refusal
          (run (boot (some flag) bugcheck r).0 ops)
          armed
          steps
          (some cand)
          limits
          target_mhz
        ≡ none))
      ⊎ Forgets ops
crash_refused flag bugcheck r ops armed steps cand limits target_mhz same h =
    let learned = (crash-is_blacklisted flag bugcheck r h).0 in
    let after = (boot (some flag) bugcheck r).0 in
    elim (run-is_blacklisted after ops (f2_intent target_mhz cand)
      (subst (λ p. is_blacklisted after p ≡ true) same learned)) [
        | inl kept ↦
            inl (blacklisted_refused (run after ops) armed steps cand limits target_mhz kept)
        | inr forgot ↦ inr forgot
      ]

-- The preflight reads the blacklist, Safe Mode and the streak of the record, and nothing else.
refusal_by :
    (a b : SafeLoopRecord) (armed : Bool) (steps : Option ℕ) (cand : Option PositiveOffsetPlan)
    (limits : PositiveOffsetLimits) (target_mhz : ℕ)
    → a.blacklist ≡ b.blacklist
    → a.safe_mode ≡ b.safe_mode
    → a.consecutive_crashes ≡ b.consecutive_crashes
    → confirmed_f2_refusal a armed steps cand limits target_mhz
      ≡ confirmed_f2_refusal b armed steps cand limits target_mhz
unfolding confirmed_f2_refusal candidate_blacklisted field_pair_blacklisted field_vf_floor_mv
    is_blacklisted
refusal_by a b armed steps cand limits target_mhz regions mode streak =
    ap (λ x. confirmed_f2_refusal (record a { blacklist = x }) armed steps cand limits target_mhz)
      regions
    ∙ ap
        (λ x.
          confirmed_f2_refusal (record a { blacklist = b.blacklist; safe_mode = x }) armed steps
            cand limits target_mhz)
        mode
    ∙ ap
        (λ x.
          confirmed_f2_refusal
            (record a { blacklist = b.blacklist; safe_mode = b.safe_mode; consecutive_crashes = x })
            armed steps cand limits target_mhz)
        streak

cleared_fields :
    (r : SafeLoopRecord)
    → ((clear_recovery_latch r).blacklist ≡ r.blacklist)
      × ((clear_recovery_latch r).safe_mode ≡ false)
      × ((clear_recovery_latch r).consecutive_crashes ≡ 0)
unfolding clear_recovery_latch
cleared_fields r = (refl, refl, refl)

-- The crash that trips Safe Mode teaches the preflight nothing: once the operator has reset the latch,
-- every candidate, the crashed one included, is let through or refused, and for the same reason, as it
-- would have been before that crash with the streak at 0 and Safe Mode off. The crash counts, and at least
-- two counted ones in a row came before it.
pub trip_forgotten :
    (flag : BootFlag) (bugcheck : CrashClass) (r : SafeLoopRecord) (armed : Bool) (steps : Option ℕ)
    (cand : Option PositiveOffsetPlan) (limits : PositiveOffsetLimits) (target_mhz : ℕ)
    → counts flag bugcheck ≡ true
    → 2 ≤ r.consecutive_crashes
    → confirmed_f2_refusal
        (clear_recovery_latch (boot (some flag) bugcheck r).0)
        armed
        steps
        cand
        limits
        target_mhz
      ≡ confirmed_f2_refusal
          (record r { safe_mode = false; consecutive_crashes = 0 })
          armed
          steps
          cand
          limits
          target_mhz
trip_forgotten flag bugcheck r armed steps cand limits target_mhz counted twice =
    let after = (boot (some flag) bugcheck r).0 in
    let (mode, state, target, regions, log) = crash_trips flag bugcheck r counted twice in
    let (kept, off, none_left) = cleared_fields after in
    refusal_by (clear_recovery_latch after)
      (record r { safe_mode = false; consecutive_crashes = 0 }) armed steps cand limits target_mhz
      (kept ∙ regions) off none_left
