-- ===== src/SafeLoop/Recovery/History/Latch.antt =====
-- What a whole history of a record keeps: the Safe Mode latch and all that was learned.
use nidavellir.Shared.{
  ℕ, String, Option, ◌++◌, any, any-append, ◌+◌, ◌≤◌, ◌≡◌, refl, ◌⊎◌, inl, inr, true, false, List,
  [], ◌∷◌, none, some, arith, In, Bool-cases, ◌∙◌, length,
}
use nidavellir.Shared.Int.{pos}
use nidavellir.F2.Bridge.{PowerSweepPoint}
use nidavellir.SafeLoop.Point.{TuningPoint, BlacklistRegion, from_axes, around, contains}
use nidavellir.SafeLoop.Bugcheck.{CrashClass}
use nidavellir.SafeLoop.Record.{
  SafeLoopRecord, mark_validated, clear_recovery_latch, record_forge_incident,
  acknowledge_forge_incident, is_blacklisted,
}
use nidavellir.SafeLoop.Learning.{
  Stamp, field_intent, learn_point, learn_field_failure, record_operator_field_failure,
  strip_gpu_vf_blacklist,
}
use nidavellir.SafeLoop.Recovery.{decide_recovery, apply_recovery, BootFlag, boot, counts}
use nidavellir.SafeLoop.Recovery.Boot.{boot-is_blacklisted}
use nidavellir.SafeLoop.Recovery.History.{
  Op, validate, clear_latch, report, acknowledge_pending, restart, learn, field_failure,
  operator_failure, clean_run, full_reset, step, run, Forgets,
}
use nidavellir.SafeLoop.Recovery.History.Invariant.{IsValid, step-IsValid}

added-is_blacklisted :
    (regions : List BlacklistRegion) (c : BlacklistRegion) (p : TuningPoint)
    → any (λ region. contains region p) regions ≡ true
    → any (λ region. contains region p) (regions ++ c ∷ []) ≡ true
added-is_blacklisted regions c p h =
    ground (arith, any-append (λ region. contains region p) regions (c ∷ []))

learn_point-is_blacklisted :
    (r : SafeLoopRecord) (intent p : TuningPoint)
    → is_blacklisted r p ≡ true
    → is_blacklisted (learn_point r intent) p ≡ true
unfolding learn_point is_blacklisted
learn_point-is_blacklisted r intent p h =
    ground (arith, added-is_blacklisted r.blacklist (around intent (pos 1)) p h)

learn_field_failure-is_blacklisted :
    (r : SafeLoopRecord) (target_mhz failed_mv : ℕ) (p : TuningPoint)
    → is_blacklisted r p ≡ true
    → is_blacklisted (learn_field_failure r target_mhz failed_mv) p ≡ true
unfolding learn_field_failure is_blacklisted
learn_field_failure-is_blacklisted r target_mhz failed_mv p h =
    let intent =
      from_axes (("gpu_freq_mhz", pos target_mhz) ∷ ("gpu_vf_bin_mv", pos failed_mv) ∷ []) in
    ground (arith, added-is_blacklisted r.blacklist (around intent (pos 1)) p h)

operator-is_blacklisted :
    (r : SafeLoopRecord) (point : PowerSweepPoint) (run_id : Option String) (gpu_key : String)
    (stamp : Stamp) (p : TuningPoint)
    → is_blacklisted r p ≡ true
    → is_blacklisted (record_operator_field_failure r point run_id gpu_key stamp) p ≡ true
unfolding record_operator_field_failure is_blacklisted
operator-is_blacklisted r point run_id gpu_key stamp p h =
    ground (arith, learn_point-is_blacklisted r (field_intent point) p h)

step-is_blacklisted :
    (r : SafeLoopRecord) (op : Op) (p : TuningPoint)
    → is_blacklisted r p ≡ true
    → (is_blacklisted (step r op) p ≡ true) ⊎ (clean_run ≡ op) ⊎ (full_reset ≡ op)
unfolding step is_blacklisted
step-is_blacklisted r (validate point) p h = unfold mark_validated in inl h
step-is_blacklisted r clear_latch p h = unfold clear_recovery_latch in inl h
step-is_blacklisted r (report i) p h = unfold record_forge_incident in ground arith
step-is_blacklisted r acknowledge_pending p h = unfold acknowledge_forge_incident in ground arith
step-is_blacklisted r (restart flag bugcheck) p h = inl (boot-is_blacklisted flag bugcheck r p h)
step-is_blacklisted r (learn point) p h = inl (learn_point-is_blacklisted r point p h)
step-is_blacklisted r (field_failure target_mhz failed_mv) p h =
    inl (learn_field_failure-is_blacklisted r target_mhz failed_mv p h)
step-is_blacklisted r (operator_failure point run_id gpu_key stamp) p h =
    inl (operator-is_blacklisted r point run_id gpu_key stamp p h)
step-is_blacklisted r clean_run p h = inr (inl refl)
step-is_blacklisted r full_reset p h = inr (inr refl)

-- Learning survives: once a point is blacklisted, no sequence of validations, resets of the latch,
-- incident reports, acknowledgements, boots and points learned since makes it eligible again; only a clean
-- run or the full reset can.
pub run-is_blacklisted :
    (r : SafeLoopRecord) (ops : List Op) (p : TuningPoint)
    → is_blacklisted r p ≡ true
    → (is_blacklisted (run r ops) p ≡ true) ⊎ Forgets ops
unfolding run
run-is_blacklisted r [] p h = inl h
run-is_blacklisted r (op ∷ ops) p h = elim (step-is_blacklisted r op p h) [
  | inl still ↦ elim (run-is_blacklisted (step r op) ops p still) [
    | inl kept ↦ inl kept
    | inr (inl cleaned) ↦ inr (inl (inr cleaned))
    | inr (inr reset) ↦ inr (inr (inr reset))
  ]
  | inr (inl cleaned) ↦ inr (inl (inl cleaned))
  | inr (inr reset) ↦ inr (inr (inl reset))
]

step-safe_mode :
    (r : SafeLoopRecord) (op : Op)
    → r.safe_mode ≡ true
    → ((step r op).safe_mode ≡ true) ⊎ (clear_latch ≡ op) ⊎ (full_reset ≡ op)
unfolding step
step-safe_mode r (validate point) h = unfold mark_validated in inl h
step-safe_mode r clear_latch h = inr (inl refl)
step-safe_mode r (report i) h = unfold record_forge_incident in ground arith
step-safe_mode r acknowledge_pending h = unfold acknowledge_forge_incident in ground arith
step-safe_mode r (restart none bugcheck) h =
    unfold boot decide_recovery apply_recovery in ground arith
step-safe_mode r (restart (some flag) bugcheck) h =
    unfold boot decide_recovery apply_recovery in ground arith
step-safe_mode r (learn point) h = unfold learn_point in ground arith
step-safe_mode r (field_failure target_mhz failed_mv) h = unfold learn_field_failure in ground arith
step-safe_mode r (operator_failure point run_id gpu_key stamp) h =
    unfold record_operator_field_failure in unfold learn_point in ground arith
step-safe_mode r clean_run h = unfold strip_gpu_vf_blacklist in inl h
step-safe_mode r full_reset h = inr (inr refl)

-- Safe Mode is latched: whatever happens, it ends by the operator's reset of the latch or the full reset
-- alone.
pub run-safe_mode :
    (r : SafeLoopRecord) (ops : List Op)
    → r.safe_mode ≡ true
    → ((run r ops).safe_mode ≡ true) ⊎ In clear_latch ops ⊎ In full_reset ops
unfolding run
run-safe_mode r [] h = inl h
run-safe_mode r (op ∷ ops) h = elim (step-safe_mode r op h) [
  | inl still ↦ elim (run-safe_mode (step r op) ops still) [
    | inl s ↦ inl s
    | inr (inl c) ↦ inr (inl (inr c))
    | inr (inr c) ↦ inr (inr (inr c))
  ]
  | inr (inl cleared) ↦ inr (inl (inl cleared))
  | inr (inr reset) ↦ inr (inr (inl reset))
]

step_supervised :
    (r : SafeLoopRecord) (flag : BootFlag) (bugcheck : CrashClass)
    → counts flag bugcheck ≡ false
    → let after = step r (restart (some flag) bugcheck) in
      (after.consecutive_crashes ≡ r.consecutive_crashes) × (after.safe_mode ≡ r.safe_mode)
unfolding step boot decide_recovery apply_recovery
step_supervised r flag bugcheck c = ground arith

-- A sequence of crashes of which every one counts.
abbrev pub AllCount : List (BootFlag × CrashClass) → Type 0
AllCount [] = Unit
AllCount ((flag, bugcheck) ∷ crashes) = (counts flag bugcheck ≡ true) × AllCount crashes

abbrev pub crashes_of : List (BootFlag × CrashClass) → List Op
crashes_of [] = []
crashes_of ((flag, bugcheck) ∷ crashes) = restart (some flag) bugcheck ∷ crashes_of crashes

step_crash :
    (r : SafeLoopRecord) (flag : BootFlag) (bugcheck : CrashClass)
    → IsValid r
    → counts flag bugcheck ≡ true
    → let after = step r (restart (some flag) bugcheck) in
      (after.safe_mode ≡ true)
      ⊎ ((r.safe_mode ≡ false) × (after.consecutive_crashes ≡ r.consecutive_crashes + 1))
unfolding step boot decide_recovery apply_recovery
step_crash r flag bugcheck v c = ground arith

no_clear_latch : (crashes : List (BootFlag × CrashClass)) → ¬ In clear_latch (crashes_of crashes)
no_clear_latch [] h = h
no_clear_latch ((flag, bugcheck) ∷ crashes) (inl e) = cc
no_clear_latch ((flag, bugcheck) ∷ crashes) (inr h) = no_clear_latch crashes h

no_full_reset : (crashes : List (BootFlag × CrashClass)) → ¬ In full_reset (crashes_of crashes)
no_full_reset [] h = h
no_full_reset ((flag, bugcheck) ∷ crashes) (inl e) = cc
no_full_reset ((flag, bugcheck) ∷ crashes) (inr h) = no_full_reset crashes h

-- From a record that satisfies the invariant, crashes that count, one after the other with nothing
-- in between, always end in Safe Mode once the streak they began with and their number make three.
pub three_crashes :
    (r : SafeLoopRecord) (crashes : List (BootFlag × CrashClass))
    → IsValid r
    → AllCount crashes
    → 3 ≤ length crashes + r.consecutive_crashes
    → (run r (crashes_of crashes)).safe_mode ≡ true
unfolding run
three_crashes r [] v c h = elim (Bool-cases r.safe_mode) [
  | inl latched ↦ latched
  | inr free ↦ absurd (omega (arith, v.streak_below free))
]
three_crashes r ((flag, bugcheck) ∷ crashes) v c h =
    let crash = restart (some flag) bugcheck in
    elim (step_crash r flag bugcheck v c.0) [
      | inl tripped ↦ elim (run-safe_mode (step r crash) (crashes_of crashes) tripped) [
        | inl latched ↦ latched
        | inr (inl cleared) ↦ absurd (no_clear_latch crashes cleared)
        | inr (inr reset) ↦ absurd (no_full_reset crashes reset)
      ]
      | inr (free, counted) ↦
          three_crashes (step r crash) crashes (step-IsValid r crash tt v) c.1 (omega arith)
    ]

-- A sequence of crashes of supervised Forge probes, of which none counts.
abbrev pub NoneCount : List (BootFlag × CrashClass) → Type 0
NoneCount [] = Unit
NoneCount ((flag, bugcheck) ∷ crashes) = (counts flag bugcheck ≡ false) × NoneCount crashes

-- Supervised Forge probes may crash any number of times: the streak and the latch stay as they are.
pub supervised_crashes :
    (r : SafeLoopRecord) (crashes : List (BootFlag × CrashClass))
    → NoneCount crashes
    → let after = run r (crashes_of crashes) in
      (after.consecutive_crashes ≡ r.consecutive_crashes) × (after.safe_mode ≡ r.safe_mode)
unfolding run
supervised_crashes r [] c = (refl, refl)
supervised_crashes r ((flag, bugcheck) ∷ crashes) c =
    let here = step_supervised r flag bugcheck c.0 in
    let later = supervised_crashes (step r (restart (some flag) bugcheck)) crashes c.1 in
    (later.0 ∙ here.0, later.1 ∙ here.1)
