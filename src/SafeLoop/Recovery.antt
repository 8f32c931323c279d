-- ===== src/SafeLoop/Recovery.antt =====
-- `BootFlag`, `RecoveryAction`, `decide_recovery` and `apply_recovery` of
-- `crates/core/src/safe_loop.rs`. `consecutive_crashes` is a u32 that saturates.
pub mod Boot
pub mod History
use nidavellir.Shared.{
  ℕ, ◌+◌, leb, String, str_eq, Bool, true, false, ◌&&◌, not, List, [], ◌∷◌, ◌++◌, Option, none,
  some, if◌then◌else◌, saturating_add,
}
use nidavellir.Shared.Int.{ℤ, pos}
use nidavellir.SafeLoop.Point.{TuningPoint, stock, around}
use nidavellir.SafeLoop.Phase.{idle, validated, unstable, safe_mode}
use nidavellir.SafeLoop.Bugcheck.{CrashClass, unrelated, oc_instability, unknown}
use nidavellir.SafeLoop.Record.{
  ForgeIncident, SafeLoopRecord, is_blacklisted, recovery_target, push_capped,
}

abbrev pub safe_mode_crash_threshold : ℕ
safe_mode_crash_threshold = 3

abbrev pub default_blacklist_radius : ℤ
default_blacklist_radius = pos 1

abbrev pub supervised_f2_forge_phase : String
supervised_f2_forge_phase = "f2_undervolt_probe"

pub record BootFlag : Type 0 where
  pub intent : TuningPoint
  pub phase : String
  pub timestamp : String

pub data RecoveryAction : Type 0 where
  do_nothing : RecoveryAction  -- `Idle`
  apply_last_validated : TuningPoint → RecoveryAction
  await_operator_acknowledgement : ForgeIncident → RecoveryAction
  blacklist_and_recede : TuningPoint → TuningPoint → CrashClass → Bool → RecoveryAction
  enter_safe_mode : TuningPoint → RecoveryAction
  remain_safe_mode : TuningPoint → RecoveryAction

abbrev is_unrelated : CrashClass → Bool
is_unrelated unrelated = true
is_unrelated _ = false

-- `count_toward_safe_mode`: every crash counts but a supervised Forge probe's own.
abbrev pub counts : BootFlag → CrashClass → Bool
counts flag bugcheck =
    not (str_eq flag.phase supervised_f2_forge_phase && not (is_unrelated bugcheck))

-- `saturating_add(u32::from(counted))`
abbrev pub count_crash : Bool → ℕ → ℕ
count_crash true n = saturating_add n 1
count_crash false n = saturating_add n 0

unfoldable pub decide_armed : BootFlag → CrashClass → SafeLoopRecord → RecoveryAction
unfolding stock recovery_target
decide_armed flag bugcheck r =
    let counted = counts flag bugcheck in
    let crashes = count_crash counted r.consecutive_crashes in
    if counted && leb safe_mode_crash_threshold crashes
    then enter_safe_mode stock
    else blacklist_and_recede flag.intent (recovery_target r) bugcheck counted

abbrev decide_validated : Option TuningPoint → RecoveryAction
decide_validated (some point) = apply_last_validated point
decide_validated none = do_nothing

abbrev decide_pending : Option ForgeIncident → Option TuningPoint → RecoveryAction
decide_pending (some incident) last = await_operator_acknowledgement incident
decide_pending none last = decide_validated last

unfoldable pub decide_clear : SafeLoopRecord → RecoveryAction
unfolding stock
decide_clear r =
    if r.safe_mode
    then remain_safe_mode stock
    else decide_pending r.pending_forge_incident r.last_validated

unfoldable pub decide_recovery : Option BootFlag → CrashClass → SafeLoopRecord → RecoveryAction
unfolding decide_armed decide_clear
decide_recovery (some flag) bugcheck r = decide_armed flag bugcheck r
decide_recovery none bugcheck r = decide_clear r

-- The new record, and the point that is to be applied to the hardware.
unfoldable pub apply_recovery : SafeLoopRecord → RecoveryAction → SafeLoopRecord × TuningPoint
unfolding stock
apply_recovery r do_nothing = (record r { state = idle }, stock)
apply_recovery r (apply_last_validated point) = (record r { state = validated }, point)
apply_recovery r (await_operator_acknowledgement i) = (record r { state = unstable }, stock)
apply_recovery r (blacklist_and_recede crashed recede_to class counted) = (
  record r {
    consecutive_crashes =
        if counted then saturating_add r.consecutive_crashes 1 else r.consecutive_crashes;
    blacklist =
        if not (is_blacklisted r crashed)
        then r.blacklist ++ around crashed default_blacklist_radius ∷ []
        else r.blacklist;
    crash_log = push_capped r.crash_log class 32;
    state = unstable;
  },
  recede_to,
)
apply_recovery r (enter_safe_mode p) = (
  record r {
    consecutive_crashes = saturating_add r.consecutive_crashes 1;
    safe_mode = true;
    state = safe_mode;
  },
  p,
)
apply_recovery r (remain_safe_mode p) = (record r { safe_mode = true; state = safe_mode }, p)

-- One boot: the decision, then its effects.
unfoldable pub boot : Option BootFlag → CrashClass → SafeLoopRecord → SafeLoopRecord × TuningPoint
boot flag bugcheck r = apply_recovery r (decide_recovery flag bugcheck r)
