-- ===== src/SafeLoop/Startup.antt =====
-- `run_startup_recovery` of `crates/service/src/safe_loop_runtime.rs`. The event log is a parameter:
-- `message` is the newest bugcheck message, if there is one. Log lines are left out.
pub mod Effects
pub mod Crash
use nidavellir.Shared.{ℕ, Bool, true, false, ◌&&◌, Option, none, some, if◌then◌else◌, is_some}
use nidavellir.Shared.Text.{Text}
use nidavellir.SafeLoop.Bugcheck.{CrashClass, unknown, classify_bugcheck, parse_bugcheck_code}
use nidavellir.SafeLoop.Record.{SafeLoopRecord}
use nidavellir.SafeLoop.Recovery.{
  BootFlag, RecoveryAction, blacklist_and_recede, enter_safe_mode, decide_recovery, apply_recovery,
}
use nidavellir.SafeLoop.Store.{
  Codec, Disk, Io, read_boot_flag, clear_boot_flag, load_record, save_record, is_boot_flag_armed,
  is_clean_shutdown_present, clear_clean_shutdown,
}

unfoldable pub retain_boot_flag_until_reapply : RecoveryAction → Bool
retain_boot_flag_until_reapply (blacklist_and_recede _ _ _ _) = true
retain_boot_flag_until_reapply (enter_safe_mode _) = true
retain_boot_flag_until_reapply _ = false

abbrev class_of_code : Option ℕ → CrashClass
class_of_code none = unknown
class_of_code (some code) = classify_bugcheck code

unfoldable pub read_last_bugcheck_class : Option Text → CrashClass
read_last_bugcheck_class none = unknown
read_last_bugcheck_class (some message) = class_of_code (parse_bugcheck_code message)

-- What stands between the reading of the flag and the decision: the clean-shutdown marker is
-- consumed, and a flag that a graceful stop left behind is disarmed. The flag that counts is returned.
unfoldable pub consume_clean_shutdown : Io → Option BootFlag → Disk → Disk × Option BootFlag
consume_clean_shutdown io flag d =
    let clean = is_clean_shutdown_present io d in
    let consumed = (clear_clean_shutdown io d).0 in
    if is_some flag && clean then ((clear_boot_flag io 0 consumed).0, none) else (consumed, flag)

-- The effects of a decision on the record and on the files.
module _ (records : Codec SafeLoopRecord) where
  unfoldable pub commit : Io → RecoveryAction → SafeLoopRecord → Disk → Disk × SafeLoopRecord
  commit io action r d =
      let after = (apply_recovery r action).0 in
      let kept = if retain_boot_flag_until_reapply action then d else (clear_boot_flag io 1 d).0 in
      ((save_record records io after kept).0, after)

abbrev bugcheck_of : Option BootFlag → Option Text → CrashClass
bugcheck_of none message = unknown
bugcheck_of (some flag) message = read_last_bugcheck_class message

module _ (flags : Codec BootFlag) (records : Codec SafeLoopRecord) where
  unfoldable pub run_startup_recovery : Io → Option Text → Disk → Disk × SafeLoopRecord
  run_startup_recovery io message d =
      let r = load_record records io d in
      let (consumed, flag) = consume_clean_shutdown io (read_boot_flag flags io d) d in
      commit records io (decide_recovery flag (bugcheck_of flag message) r) r consumed

-- The guards of `reapply_on_boot`, `crates/service/src/gpu_apply.rs`: whether the persisted profile
-- goes back to the hardware. `reboot_required` is the driver reset of this Windows boot, if there was
-- one. The release of the clock and voltage locks that comes first, and what the loaded profile does to
-- the hardware, are not part of this.
unfoldable pub reapply_on_boot : Codec SafeLoopRecord → Io → Bool → Bool → Disk → Disk × Bool
reapply_on_boot records io reboot_required has_profile d =
    let r = load_record records io d in
    if reboot_required
    then (d, false)
    else if is_boot_flag_armed io d
    then ((clear_boot_flag io 0 d).0, false)
    else if r.safe_mode
    then (d, false)
    else if is_some r.pending_forge_incident
    then (d, false)
    else (d, has_profile)
