-- ===== src/SafeLoop/Startup/Crash.antt =====
-- From an armed flag on disk to the next boot: `crates/service/src/safe_loop_runtime.rs` with
-- `crates/core/src/safe_loop.rs`.
use nidavellir.Shared.{
  ℕ, ◌<◌, ◌≡◌, refl, ◌∙◌, ◌⊎◌, Bool, true, false, Option, none, some, arith, is_some,
}
use nidavellir.Shared.Text.{Text}
use nidavellir.SafeLoop.Bugcheck.{unknown}
use nidavellir.SafeLoop.Record.{SafeLoopRecord, is_blacklisted}
use nidavellir.SafeLoop.Recovery.{BootFlag, counts, boot}
use nidavellir.SafeLoop.Recovery.Boot.{crash-is_blacklisted}
use nidavellir.SafeLoop.Store.{
  Codec, Disk, Io, exists, arm_boot_flag, read_boot_flag, is_boot_flag_armed, clear_boot_flag,
  load_record, is_clean_shutdown_present, clear_clean_shutdown, boot_flag_file, clean_shutdown_file,
}
use nidavellir.SafeLoop.Startup.{
  read_last_bugcheck_class, consume_clean_shutdown, run_startup_recovery, reapply_on_boot,
}
use nidavellir.SafeLoop.Startup.Effects.{
  IsLossless, Works, load-save_record, arm-read_boot_flag, commit_armed, commit_clear,
}

-- With no marker of a graceful stop, the flag that was read is the flag that counts.
consume_none :
    (io : Io) (flag : Option BootFlag) (d : Disk)
    → d.clean_shutdown ≡ none
    → consume_clean_shutdown io flag d ≡ (d, flag)
unfolding consume_clean_shutdown is_clean_shutdown_present clear_clean_shutdown exists
consume_none io flag d h = ground arith

-- A crash with a readable flag armed and no marker of a graceful stop: startup commits one boot
-- with that flag, what it returns is what is on disk afterwards, and the flag stays armed for the
-- profile to be held back. No call of the file system fails, and the JSON codec is lossless and
-- encodes the new record.
pub startup_crash :
    (flags : Codec BootFlag) (records : Codec SafeLoopRecord) (io : Io) (message : Option Text)
    (d : Disk) (flag : BootFlag) (t : Text)
    → let before = load_record records io d in
      let after = (boot (some flag) (read_last_bugcheck_class message) before).0 in
      IsLossless records
      → Works io
      → read_boot_flag flags io d ≡ some flag
      → d.clean_shutdown ≡ none
      → records.encode after ≡ some t
      → let (d', r) = run_startup_recovery flags records io message d in
        (r ≡ after) × (load_record records io d' ≡ after) × (d'.boot_flag ≡ d.boot_flag)
unfolding run_startup_recovery
startup_crash flags records io message d flag t lossless works armed clean e =
    let before = load_record records io d in
    let c = read_last_bugcheck_class message in
    let saved = load-save_record records io (boot (some flag) c before).0 t d lossless works e in
    rw (armed, consume_none io (some flag) d clean, commit_armed records io flag c before d)
      (refl, saved.1, saved.2)

arm-clean_shutdown :
    (flags : Codec BootFlag) (io : Io) (flag : BootFlag) (d : Disk)
    → (arm_boot_flag flags io flag d).0.clean_shutdown ≡ d.clean_shutdown
unfolding arm_boot_flag
arm-clean_shutdown flags io flag d = ground arith

arm-file :
    (flags : Codec BootFlag) (io : Io) (flag : BootFlag) (t : Text) (d : Disk)
    → Works io
    → flags.encode flag ≡ some t
    → (arm_boot_flag flags io flag d).0.boot_flag ≡ some t
unfolding arm_boot_flag
arm-file flags io flag t d works e = ground (arith, works.writes_ok boot_flag_file)

-- While the flag is on disk, apply-on-boot puts no profile back; it takes the flag away, unless the
-- driver was reset in this Windows boot.
reapply_held_back :
    (records : Codec SafeLoopRecord) (io : Io) (reboot_required has_profile : Bool) (d : Disk)
    (t : Text)
    → Works io
    → d.boot_flag ≡ some t
    → let (d', applied) = reapply_on_boot records io reboot_required has_profile d in
      (applied ≡ false) × ((reboot_required ≡ true) ⊎ (d'.boot_flag ≡ none))
unfolding reapply_on_boot is_boot_flag_armed clear_boot_flag exists
reapply_held_back records io reboot_required has_profile d t works e =
    ground (arith, works.stats_ok boot_flag_file, works.removes_ok boot_flag_file 0)

-- The parachute: a point is armed on disk, the machine crashes, the service starts again. Unless
-- this crash trips Safe Mode, the record on disk then lists the point as blacklisted, and apply-
-- on-boot puts no profile back in this startup. No call of the file system fails, the JSON codecs
-- are lossless and encode the flag and the new record, and no marker of a graceful stop is on
-- disk.
pub crash_is_learned :
    (flags : Codec BootFlag) (records : Codec SafeLoopRecord) (io : Io) (message : Option Text)
    (reboot_required has_profile : Bool) (d : Disk) (flag : BootFlag) (t u : Text)
    → let armed = (arm_boot_flag flags io flag d).0 in
      let before = load_record records io armed in
      let c = read_last_bugcheck_class message in
      IsLossless flags
      → IsLossless records
      → Works io
      → d.clean_shutdown ≡ none
      → flags.encode flag ≡ some t
      → records.encode (boot (some flag) c before).0 ≡ some u
      → (counts flag c ≡ false) ⊎ (before.consecutive_crashes < 2)
      → let d' = (run_startup_recovery flags records io message armed).0 in
        (is_blacklisted (load_record records io d') flag.intent ≡ true)
        × ((reapply_on_boot records io reboot_required has_profile d').1 ≡ false)
crash_is_learned flags records io message reboot_required has_profile d flag t u lf lr works clean
      ef er c =
    let armed = (arm_boot_flag flags io flag d).0 in
    let before = load_record records io armed in
    let class = read_last_bugcheck_class message in
    let readable = (arm-read_boot_flag flags io flag t d lf works ef).0 in
    let unmarked = arm-clean_shutdown flags io flag d ∙ clean in
    let started =
      startup_crash flags records io message armed flag u lr works readable unmarked er in
    let learned = (crash-is_blacklisted flag class before c).0 in
    (
      rw started.1 learned,
      (reapply_held_back records io reboot_required has_profile
          (run_startup_recovery flags records io message armed).0 t works
          (started.2 ∙ arm-file flags io flag t d works ef)).0,
    )

clear-boot_flag :
    (io : Io) (n : ℕ) (d : Disk)
    → Works io
    → ((clear_boot_flag io n d).0.boot_flag ≡ none)
      × ((clear_boot_flag io n d).0.clean_shutdown ≡ d.clean_shutdown)
unfolding clear_boot_flag
clear-boot_flag io n d works = ground (arith, works.removes_ok boot_flag_file n)

consume_marker :
    (io : Io) (flag : Option BootFlag) (d : Disk)
    → Works io
    → (is_some d.clean_shutdown ≡ true) ⊎ (flag ≡ none)
    → let (d', counted) = consume_clean_shutdown io flag d in
      (counted ≡ none) × (d'.clean_shutdown ≡ none) × (d'.safe_loop ≡ d.safe_loop)
unfolding consume_clean_shutdown is_clean_shutdown_present clear_clean_shutdown clear_boot_flag
    exists
consume_marker io flag d works h = ground (
  arith,
  works.stats_ok clean_shutdown_file,
  works.removes_ok clean_shutdown_file 0,
  works.removes_ok boot_flag_file 0,
)

-- A start after a graceful stop, or with no flag file that can be read as a flag: no crash is
-- counted and nothing is blacklisted, what is on disk afterwards is the record of a clean boot,
-- and both the flag file and the marker are gone. No call of the file system fails, and the JSON
-- codec is lossless and encodes the new record.
pub startup_clean :
    (flags : Codec BootFlag) (records : Codec SafeLoopRecord) (io : Io) (message : Option Text)
    (d : Disk) (t : Text)
    → let after = (boot none unknown (load_record records io d)).0 in
      IsLossless records
      → Works io
      → (is_some d.clean_shutdown ≡ true) ⊎ (read_boot_flag flags io d ≡ none)
      → records.encode after ≡ some t
      → let (d', r) = run_startup_recovery flags records io message d in
        (r ≡ after)
        × (load_record records io d' ≡ after)
        × (d'.boot_flag ≡ none)
        × (d'.clean_shutdown ≡ none)
unfolding run_startup_recovery
startup_clean flags records io message d t lossless works h e =
    let before = load_record records io d in
    let consumed = consume_clean_shutdown io (read_boot_flag flags io d) d in
    let marker = consume_marker io (read_boot_flag flags io d) d works h in
    let cleared = clear-boot_flag io 1 consumed.0 works in
    let saved =
      load-save_record records io (boot none unknown before).0 t (clear_boot_flag io 1 consumed.0).0
        lossless works e in
    rw (marker.0, commit_clear records io unknown before consumed.0)
      (refl, saved.1, saved.2 ∙ cleared.0, saved.3 ∙ cleared.1 ∙ marker.1)
