-- ===== src/SafeLoop/Startup/Effects.antt =====
-- What a startup leaves on disk, `crates/service/src/safe_loop_runtime.rs`.
use nidavellir.Shared.{ℕ, ◌≡◌, true, false, none, some, arith}
use nidavellir.Shared.Text.{Text}
use nidavellir.SafeLoop.Bugcheck.{CrashClass}
use nidavellir.SafeLoop.Record.{SafeLoopRecord}
use nidavellir.SafeLoop.Recovery.{BootFlag, boot, decide_recovery}
use nidavellir.SafeLoop.Store.{
  Codec, Disk, Io, FileName, strip_bom, read_file, exists, arm_boot_flag, read_boot_flag,
  is_boot_flag_armed, clear_boot_flag, load_record, save_record, boot_flag_file, record_file,
}
use nidavellir.SafeLoop.Startup.{retain_boot_flag_until_reapply, commit}

-- What is asked of the JSON library: what was encoded is decoded again, and a JSON text does not
-- begin with a byte-order mark.
pub record IsLossless {A : Type 0} (c : Codec A) : Type 0 where
  pub decode-encode : (a : A) (t : Text) → c.encode a ≡ some t → c.decode t ≡ some a
  pub no_bom : (a : A) (t : Text) → c.encode a ≡ some t → strip_bom t ≡ t

-- No call of the file system fails.
pub record Works (io : Io) : Type 0 where
  pub dir_ok : io.creates_dir ≡ true
  pub reads_ok : (f : FileName) → io.reads f ≡ true
  pub stats_ok : (f : FileName) → io.stats f ≡ true
  pub writes_ok : (f : FileName) → io.writes f ≡ true
  pub removes_ok : (f : FileName) (n : ℕ) → io.removes f n ≡ true

-- The record that was saved is the record that is loaded.
pub load-save_record :
    (records : Codec SafeLoopRecord) (io : Io) (r : SafeLoopRecord) (t : Text) (d : Disk)
    → IsLossless records
    → Works io
    → records.encode r ≡ some t
    → let (d', saved) = save_record records io r d in
      (saved ≡ true)
      × (load_record records io d' ≡ r)
      × (d'.boot_flag ≡ d.boot_flag)
      × (d'.clean_shutdown ≡ d.clean_shutdown)
unfolding save_record load_record read_file
load-save_record records io r t d lossless works e = ground (
  arith,
  works.reads_ok record_file,
  works.writes_ok record_file,
  lossless.no_bom r t e,
  lossless.decode-encode r t e,
)

-- The flag that was armed is the flag that is read, and a clean validation takes it away. No call
-- of the file system fails, and the JSON codec is lossless and encodes the flag.
pub arm-read_boot_flag :
    (flags : Codec BootFlag) (io : Io) (flag : BootFlag) (t : Text) (d : Disk)
    → IsLossless flags
    → Works io
    → flags.encode flag ≡ some t
    → let armed = (arm_boot_flag flags io flag d).0 in
      (read_boot_flag flags io armed ≡ some flag)
      × (is_boot_flag_armed io armed ≡ true)
      × (read_boot_flag flags io (clear_boot_flag io 0 armed).0 ≡ none)
      × (is_boot_flag_armed io (clear_boot_flag io 0 armed).0 ≡ false)
unfolding arm_boot_flag read_boot_flag is_boot_flag_armed clear_boot_flag read_file exists
arm-read_boot_flag flags io flag t d lossless works e = ground (
  arith,
  works.reads_ok boot_flag_file,
  works.stats_ok boot_flag_file,
  works.writes_ok boot_flag_file,
  works.removes_ok boot_flag_file 0,
  lossless.no_bom flag t e,
  lossless.decode-encode flag t e,
)

retain_armed :
    (flag : BootFlag) (c : CrashClass) (r : SafeLoopRecord)
    → retain_boot_flag_until_reapply (decide_recovery (some flag) c r) ≡ true
unfolding retain_boot_flag_until_reapply decide_recovery
retain_armed flag c r = ground arith

retain_clear :
    (c : CrashClass) (r : SafeLoopRecord)
    → retain_boot_flag_until_reapply (decide_recovery none c r) ≡ false
unfolding retain_boot_flag_until_reapply decide_recovery
retain_clear c r = ground arith

-- A crash keeps its flag armed until the profile has been considered, and commits one boot.
pub commit_armed :
    (records : Codec SafeLoopRecord) (io : Io) (flag : BootFlag) (c : CrashClass)
    (r : SafeLoopRecord) (d : Disk)
    → commit records io (decide_recovery (some flag) c r) r d
      ≡ ((save_record records io (boot (some flag) c r).0 d).0, (boot (some flag) c r).0)
unfolding commit boot
commit_armed records io flag c r d = rw (retain_armed flag c r)

pub commit_clear :
    (records : Codec SafeLoopRecord) (io : Io) (c : CrashClass) (r : SafeLoopRecord) (d : Disk)
    → commit records io (decide_recovery none c r) r d
      ≡ ((save_record records io (boot none c r).0 (clear_boot_flag io 1 d).0).0, (boot none c r).0)
unfolding commit boot
commit_clear records io c r d = rw (retain_clear c r)
