-- ===== src/SafeLoop/Store.antt =====
-- `SafeLoopStore` of `crates/core/src/safe_loop.rs`: four files in one directory. `Io` says which
-- calls of the file system succeed; a write that fails may leave a torn file. JSON is the codec that
-- the operations take: encoding may fail, decoding gives none for what is no such value.
use nidavellir.Shared.{
  ℕ, ◌==◌, Bool, true, false, ◌&&◌, [], ◌∷◌, Option, none, some, if◌then◌else◌, is_some, unwrap_or,
}
use nidavellir.Shared.Text.{Text}
use nidavellir.SafeLoop.Record.{SafeLoopRecord, default_record}
use nidavellir.SafeLoop.Recovery.{BootFlag}

pub record Codec (A : Type 0) : Type 0 where
  pub encode : A → Option Text
  pub decode : Text → Option A

pub data FileName : Type 0 where
  boot_flag_file record_file heartbeat_file clean_shutdown_file : FileName

pub record Disk : Type 0 where
  pub boot_flag : Option Text
  pub safe_loop : Option Text
  pub heartbeat : Option Text
  pub clean_shutdown : Option Text

-- `removes f n` is for the attempt number `n` on the file in one run; `torn` is what a failed write
-- leaves of a file.
pub record Io : Type 0 where
  pub creates_dir : Bool
  pub reads : FileName → Bool
  pub stats : FileName → Bool
  pub writes : FileName → Bool
  pub removes : FileName → ℕ → Bool
  pub torn : FileName → Option Text

abbrev pub file : Disk → FileName → Option Text
file d boot_flag_file = d.boot_flag
file d record_file = d.safe_loop
file d heartbeat_file = d.heartbeat
file d clean_shutdown_file = d.clean_shutdown

abbrev pub put : Disk → FileName → Option Text → Disk
put d boot_flag_file content = record d { boot_flag = content }
put d record_file content = record d { safe_loop = content }
put d heartbeat_file content = record d { heartbeat = content }
put d clean_shutdown_file content = record d { clean_shutdown = content }

-- `strip_prefix('\u{feff}').unwrap_or(s)`
unfoldable pub strip_bom : Text → Text
strip_bom [] = []
strip_bom (c ∷ s) = if c == 0xfeff then s else c ∷ s

unfoldable pub read_file : Io → Disk → FileName → Option Text
read_file io d f = if io.reads f then file d f else none

-- `Path::exists`
unfoldable pub exists : Io → Disk → FileName → Bool
exists io d f = io.stats f && is_some (file d f)

-- `ensure_dir`, then `std::fs::write`; the flag tells whether both succeeded.
unfoldable pub write_file : Io → FileName → Text → Disk → Disk × Bool
write_file io f content d =
    if io.creates_dir
    then if io.writes f then (put d f (some content), true) else (put d f (io.torn f), false)
    else (d, false)

-- `remove_file`, where a file that is not there is no error.
unfoldable pub remove_file : Io → ℕ → FileName → Disk → Disk × Bool
remove_file io n f d =
    if is_some (file d f)
    then if io.removes f n then (put d f none, true) else (d, false)
    else (d, true)

-- `ensure_dir` comes first, then the encoding, then the write.
abbrev pub write_encoded : Io → FileName → Option Text → Disk → Disk × Bool
write_encoded io f none d = (d, false)
write_encoded io f (some content) d = write_file io f content d

module _ (flags : Codec BootFlag) where
  unfoldable pub arm_boot_flag : Io → BootFlag → Disk → Disk × Bool
  unfolding write_file
  arm_boot_flag io flag d = write_encoded io boot_flag_file (flags.encode flag) d

  unfoldable pub read_boot_flag : Io → Disk → Option BootFlag
  read_boot_flag io d = elim (read_file io d boot_flag_file) [
    | none ↦ none
    | some content ↦ flags.decode (strip_bom content)
  ]

unfoldable pub is_boot_flag_armed : Io → Disk → Bool
is_boot_flag_armed io d = exists io d boot_flag_file

unfoldable pub clear_boot_flag : Io → ℕ → Disk → Disk × Bool
unfolding remove_file
clear_boot_flag io n d = remove_file io n boot_flag_file d

module _ (records : Codec SafeLoopRecord) where
  abbrev decoded : Option Text → Option SafeLoopRecord
  decoded none = none
  decoded (some content) = records.decode (strip_bom content)

  unfoldable pub load_record : Io → Disk → SafeLoopRecord
  load_record io d = unwrap_or (decoded (read_file io d record_file)) default_record

  unfoldable pub save_record : Io → SafeLoopRecord → Disk → Disk × Bool
  unfolding write_file
  save_record io r d = write_encoded io record_file (records.encode r) d

unfoldable pub write_heartbeat : Io → Text → Disk → Disk × Bool
unfolding write_file
write_heartbeat io now d = write_file io heartbeat_file now d

unfoldable pub write_clean_shutdown : Io → Text → Disk → Disk × Bool
unfolding write_file
write_clean_shutdown io now d = write_file io clean_shutdown_file now d

unfoldable pub is_clean_shutdown_present : Io → Disk → Bool
is_clean_shutdown_present io d = exists io d clean_shutdown_file

unfoldable pub clear_clean_shutdown : Io → Disk → Disk × Bool
unfolding remove_file
clear_clean_shutdown io d = remove_file io 0 clean_shutdown_file d
