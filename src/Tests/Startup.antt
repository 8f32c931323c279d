-- ===== src/Tests/Startup.antt =====
-- The theorems on the startup at concrete inputs, `crates/service/src/safe_loop_runtime.rs`.
use nidavellir.Shared.{
  ◌∙◌, ◌≡◌, inl, inr, refl, true, false, [], ◌∷◌, Option, none, some, arith, if◌then◌else◌,
}
use nidavellir.Shared.Text.{Text}
use nidavellir.SafeLoop.Bugcheck.{unknown}
use nidavellir.SafeLoop.Phase.{idle}
use nidavellir.SafeLoop.Record.{SafeLoopRecord, default_record, is_blacklisted}
use nidavellir.SafeLoop.Recovery.{BootFlag, boot}
use nidavellir.SafeLoop.Store.{Codec, Disk, arm_boot_flag, read_boot_flag, load_record, read_file}
use nidavellir.SafeLoop.Startup.{read_last_bugcheck_class, run_startup_recovery, reapply_on_boot}
use nidavellir.SafeLoop.Startup.Effects.{arm-read_boot_flag}
use nidavellir.SafeLoop.Startup.Crash.{crash_is_learned, startup_clean}
use nidavellir.SafeLoop.Store.{strip_bom}
use nidavellir.SafeLoop.Startup.Effects.{IsLossless}
use nidavellir.SafeLoop.Record.{acknowledge_forge_incident}
use nidavellir.Condemnation.Event.{CondemnationEvent}
use nidavellir.Status.{status_snapshot, acknowledge_on_disk}
use nidavellir.Status.Acknowledge.{status-acknowledge_on_disk}
use nidavellir.Tests.Codecs.{
  also_codec, also_codec-decode, also_codec-encode, also_codec-IsLossless, one_codec-text,
  BootFlag-discrete, SafeLoopRecord-discrete, one_codec, one_codec-encode, one_codec-IsLossless,
  working, working-Works,
}
use nidavellir.Tests.SafeLoop.{point, probe, incident}

abbrev json : Text
json = b'{' ∷ b'}' ∷ []

abbrev empty_disk : Disk
empty_disk = record { boot_flag = none; safe_loop = none; heartbeat = none; clean_shutdown = none }

abbrev message : Option Text
message = some (b'0' ∷ b'x' ∷ b'1' ∷ b'1' ∷ b'6' ∷ [])

abbrev flags : Codec BootFlag
flags = one_codec BootFlag-discrete probe json

-- The record after a crash of the armed point.
abbrev learned : SafeLoopRecord
learned = (boot (some probe) (read_last_bugcheck_class message) default_record).0

abbrev records : Codec SafeLoopRecord
records = one_codec SafeLoopRecord-discrete learned json

abbrev armed : Disk
armed = (arm_boot_flag flags working probe empty_disk).0

nothing_saved : load_record records working armed ≡ default_record
unfolding load_record arm_boot_flag read_file
nothing_saved = ground arith

crash_is_learned_example :
    let d' = (run_startup_recovery flags records working message armed).0 in
    (is_blacklisted (load_record records working d') point ≡ true)
    × ((reapply_on_boot records working false true d').1 ≡ false)
crash_is_learned_example =
    crash_is_learned flags records working message false true empty_disk probe json json
      (one_codec-IsLossless BootFlag-discrete probe)
      (one_codec-IsLossless SafeLoopRecord-discrete learned) working-Works refl
      (one_codec-encode BootFlag-discrete probe json)
      (rw nothing_saved (one_codec-encode SafeLoopRecord-discrete learned json))
      (inr (rw nothing_saved (unfold default_record in ground arith)))

readable : read_boot_flag flags working armed ≡ some probe
readable =
    (arm-read_boot_flag flags working probe json empty_disk
      (one_codec-IsLossless BootFlag-discrete probe) working-Works
      (one_codec-encode BootFlag-discrete probe json)).0

armed_unmarked : armed.clean_shutdown ≡ none
unfolding arm_boot_flag
armed_unmarked = ground arith

-- A flag and a marker of a graceful stop are both on disk.
abbrev stopped : Disk
stopped = record armed { clean_shutdown = some json }

abbrev fresh : SafeLoopRecord
fresh = (boot none unknown default_record).0

abbrev fresh_records : Codec SafeLoopRecord
fresh_records = one_codec SafeLoopRecord-discrete fresh json

nothing_saved_either : load_record fresh_records working stopped ≡ default_record
unfolding load_record arm_boot_flag read_file
nothing_saved_either = ground arith

startup_clean_example :
    let after = (boot none unknown (load_record fresh_records working stopped)).0 in
    let (d', r) = run_startup_recovery flags fresh_records working message stopped in
    (r ≡ after)
    × (load_record fresh_records working d' ≡ after)
    × (d'.boot_flag ≡ none)
    × (d'.clean_shutdown ≡ none)
startup_clean_example =
    startup_clean flags fresh_records working message stopped json
      (one_codec-IsLossless SafeLoopRecord-discrete fresh) working-Works (inl refl)
      (rw nothing_saved_either (one_codec-encode SafeLoopRecord-discrete fresh json))

abbrev pending : SafeLoopRecord
pending = record default_record {
  pending_forge_incident = some incident;
  forge_incidents = incident ∷ [];
}

-- The text of the older record, which has its byte-order mark taken off.
abbrev older : Text
older = b'[' ∷ b']' ∷ []

abbrev released : SafeLoopRecord
released = (acknowledge_forge_incident pending).0

abbrev both : Codec SafeLoopRecord
both = also_codec (one_codec SafeLoopRecord-discrete released json) older pending

abbrev held : Disk
held = record empty_disk { safe_loop = some older }

abbrev no_events : Codec CondemnationEvent
no_events = record { encode = λ e. none; decode = λ t. none }

apart : ¬ (json ≡ older)
apart h = ground arith

both-IsLossless : IsLossless both
both-IsLossless =
    also_codec-IsLossless (one_codec SafeLoopRecord-discrete released json) older pending
      (one_codec-IsLossless SafeLoopRecord-discrete released)
      (λ x e. apart (one_codec-text SafeLoopRecord-discrete released json x older e))

loads_pending : load_record both working held ≡ pending
unfolding load_record read_file strip_bom
loads_pending =
    rw (also_codec-decode (one_codec SafeLoopRecord-discrete released json) older pending)

status-acknowledge_on_disk_example :
    let before = status_snapshot both no_events working none held in
    let (d', outcome) = acknowledge_on_disk both working held in
    let after = status_snapshot both no_events working none d' in
    (outcome ≡ some true)
    × (after ≡ record before {
      pending_forge_incident = none;
      recovery_pending_ack = false;
      state = if before.safe_mode then before.state else idle;
    })
status-acknowledge_on_disk_example =
    status-acknowledge_on_disk both no_events working none held incident json both-IsLossless
      working-Works (unfold status_snapshot in rw loads_pending)
      (rw loads_pending (
        also_codec-encode (one_codec SafeLoopRecord-discrete released json) older pending released
        ∙ one_codec-encode SafeLoopRecord-discrete released json))
