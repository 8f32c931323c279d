-- ===== src/Status.antt =====
-- The operator's view of the Safe Loop: `status_snapshot` and `acknowledge_forge_incident` of
-- `crates/service/src/safe_loop_runtime.rs`, and `SafeLoopStatus` of `crates/core/src/ipc.rs`.
pub mod Acknowledge
use nidavellir.Shared.{
  ℕ, ◌-◌, ltb, Bool, true, false, List, Option, none, some, if◌then◌else◌, length, drop, is_some,
}
use nidavellir.Shared.Text.{Text}
use nidavellir.SafeLoop.Point.{TuningPoint, BlacklistRegion}
use nidavellir.SafeLoop.Phase.{SafeLoopState}
use nidavellir.SafeLoop.Bugcheck.{CrashClass}
use nidavellir.SafeLoop.Record.{ForgeIncident, SafeLoopRecord, acknowledge_forge_incident}
use nidavellir.SafeLoop.Recovery.{safe_mode_crash_threshold}
use nidavellir.SafeLoop.Store.{Codec, Disk, Io, is_boot_flag_armed, load_record, save_record}
use nidavellir.Condemnation.Event.{CondemnationEvent}
use nidavellir.Condemnation.Ledger.{load_all}
use nidavellir.Condemnation.Pairs.{effective_condemnation_events}

pub record SafeLoopStatus : Type 0 where
  pub state : SafeLoopState
  pub safe_mode : Bool
  pub consecutive_crashes : ℕ
  pub crash_threshold : ℕ
  pub boot_flag_armed : Bool
  pub last_validated : Option TuningPoint
  pub blacklist : List BlacklistRegion
  pub recent_crashes : List CrashClass
  pub recovery_pending_ack : Bool
  pub pending_forge_incident : Option ForgeIncident
  pub condemnations : List CondemnationEvent

abbrev pub sentinel_condemnation_tail : ℕ
sentinel_condemnation_tail = 100

-- `drain(0..drop)` of what is over the tail.
unfoldable pub newest_events : List CondemnationEvent → List CondemnationEvent
newest_events events =
    if ltb sentinel_condemnation_tail (length events)
    then drop (length events - sentinel_condemnation_tail) events
    else events

-- `ledger` is the content of the ledger file, if it can be read.
unfoldable pub status_snapshot :
    Codec SafeLoopRecord → Codec CondemnationEvent → Io → Option Text → Disk → SafeLoopStatus
status_snapshot records events io ledger d =
    let r = load_record records io d in
    record {
      state = r.state;
      safe_mode = r.safe_mode;
      consecutive_crashes = r.consecutive_crashes;
      crash_threshold = safe_mode_crash_threshold;
      boot_flag_armed = is_boot_flag_armed io d;
      last_validated = r.last_validated;
      blacklist = r.blacklist;
      recent_crashes = r.crash_log;
      recovery_pending_ack = is_some r.pending_forge_incident;
      pending_forge_incident = r.pending_forge_incident;
      condemnations = newest_events (effective_condemnation_events (load_all events ledger));
    }

-- `Ok` of whether an incident was acknowledged; none is the error that the record was not saved.
abbrev saved_or_error : Disk × Bool → Disk × Option Bool
saved_or_error (d, true) = (d, some true)
saved_or_error (d, false) = (d, none)

-- `acknowledge_forge_incident`
unfoldable pub acknowledge_on_disk : Codec SafeLoopRecord → Io → Disk → Disk × Option Bool
acknowledge_on_disk records io d =
    let (r, acknowledged) = acknowledge_forge_incident (load_record records io d) in
    if is_some acknowledged then saved_or_error (save_record records io r d) else (d, some false)
