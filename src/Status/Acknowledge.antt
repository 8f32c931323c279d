-- ===== src/Status/Acknowledge.antt =====
-- The acknowledgement on disk, `acknowledge_forge_incident` of
-- `crates/service/src/safe_loop_runtime.rs`.
use nidavellir.Shared.{
  ◌≡◌, refl, true, false, not, Option, none, some, arith, is_some, if◌then◌else◌,
}
use nidavellir.Shared.Text.{Text}
use nidavellir.SafeLoop.Record.{
  ForgeIncident, SafeLoopRecord, acknowledge_stored, acknowledge_forge_incident,
}
use nidavellir.SafeLoop.Phase.{idle}
use nidavellir.SafeLoop.Store.{Codec, Disk, Io, load_record, is_boot_flag_armed, exists}
use nidavellir.SafeLoop.Startup.Effects.{IsLossless, Works, load-save_record}
use nidavellir.Condemnation.Event.{CondemnationEvent}
use nidavellir.Status.{status_snapshot, acknowledge_on_disk}

acknowledged_record :
    (r : SafeLoopRecord) (i : ForgeIncident)
    → r.pending_forge_incident ≡ some i
    → let (after, acknowledged) = acknowledge_forge_incident r in
      (is_some acknowledged ≡ true)
      × (after ≡ record r {
        pending_forge_incident = none;
        forge_incidents = acknowledge_stored i.id r.forge_incidents;
        state = if not r.safe_mode then idle else r.state;
      })
unfolding acknowledge_forge_incident
acknowledged_record r i h = rw h (refl, refl)

-- Acknowledging a pending incident succeeds: the status then shows no incident and nothing left to
-- acknowledge, the state is idle unless Safe Mode is on, and all else is as before, the streak, the last
-- validated point, the blacklist, Safe Mode, the boot flag, the crashes and the condemnations included. No call of the file system fails, and the JSON codec is
-- lossless and encodes the new record.
pub status-acknowledge_on_disk :
    (records : Codec SafeLoopRecord) (events : Codec CondemnationEvent) (io : Io)
    (ledger : Option Text) (d : Disk) (i : ForgeIncident) (t : Text)
    → let before = status_snapshot records events io ledger d in
      IsLossless records
      → Works io
      → before.pending_forge_incident ≡ some i
      → records.encode (acknowledge_forge_incident (load_record records io d)).0 ≡ some t
      → let (d', outcome) = acknowledge_on_disk records io d in
        let after = status_snapshot records events io ledger d' in
        (outcome ≡ some true)
        × (after ≡ record before {
          pending_forge_incident = none;
          recovery_pending_ack = false;
          state = if before.safe_mode then before.state else idle;
        })
unfolding status_snapshot acknowledge_on_disk is_boot_flag_armed exists
status-acknowledge_on_disk records events io ledger d i t lossless works pending e =
    let r = load_record records io d in
    let facts = acknowledged_record r i pending in
    let saved = load-save_record records io (acknowledge_forge_incident r).0 t d lossless works e in
    ground arith
