-- ===== src/SafeLoop/Learning.antt =====
-- What the service does to the record beside the operations of `crates/core/src/safe_loop.rs`: points that
-- are learned at `crates/service/src/gpu_undervolt.rs` and `tdr_sentinel.rs`, the operator's report and the
-- start of a clean run in `gpu_power_sweep.rs`, and the full reset in `ipc_server.rs`. The id and the
-- texts of a new incident, which hold the time, are arguments.
use nidavellir.Shared.{
  ℕ, ◌==◌, String, Bool, true, false, ◌&&◌, not, List, [], ◌∷◌, ◌++◌, Option, none, some, leb,
  if◌then◌else◌, is_some, unwrap_or, any, all, filter, length, drop,
}
use nidavellir.Shared.Int.{ℤ, pos, leb_ℤ}
use nidavellir.Shared.Dict.{Dict, lookup}
use nidavellir.SafeLoop.Point.{TuningPoint, from_axes, BlacklistRegion, around}
use nidavellir.SafeLoop.Phase.{unstable}
use nidavellir.SafeLoop.Record.{
  ForgeIncidentKind, operator_field_failure, ForgeIncident, SafeLoopRecord, is_blacklisted, opt_eq,
}
use nidavellir.SafeLoop.Recovery.{default_blacklist_radius}
use nidavellir.F2.Bridge.{PowerSweepPoint}

-- A point that is not blacklisted yet is, as `blacklist_point` of the rig does it.
unfoldable pub learn_point : SafeLoopRecord → TuningPoint → SafeLoopRecord
learn_point r intent =
    if is_blacklisted r intent
    then r
    else record r { blacklist = r.blacklist ++ around intent default_blacklist_radius ∷ [] }

abbrev is_value : Option ℤ → ℤ → Bool
is_value none b = false
is_value (some a) b = leb_ℤ a b && leb_ℤ b a

-- `==` on maps of distinct keys.
abbrev same_axes : Dict ℤ → Dict ℤ → Bool
same_axes a b = length a == length b && all (λ entry. is_value (lookup entry.0 b) entry.1) a

abbrev same_region : BlacklistRegion → BlacklistRegion → Bool
same_region a b = is_value (some a.radius) b.radius && same_axes a.center.axes b.center.axes

-- The record that `persist_field_failure` saves.
unfoldable pub learn_field_failure : SafeLoopRecord → ℕ → ℕ → SafeLoopRecord
learn_field_failure r target_mhz failed_mv =
    let intent =
      from_axes (("gpu_freq_mhz", pos target_mhz) ∷ ("gpu_vf_bin_mv", pos failed_mv) ∷ []) in
    let region = around intent default_blacklist_radius in
    if any (same_region region) r.blacklist
    then r
    else record r { blacklist = r.blacklist ++ region ∷ [] }

abbrev is_operator_kind : ForgeIncidentKind → Bool
is_operator_kind operator_field_failure = true
is_operator_kind other = false

abbrev is_number : Option ℕ → ℕ → Bool
is_number none n = false
is_number (some m) n = m == n

abbrev pub is_reported : String → ℕ → ℕ → ForgeIncident → Bool
is_reported gpu_key target_mhz anchor_mv incident =
    is_operator_kind incident.kind
    && opt_eq incident.gpu_key (some gpu_key)
    && is_number incident.target_mhz target_mhz
    && is_number incident.anchor_mv anchor_mv

-- What tells one report of the operator from another.
pub record Stamp : Type 0 where
  pub id : String
  pub detected_at : String
  pub message : String

abbrev pub operator_incident : Stamp → Option String → String → ℕ → ℕ → ForgeIncident
operator_incident stamp run_id gpu_key target_mhz anchor_mv = record {
  id = stamp.id;
  kind = operator_field_failure;
  detected_at = stamp.detected_at;
  run_id = run_id;
  gpu_key = some gpu_key;
  target_mhz = some target_mhz;
  anchor_mv = some anchor_mv;
  message = stamp.message;
  acknowledged = true;
}

-- `remove(0)` from 64 entries on, then `push`.
unfoldable pub push_dropping_one : List ForgeIncident → ForgeIncident → List ForgeIncident
push_dropping_one incidents incident =
    (if leb 64 (length incidents) then drop 1 incidents else incidents) ++ incident ∷ []

abbrev pub target_of : PowerSweepPoint → ℕ
target_of point = unwrap_or point.target_clock_mhz point.clock_mhz

abbrev pub anchor_of_point : PowerSweepPoint → ℕ
anchor_of_point point =
    unwrap_or point.vf_table_voltage_mv (unwrap_or point.boundary_voltage_mv point.voltage_mv)

abbrev pub field_intent : PowerSweepPoint → TuningPoint
field_intent point = from_axes (
    ("gpu_freq_mhz", pos (target_of point))
    ∷ ("gpu_offset_mhz", point.offset_mhz)
    ∷ ("gpu_vf_bin_mv", pos (anchor_of_point point))
    ∷ [])

abbrev pub add_operator_incident : SafeLoopRecord → String → ForgeIncident → SafeLoopRecord
add_operator_incident r gpu_key incident =
    if any (is_reported gpu_key (unwrap_or incident.target_mhz 0) (unwrap_or incident.anchor_mv 0))
      r.forge_incidents
    then r
    else record r { forge_incidents = push_dropping_one r.forge_incidents incident }

-- The new record; the pair that it returns is the target and the anchor of the point.
unfoldable pub record_operator_field_failure :
    SafeLoopRecord → PowerSweepPoint → Option String → String → Stamp → SafeLoopRecord
record_operator_field_failure r point run_id gpu_key stamp =
    let learned = learn_point r (field_intent point) in
    let added =
      add_operator_incident learned gpu_key
        (operator_incident stamp run_id gpu_key (target_of point) (anchor_of_point point)) in
    record added { state = if added.safe_mode then added.state else unstable }

-- The new record; the number that it returns is how many regions are gone.
unfoldable pub strip_gpu_vf_blacklist : SafeLoopRecord → SafeLoopRecord
strip_gpu_vf_blacklist r = record r {
  blacklist =
      filter (λ region. not (is_some (lookup "gpu_freq_mhz" region.center.axes))) r.blacklist;
}
