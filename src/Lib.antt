-- ===== src/Lib.antt =====
-- Nidavellir, a GPU tuning system: the parts that make tuning recoverable and its searches.
--
-- Before a tuning point is applied, the Safe Loop arms a flag on disk; if the machine crashes, the next
-- start of the service finds the flag, blacklists the region of the point and recedes, and after three
-- crashes in a row it falls back to stock settings. The condemnation ledger keeps every pair of clock and
-- voltage that has failed and refuses candidates from it. The sweep searches the lowest stable voltage
-- for each clock and makes three profiles of what it found. The driver library plans the offsets that put
-- a point on the hardware, rejects what is out of bounds, and writes them bin by bin. The F2 journal keeps
-- what was observed of each undervolt candidate; from it the frontier of stable points is learned, and the
-- gate for Apply is decided. The probe applies one candidate at a time under the Safe Loop's flag, and the
-- descent goes on to the next only from a GPU at stock.
--
-- Files and the code that they model:
-- - Shared (Shared/*): tests, lists, u32 and i64 arithmetic, maps and texts; no code of its own.
-- - SafeLoop/Point, Phase, Bugcheck, Record, Recovery, Store: crates/core/src/safe_loop.rs. `&mut self`
--   methods return the new record; `boot` is `decide_recovery` followed by `apply_recovery`; the store is
--   a record of four optional texts, `Io` says which calls of the file system succeed, and JSON is a pair
--   of functions that the operations take.
-- - SafeLoop/Startup: `run_startup_recovery` of crates/service/src/safe_loop_runtime.rs, and the guards of
--   `reapply_on_boot` of crates/service/src/gpu_apply.rs.
-- - Status: `status_snapshot` and `acknowledge_forge_incident` of crates/service/src/safe_loop_runtime.rs,
--   over the store and the content of the ledger, and `SafeLoopStatus` of crates/core/src/ipc.rs.
-- - SafeLoop/Learning: what the service does to the record beside safe_loop.rs: `blacklist_point` of
--   crates/service/src/gpu_undervolt.rs, `persist_field_failure` of tdr_sentinel.rs, and
--   `record_operator_field_failure` and `strip_gpu_vf_blacklist` of gpu_power_sweep.rs.
-- - SafeLoop/Recovery/History: any sequence of operations on one record, the full reset of
--   crates/service/src/ipc_server.rs being one of them.
-- - Condemnation/Event, Pairs, Envelope, Ledger: crates/core/src/condemnation.rs.
-- - Sweep/Stability, Bisection, Profiles, Engine: crates/core/src/gpu_sweep.rs; `drive` is the runtime that
--   tests what the engine asks for.
-- - Sweep/Silicon: the simulated backend of crates/core/src/gpu_control.rs.
-- - VfCurve/Ceiling, Bounded, Anchored: the planners and writers of V/F offsets in
--   crates/gpu-nvapi/src/lib.rs; `set_point` is a function that says which offsets the driver takes.
-- - F2/Kinds, Observation, Evidence, Frontier, Entries, Apply, Bridge, Journal:
--   crates/core/src/f2_observation.rs, with `PowerSweepPoint` of crates/core/src/ipc.rs. The journal file
--   is a text; its JSON codec is a parameter. F2/Float computes on the bits of an f32 (`is_finite`,
--   `total_cmp`, `max`, casts from u32), and takes f64 arithmetic as a parameter, since only the
--   confidence of an entry depends on it.
-- - Probe/Report, Motor, Descent, Transaction, Decision, Guard: crates/service/src/gpu_undervolt.rs, with
--   `PositiveOffsetVerification` of crates/service/src/gpu_verify.rs. The traits `F2Ops`,
--   `F2MultiStepOps` and `F2CandidateTransactionOps` are records of operations on a state, so what the
--   rig does is a parameter; `Keeps` says what is relied on: arming sets the flag, a confirmed reset puts
--   the GPU at stock, and nothing but the clearing takes the flag away. Refusals and stop reasons are
--   data in place of their texts; the `cfg(windows)` functions are modelled like the others.
-- - Tests: each theorem at a concrete input, with codecs that know one value.
--
-- Integers: u32 values are natural numbers with `% 2 ^ 32` where a sum or product can leave the range;
-- i64 and i32 values are integers that wrap. Bounds: the voltage search takes the distance from the floor
-- to stock and two more as its fuel; the engine's `next_command` takes the number of clocks left and one
-- more, and `drive` two more than that many tests for each clock. The interpolation of the floor is
-- modelled for voltages up to 2^31 - 1 mV, where i64 does not wrap.
--
-- Not modelled: log lines, time stamps, threads, the event-log query, named pipes, JSON itself, the
-- drivers below `set_point`, the forge run around the probe (the rest of
-- crates/service/src/gpu_undervolt.rs), the power sweep (gpu_power_sweep.rs) and the driver-reset
-- sentinel (tdr_sentinel.rs) beyond what they do to the record, sensor detection, and the user
-- interface.
pub mod Shared
pub mod SafeLoop
pub mod Condemnation
pub mod Sweep
pub mod VfCurve
pub mod Status
pub mod F2
pub mod Probe
mod Tests
