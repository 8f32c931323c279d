-- ===== src/Probe.antt =====
-- The supervised undervolt probe, `crates/service/src/gpu_undervolt.rs`: the transaction on one candidate,
-- the descent through several, and the decisions between them.
pub mod Report
pub mod Motor
pub mod Descent
pub mod Decision
pub mod Transaction
pub mod Guard
