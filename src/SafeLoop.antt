-- ===== src/SafeLoop.antt =====
-- The Safe Loop, `crates/core/src/safe_loop.rs`, and the service's half of it,
-- `crates/service/src/safe_loop_runtime.rs`: one child module for each part.
pub mod Point
pub mod Phase
pub mod Bugcheck
pub mod Record
pub mod Recovery
pub mod Learning
pub mod Store
pub mod Startup
