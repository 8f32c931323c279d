-- ===== src/Sweep.antt =====
-- The sweep engine, `crates/core/src/gpu_sweep.rs`, and the simulated hardware that it can run
-- against, `crates/core/src/gpu_control.rs`.
pub mod Stability
pub mod Bisection
pub mod Profiles
pub mod Silicon
pub mod Engine
