-- ===== src/VfCurve.antt =====
-- The driver's voltage/frequency curve, `crates/gpu-nvapi/src/lib.rs`: the planners of per-bin frequency
-- offsets and the writers that put a plan on the hardware.
pub mod Ceiling
pub mod Bounded
pub mod Anchored
