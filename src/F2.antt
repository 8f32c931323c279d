-- ===== src/F2.antt =====
-- The observation journal of the undervolt search, `crates/core/src/f2_observation.rs`: what was seen of
-- each candidate, which of it counts as evidence, the frontier it adds up to, the gate for Apply, and
-- the file.
pub mod Float
pub mod Kinds
pub mod Observation
pub mod Evidence
pub mod Frontier
pub mod Entries
pub mod Apply
pub mod Journal
pub mod Bridge
