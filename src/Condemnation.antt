-- ===== src/Condemnation.antt =====
-- The condemnation ledger, `crates/core/src/condemnation.rs`.
pub mod Event
pub mod Ledger
pub mod Envelope
pub mod Pairs
