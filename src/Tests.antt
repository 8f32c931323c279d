-- ===== src/Tests.antt =====
-- Each theorem at a concrete input, and a few runs.
mod Codecs
mod SafeLoop
mod Startup
mod Condemnation
mod Sweep
mod VfCurve
mod Journal
mod F2
mod ApplyGate
mod JournalCodec
mod Probe
mod Guard
