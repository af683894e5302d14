-- ===== src/Tests.antt =====
-- Tests by evaluation, and each theorem at a concrete input that meets its hypotheses.
pub mod Keys
pub mod Demux
pub mod Simd
pub mod SimdFixture
pub mod Fanout
pub mod Metrics
pub mod Gate
pub mod Hardening
pub mod Policy
pub mod ColdPath
pub mod Counters
