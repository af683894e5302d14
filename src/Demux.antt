-- ===== src/Demux.antt =====
-- src/rtc_udp_demux.rs: the index from remote addresses to sessions.
pub mod Defs
pub mod Routes
pub mod Candidates
pub mod Fixture
pub mod Cycles
pub mod Recovery
