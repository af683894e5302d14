-- ===== src/ColdPath.antt =====
-- src/packet_loop_cold_path.rs: the same accounting with the rare branches inline and moved to
-- functions of their own.
pub mod Checksum
pub mod Ingress
pub mod Routes
pub mod Stats
