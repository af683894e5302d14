-- ===== src/Gate.antt =====
-- src/consumer_packet_gate.rs: destinations behind packet gates, found by a scan or by an index.
pub mod Index
pub mod Reindex
pub mod Defs
pub mod Batch
pub mod Maintenance
