-- ===== src/Simd.antt =====
-- src/simd_packet_hotpath.rs: vectorised packet fingerprints and payload scanners.
pub mod Vector
pub mod Fingerprint
pub mod H264
pub mod Vp8
pub mod Fixture
