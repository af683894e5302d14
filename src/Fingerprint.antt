-- ===== src/Fingerprint.antt =====
-- src/routing_miss_fingerprint.rs: the scalar packet fingerprint, and the packets it runs over.
pub mod Scalar
pub mod Fixture
pub mod Counts
