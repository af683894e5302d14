-- ===== src/Hardening.antt =====
-- src/performance_hardening.rs: waking the source policy, coalescing keyframe requests, and planning
-- routes.
pub mod Wake
pub mod Keyframes
pub mod Planning
