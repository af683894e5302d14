-- ===== src/Policy.antt =====
-- src/source_policy_refresh.rs: the policy of each receiver, planned from inputs that are built anew or
-- from cached ladders of bitrates.
pub mod Defs
pub mod Ladder
pub mod Cycles
pub mod Budget
pub mod Visible
pub mod Chosen
pub mod Scores
pub mod New
