-- ===== src/Timestamping.antt =====
-- app/timestamping: what a detached proof is, and which proofs are accepted.
pub mod Detached
pub mod Counting
pub mod Turns
pub mod Trees
mod Tests
