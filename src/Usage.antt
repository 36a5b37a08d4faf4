-- ===== src/Usage.antt =====
-- src/usage.rs: the thinking effort and the token counters of a body.
pub mod Types
pub mod Candidates
pub mod Scanner
pub mod Merge
pub mod Effort
pub mod Request
