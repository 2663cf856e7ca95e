-- ===== src/Discovery.antt =====
-- src/thinktank/discovery/: the qualification rubric of expert candidates and the daily quota.
pub mod Rubric
pub mod Quota
pub mod Scan
