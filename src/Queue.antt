-- ===== src/Queue.antt =====
-- The job queue, src/thinktank/queue/: rows of the table `jobs`, and the operations on them.
pub mod Job
pub mod Rows
pub mod Retry
pub mod Errors
pub mod Claim
pub mod Reclaim
pub mod Lifecycle
pub mod Backpressure
pub mod RateLimiter
pub mod KillSwitch
