-- ===== src/Scheduler.antt =====
-- The scheduler: the pool of running jobs, the failures in a row, the catch-up window and the retries
-- (src/scheduler.ts), and the previous slot of a cron schedule (src/cron-internals.ts).
pub mod Pool
pub mod Cron
pub mod Streaks
pub mod Windows
pub mod Runtime
pub mod Work
pub mod Trigger
pub mod Wakes
pub mod Skipped
pub mod Lifecycle
mod Tests
mod Samples
