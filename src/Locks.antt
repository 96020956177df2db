-- ===== src/Locks.antt =====
-- The locks in the database: one for each execution of a scheduled command, and one for the process.
pub mod Execution
pub mod Runtime
mod Tests
