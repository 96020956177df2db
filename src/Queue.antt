-- ===== src/Queue.antt =====
-- The Item Bus queue (src/jobs/queue.ts).
pub mod Item
pub mod Dedupe
pub mod Moves
pub mod Table
pub mod Store
pub mod Snapshot
