-- ===== src/Actions.antt =====
-- The approval queue for the actions of workers (src/actions).
pub mod Store
pub mod Diff
pub mod Primitives
mod Tests
