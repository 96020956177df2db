-- ===== src/Bus.antt =====
-- The Item Bus: the surface on which producers and consumers exchange items
-- (src/jobs/item-bus.ts). It stands on the operations of the queue store.
pub mod Consumer
pub mod Publish
mod Tests
