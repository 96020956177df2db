-- ===== src/Queue/Store/Reads.antt =====
-- The read cache of the queue (`loadQueueForRead` of src/jobs/queue.ts), for one caller at a time: the
-- database stays the same, and no other read is under way.
use bfrost.Prelude.{ℕ, none, some, List, ◌==◌, if◌then◌else◌, ok}
use bfrost.Platform.{Platform}
use bfrost.Queue.Item.{QueueItem}
use bfrost.Queue.Store.{World, Effect, continue, load_queue}

-- The cache is seeded unless a write dropped it while the read ran.
pub seed : ℕ → List QueueItem → Effect (List QueueItem)
seed generation queue s = (
  ok queue,
  if s.cache_generation == generation then record s { cached_queue = some queue } else s,
)

pub load_queue_for_read : Platform → World → Effect (List QueueItem)
unfolding seed
load_queue_for_read p w s = elim s.cached_queue [
  | some queue ↦ (ok queue, s)
  | none ↦ continue (load_queue p w s) (seed s.cache_generation)
]
