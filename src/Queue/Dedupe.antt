-- ===== src/Queue/Dedupe.antt =====
-- `dedupeQueueById` and `pruneQueue` (src/jobs/queue.ts).
pub mod Laws
pub mod Merged
mod Tests
use bfrost.Prelude.{
  ℕ, ◌+◌, ◌*◌, String, Bool, true, false, Option, none, some, List, [], ◌∷◌, map, ltb, leb,
  if◌then◌else◌, get_or_else, or_else, find, keep, str_eq, spread,
}
use bfrost.Platform.{Platform, epoch}
use bfrost.Json.{Namespaces}
use bfrost.Queue.Item.{QueueItem, anchor_iso}

abbrev pub queue_ttl_ms : ℕ
queue_ttl_ms = 7 * 24 * 60 * 60 * 1000

pub item_anchor_ms : Platform → QueueItem → ℕ
item_anchor_ms p item = get_or_else (p.date_parse (anchor_iso item)) epoch

abbrev metadata_of : QueueItem → Namespaces
metadata_of item = get_or_else item.metadata []

-- `{ ...newer, metadata }`, unless the merged metadata is empty.
abbrev with_metadata : Namespaces → QueueItem → QueueItem
with_metadata [] item = item
with_metadata (entry ∷ rest) item = record item {
  fields = record item.fields { metadata = some (entry ∷ rest) };
}

-- Two rows with one id: the newer one's fields, the metadata of both.
pub merge : Platform → QueueItem → QueueItem → QueueItem
merge p existing item =
    if leb (item_anchor_ms p existing) (item_anchor_ms p item)
    then with_metadata (spread (metadata_of existing) (metadata_of item)) item
    else with_metadata (spread (metadata_of item) (metadata_of existing)) existing

-- One round of the loop: `byId` and `order` together are the list of the rows kept so far, in the
-- order in which their ids came.
pub absorb : Platform → List QueueItem → QueueItem → List QueueItem
absorb p [] item = item ∷ []
absorb p (x ∷ kept) item =
    let rest = absorb p kept item in if str_eq x.id item.id then merge p x item ∷ kept else x ∷ rest

pub dedupe_from : Platform → List QueueItem → List QueueItem → List QueueItem
dedupe_from p kept [] = kept
dedupe_from p kept (item ∷ queue) = dedupe_from p (absorb p kept item) queue

pub dedupe_queue_by_id : Platform → List QueueItem → List QueueItem
dedupe_queue_by_id p queue = dedupe_from p [] queue

-- `!Number.isNaN(anchor) && nowMs - anchor < QUEUE_TTL_MS`.
pub is_active_at : Option ℕ → ℕ → Bool
is_active_at none now = false
is_active_at (some anchor) now = ltb now (anchor + queue_ttl_ms)

unfoldable pub prune_queue : Platform → List QueueItem → ℕ → List QueueItem
unfolding is_active_at
prune_queue p queue now = keep (λ item. is_active_at (p.date_parse (anchor_iso item)) now) queue
