-- ===== src/Queue/Dedupe/Merged.antt =====
-- What the row that is kept has of its copies: every consumer's namespace, and the latest time
-- (src/jobs/queue.ts, dedupeQueueById).
use bfrost.Prelude.{
  String, Bool, Option, none, some, List, [], ◌∷◌, ◌≡◌, refl, find, str_eq, spread, lookup, arith,
  eq_iff, ◌||◌, false, or_else, is_some, ap, ◌&&◌, ◌∙◌, ℕ, max, lookup-spread, if◌then◌else◌,
}
use bfrost.Platform.{Platform}
use bfrost.Json.{Namespaces, Object}
use bfrost.Queue.Item.{QueueItem, anchor_iso}
use bfrost.Queue.Dedupe.{
  merge, absorb, dedupe_from, with_metadata, metadata_of, dedupe_queue_by_id, item_anchor_ms,
}
use bfrost.Queue.Dedupe.Laws.{by_id, merge-id}

-- The namespace that the row with this id carries for a consumer.
abbrev pub namespace : List QueueItem → String → String → Option Object
namespace queue id consumer = elim (find (by_id id) queue) [
  | none ↦ none
  | some item ↦ lookup consumer (metadata_of item)
]

-- A consumer has a namespace on some copy of the item.
abbrev pub handled : List QueueItem → String → String → Bool
handled [] id consumer = false
handled (x ∷ queue) id consumer =
    (str_eq x.id id && is_some (lookup consumer (metadata_of x))) || handled queue id consumer

lookup-with_metadata :
    (consumer : String) (m older : Namespaces) (item : QueueItem)
    → m ≡ spread older (metadata_of item)
    → lookup consumer (metadata_of (with_metadata m item))
      ≡ or_else (lookup consumer (metadata_of item)) (lookup consumer older)
lookup-with_metadata consumer [] older item h =
    let both : none ≡ or_else (lookup consumer (metadata_of item)) (lookup consumer older) =
      ap (lookup consumer) h ∙ lookup-spread consumer older (metadata_of item) in
    ground arith
lookup-with_metadata consumer (e ∷ m) older item h =
    ap (lookup consumer) h ∙ lookup-spread consumer older (metadata_of item)

is_some-merge :
    (p : Platform) (x item : QueueItem) (consumer : String)
    → is_some (lookup consumer (metadata_of (merge p x item)))
      ≡ (is_some (lookup consumer (metadata_of x)) || is_some (lookup consumer (metadata_of item)))
unfolding merge
is_some-merge p x item consumer = ground (
  arith,
  lookup-with_metadata consumer (spread (metadata_of x) (metadata_of item)) (metadata_of x) item
      refl,
  lookup-with_metadata consumer (spread (metadata_of item) (metadata_of x)) (metadata_of item) x
      refl,
)

namespace-absorb :
    (p : Platform) (kept : List QueueItem) (item : QueueItem) (id consumer : String)
    → is_some (namespace (absorb p kept item) id consumer) ≡ (
        is_some (namespace kept id consumer)
        || (str_eq item.id id && is_some (lookup consumer (metadata_of item))))
unfolding absorb
namespace-absorb p [] item id consumer = ground arith
namespace-absorb p (x ∷ kept) item id consumer = ground (
  arith,
  namespace-absorb p kept item id consumer,
  merge-id p x item,
  is_some-merge p x item consumer,
  eq_iff x.id item.id,
  eq_iff x.id id,
  eq_iff item.id id,
)

namespace-dedupe_from :
    (p : Platform) (kept queue : List QueueItem) (id consumer : String)
    → is_some (namespace (dedupe_from p kept queue) id consumer)
      ≡ (is_some (namespace kept id consumer) || handled queue id consumer)
unfolding dedupe_from
namespace-dedupe_from p kept [] id consumer = ground arith
namespace-dedupe_from p kept (item ∷ queue) id consumer = ground (
  arith,
  namespace-dedupe_from p (absorb p kept item) queue id consumer,
  namespace-absorb p kept item id consumer,
)

-- After the collapse, the row with an id carries a namespace for a consumer exactly when some
-- copy of the item in the queue carried one.
pub namespace-dedupe :
    (p : Platform) (queue : List QueueItem) (id consumer : String)
    → is_some (namespace (dedupe_queue_by_id p queue) id consumer) ≡ handled queue id consumer
unfolding dedupe_queue_by_id
namespace-dedupe p queue id consumer = namespace-dedupe_from p [] queue id consumer

-- The anchor of the row with this id, and the latest anchor among the copies.
abbrev pub anchor_in : Platform → List QueueItem → String → ℕ
anchor_in p queue id = elim (find (by_id id) queue) [ none ↦ 0 | some item ↦ item_anchor_ms p item ]

abbrev pub latest : Platform → List QueueItem → String → ℕ
latest p [] id = 0
latest p (x ∷ queue) id =
    let rest = latest p queue id in if str_eq x.id id then max (item_anchor_ms p x) rest else rest

anchor-with_metadata :
    (p : Platform) (m : Namespaces) (item : QueueItem)
    → item_anchor_ms p (with_metadata m item) ≡ item_anchor_ms p item
unfolding item_anchor_ms anchor_iso
anchor-with_metadata p [] item = refl
anchor-with_metadata p (e ∷ m) item = refl

anchor-merge :
    (p : Platform) (x item : QueueItem)
    → item_anchor_ms p (merge p x item) ≡ max (item_anchor_ms p x) (item_anchor_ms p item)
unfolding merge
anchor-merge p x item = ground (
  arith,
  anchor-with_metadata p (spread (metadata_of x) (metadata_of item)) item,
  anchor-with_metadata p (spread (metadata_of item) (metadata_of x)) x,
)

anchor_in-absorb :
    (p : Platform) (kept : List QueueItem) (item : QueueItem) (id : String)
    → anchor_in p (absorb p kept item) id ≡ (
        if str_eq item.id id
        then max (anchor_in p kept id) (item_anchor_ms p item)
        else anchor_in p kept id)
unfolding absorb
anchor_in-absorb p [] item id = ground arith
anchor_in-absorb p (x ∷ kept) item id = ground (
  arith,
  anchor_in-absorb p kept item id,
  merge-id p x item,
  anchor-merge p x item,
  eq_iff x.id item.id,
  eq_iff x.id id,
  eq_iff item.id id,
)

anchor_in-dedupe_from :
    (p : Platform) (kept queue : List QueueItem) (id : String)
    → anchor_in p (dedupe_from p kept queue) id ≡ max (anchor_in p kept id) (latest p queue id)
unfolding dedupe_from
anchor_in-dedupe_from p kept [] id = omega arith
anchor_in-dedupe_from p kept (item ∷ queue) id =
    ground (
      arith,
      anchor_in-dedupe_from p (absorb p kept item) queue id,
      anchor_in-absorb p kept item id,
    )

-- The row that is kept has the latest anchor of all copies with its id.
pub anchor_in-dedupe :
    (p : Platform) (queue : List QueueItem) (id : String)
    → anchor_in p (dedupe_queue_by_id p queue) id ≡ latest p queue id
unfolding dedupe_queue_by_id
anchor_in-dedupe p queue id = omega (arith, anchor_in-dedupe_from p [] queue id)
