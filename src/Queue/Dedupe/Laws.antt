-- ===== src/Queue/Dedupe/Laws.antt =====
-- One row for each id, and a queue without copies is left as it is (src/jobs/queue.ts,
-- dedupeQueueById).
use mathlib.Core.List.{append-nil, append_assoc}
use bfrost.Prelude.{
  String, Bool, List, [], ◌∷◌, ◌≡◌, refl, str_eq, spread, includes, Distinct, arith, eq_iff, ◌||◌,
  false, ◌∙◌, ◌++◌, sym, all, true, Distinct-middle,
}
use bfrost.Platform.{Platform}
use bfrost.Json.{Namespaces}
use bfrost.Queue.Item.{QueueItem, item_fits, fields_fit}
use bfrost.Queue.Dedupe.{merge, absorb, dedupe_from, with_metadata, metadata_of, dedupe_queue_by_id}

abbrev pub ids : List QueueItem → List String
ids [] = []
ids (x ∷ xs) = x.id ∷ ids xs

abbrev pub by_id : String → QueueItem → Bool
by_id id item = str_eq item.id id

pub with_metadata-id : (m : Namespaces) (item : QueueItem) → (with_metadata m item).id ≡ item.id
with_metadata-id [] item = refl
with_metadata-id (e ∷ m) item = refl

pub merge-id : (p : Platform) (x item : QueueItem) → x.id ≡ item.id → (merge p x item).id ≡ x.id
unfolding merge
merge-id p x item h = ground (
  arith,
  with_metadata-id (spread (metadata_of x) (metadata_of item)) item,
  with_metadata-id (spread (metadata_of item) (metadata_of x)) x,
)

pub includes-absorb :
    (p : Platform) (kept : List QueueItem) (item : QueueItem) (id : String)
    → includes (ids (absorb p kept item)) id ≡ (includes (ids kept) id || str_eq item.id id)
unfolding absorb
includes-absorb p [] item id = ground arith
includes-absorb p (x ∷ kept) item id = ground (
  arith,
  includes-absorb p kept item id,
  merge-id p x item,
  eq_iff x.id item.id,
  eq_iff x.id id,
  eq_iff item.id id,
)

absorb-Distinct :
    (p : Platform) (kept : List QueueItem) (item : QueueItem)
    → Distinct (ids kept)
    → Distinct (ids (absorb p kept item))
unfolding absorb
absorb-Distinct p [] item h = (refl, tt)
absorb-Distinct p (x ∷ kept) item h = ground (
  arith,
  includes-absorb p kept item x.id,
  absorb-Distinct p kept item h.1,
  merge-id p x item,
  eq_iff x.id item.id,
  eq_iff item.id x.id,
)

dedupe_from-Distinct :
    (p : Platform) (kept queue : List QueueItem)
    → Distinct (ids kept)
    → Distinct (ids (dedupe_from p kept queue))
unfolding dedupe_from
dedupe_from-Distinct p kept [] h = h
dedupe_from-Distinct p kept (item ∷ queue) h =
    dedupe_from-Distinct p (absorb p kept item) queue (absorb-Distinct p kept item h)

includes-dedupe_from :
    (p : Platform) (kept queue : List QueueItem) (id : String)
    → includes (ids (dedupe_from p kept queue)) id
      ≡ (includes (ids kept) id || includes (ids queue) id)
unfolding dedupe_from
includes-dedupe_from p kept [] id = ground arith
includes-dedupe_from p kept (item ∷ queue) id =
    ground
      (arith, includes-dedupe_from p (absorb p kept item) queue id, includes-absorb p kept item id)

-- The result has one row for each id, and the same ids as the queue.
pub dedupe-Distinct :
    (p : Platform) (queue : List QueueItem)
    → Distinct (ids (dedupe_queue_by_id p queue))
      × ((id : String) → includes (ids (dedupe_queue_by_id p queue)) id ≡ includes (ids queue) id)
unfolding dedupe_queue_by_id
dedupe-Distinct p queue = (dedupe_from-Distinct p [] queue tt, includes-dedupe_from p [] queue)

absorb_fresh :
    (p : Platform) (kept : List QueueItem) (item : QueueItem)
    → includes (ids kept) item.id ≡ false
    → absorb p kept item ≡ kept ++ item ∷ []
unfolding absorb
absorb_fresh p [] item h = refl
absorb_fresh p (x ∷ kept) item h = ground (arith, absorb_fresh p kept item)

ids-append : (xs ys : List QueueItem) → ids (xs ++ ys) ≡ ids xs ++ ids ys
ids-append [] ys = refl
ids-append (x ∷ xs) ys = rw (ids-append xs ys) refl

dedupe_from-append :
    (p : Platform) (kept queue : List QueueItem)
    → Distinct (ids (kept ++ queue))
    → dedupe_from p kept queue ≡ kept ++ queue
unfolding dedupe_from
dedupe_from-append p kept [] h = sym (append-nil kept)
dedupe_from-append p kept (x ∷ queue) h =
    let fresh =
      Distinct-middle (ids kept) x.id (ids queue) (rw (← ids-append kept (x ∷ queue)) h) in
    rw (absorb_fresh p kept x fresh) (
      dedupe_from-append p (kept ++ x ∷ []) queue (rw (append_assoc kept (x ∷ []) queue) h)
      ∙ append_assoc kept (x ∷ []) queue)

-- A queue whose ids differ is left as it is, order included.
pub dedupe-eq_of_Distinct :
    (p : Platform) (queue : List QueueItem)
    → Distinct (ids queue)
    → dedupe_queue_by_id p queue ≡ queue
unfolding dedupe_queue_by_id
dedupe-eq_of_Distinct p queue h = dedupe_from-append p [] queue h

item_fits-with_metadata :
    (p : Platform) (m : Namespaces) (item : QueueItem)
    → item_fits p (with_metadata m item) ≡ item_fits p item
unfolding item_fits fields_fit
item_fits-with_metadata p [] item = refl
item_fits-with_metadata p (e ∷ m) item = refl

item_fits-merge :
    (p : Platform) (x item : QueueItem)
    → item_fits p x ≡ true
    → item_fits p item ≡ true
    → item_fits p (merge p x item) ≡ true
unfolding merge
item_fits-merge p x item hx hi = ground (
  arith,
  item_fits-with_metadata p (spread (metadata_of x) (metadata_of item)) item,
  item_fits-with_metadata p (spread (metadata_of item) (metadata_of x)) x,
)

item_fits-absorb :
    (p : Platform) (kept : List QueueItem) (item : QueueItem)
    → all (item_fits p) kept ≡ true
    → item_fits p item ≡ true
    → all (item_fits p) (absorb p kept item) ≡ true
unfolding absorb
item_fits-absorb p [] item hk hi = ground arith
item_fits-absorb p (x ∷ kept) item hk hi =
    ground (arith, item_fits-absorb p kept item, item_fits-merge p x item)

item_fits-dedupe_from :
    (p : Platform) (kept queue : List QueueItem)
    → all (item_fits p) kept ≡ true
    → all (item_fits p) queue ≡ true
    → all (item_fits p) (dedupe_from p kept queue) ≡ true
unfolding dedupe_from
item_fits-dedupe_from p kept [] hk hq = hk
item_fits-dedupe_from p kept (item ∷ queue) hk hq =
    item_fits-dedupe_from p (absorb p kept item) queue
      (item_fits-absorb p kept item hk (ground arith)) (ground arith)

pub item_fits-dedupe :
    (p : Platform) (queue : List QueueItem)
    → all (item_fits p) queue ≡ true
    → all (item_fits p) (dedupe_queue_by_id p queue) ≡ true
unfolding dedupe_queue_by_id
item_fits-dedupe p queue h = item_fits-dedupe_from p [] queue refl h
