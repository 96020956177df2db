-- ===== src/Queue/Store/Contents.antt =====
-- What the operations on the stored queue return and leave in the table (src/jobs/queue.ts).
use mathlib.Core.List.{append-nil, append_assoc}
use bfrost.Prelude.{
  ℕ, ◌+◌, true, none, List, [], ◌∷◌, ◌++◌, ◌≡◌, refl, Distinct, ok, all, remove, Distinct-middle,
  ◌∙◌, ap, map,
}
use bfrost.Platform.{Platform}
use bfrost.Queue.Item.{QueueItem, item_fits, parse_items, normalize_queue_item, as_raw}
use bfrost.Queue.Item.Laws.{normalize-as_raw}
use bfrost.Queue.Dedupe.{dedupe_queue_by_id}
use bfrost.Queue.Dedupe.Laws.{ids, dedupe-Distinct, item_fits-dedupe}
use bfrost.Queue.Table.{QueueRow, row_ids, item_params}
use bfrost.Queue.Table.Laws.{indexed, row_ids-append, insert_row-item, row_ids-nil, select-indexed}
use bfrost.Queue.Store.{
  Store, World, insert_indexed, save_queue, load_queue, normalized_queue, queue_store_key,
  invalidate_queue_read_cache, ensure_queue_table, replace_rows, load_initialized, select_items,
}

-- Numbered items go into a table that holds none of their ids, one after the other.
insert_indexed-fresh :
    (rows : List QueueRow) (items : List QueueItem) (n : ℕ)
    → Distinct (row_ids rows ++ ids items)
    → insert_indexed rows items n ≡ ok (rows ++ indexed items n)
unfolding insert_indexed
insert_indexed-fresh rows [] n d = rw (append-nil rows) refl
insert_indexed-fresh rows (item ∷ items) n d =
    let fresh = Distinct-middle (row_ids rows) item.id (ids items) d in
    let next = rows ++ item_params item n ∷ [] in
    let still : Distinct (row_ids next ++ ids items) =
      rw (row_ids-append rows item n, append_assoc (row_ids rows) (item.id ∷ []) (ids items)) d in
    rw (insert_row-item rows item n fresh) (
      insert_indexed-fresh next items (n + 1) still
      ∙ ap ok (append_assoc rows (item_params item n ∷ []) (indexed items (n + 1))))

normalized_queue_lem :
    (p : Platform) (queue : List QueueItem) → normalized_queue p queue ≡ dedupe_queue_by_id p queue
unfolding normalized_queue
normalized_queue_lem p queue = ap (dedupe_queue_by_id p) (same queue)
  where
    same :
        (items : List QueueItem) → map (λ item. normalize_queue_item p (as_raw item)) items ≡ items
    same [] = refl
    same (x ∷ items) = rw (normalize-as_raw p x, same items) refl

-- The store that a save leaves.
abbrev pub saved : Platform → List QueueItem → Store → Store
saved p queue s = record s {
  rows = indexed (dedupe_queue_by_id p queue) 0;
  initialized = true;
  app_kv = remove queue_store_key s.app_kv;
  cached_queue = none;
  cache_generation = s.cache_generation + 1;
}

save_queue-saved :
    (p : Platform) (queue : List QueueItem) (s : Store)
    → s.ready ≡ true
    → all (item_fits p) queue ≡ true
    → save_queue p queue s ≡ (ok tt, saved p queue s)
unfolding save_queue invalidate_queue_read_cache parse_items ensure_queue_table replace_rows
save_queue-saved p queue s r h =
    let fit = item_fits-dedupe p queue h in
    let numbered =
      insert_indexed-fresh [] (dedupe_queue_by_id p queue) 0
        (rw row_ids-nil (dedupe-Distinct p queue).0) in
    simp (normalized_queue_lem p queue, fit, r, numbered)

load_queue-saved :
    (p : Platform) (w : World) (queue : List QueueItem) (s : Store)
    → s.ready ≡ true
    → all (item_fits p) queue ≡ true
    → load_queue p w (saved p queue s) ≡ (ok (dedupe_queue_by_id p queue), saved p queue s)
unfolding load_queue ensure_queue_table load_initialized
load_queue-saved p w queue s r h =
    simp
      (r, select_items, select-indexed p (dedupe_queue_by_id p queue) (item_fits-dedupe p queue h))

-- On a connection whose tables are set up, a queue of items that fit the schema is read back as it
-- was saved, with one row for each id and in the order of the queue, whatever else the store held
-- before and whatever the files hold: the save succeeds and drops the read cache, and a load after
-- it returns the collapsed queue and changes nothing.
pub load_queue-save_queue :
    (p : Platform) (w : World) (queue : List QueueItem) (s : Store)
    → s.ready ≡ true
    → all (item_fits p) queue ≡ true
    → (t : Store) × (save_queue p queue s ≡ (ok tt, t))
      × (load_queue p w t ≡ (ok (dedupe_queue_by_id p queue), t))
      × (t.cached_queue ≡ none)
load_queue-save_queue p w queue s r h =
    (saved p queue s, save_queue-saved p queue s r h, load_queue-saved p w queue s r h, refl)
