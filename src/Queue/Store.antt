-- ===== src/Queue/Store.antt =====
-- The operations on the stored queue (src/jobs/queue.ts). A statement of the database runs at once,
-- so an operation is a function of the store; a thrown error leaves the store as it stands, and a
-- transaction that throws leaves the rows as they were. What the surroundings decide is in `World`:
-- what the queue files hold, and whether the lock file could be taken before the deadline.
pub mod Laws
pub mod Keys
pub mod Contents
pub mod Writers
pub mod Reap
pub mod Refinement
pub mod Reads
mod Tests
use text.Mathlib.Text.{◌==◌ as str_eq}
use bfrost.Prelude.{
  ℕ, suc, ◌+◌, ◌-◌, String, Bool, true, false, not, Option, none, some, List, [], ◌∷◌, map, ltb,
  leb, if◌then◌else◌, keep, length, includes, is_some, lookup, remove, get_or_else, Result, ok, err,
  bind, map_result,
}
use bfrost.Platform.{Platform}
use bfrost.Queue.Item.{
  QueueItem, RawQueueItem, QueueError, parse_raw, parse_item, parse_items, normalize_queue_item,
  as_raw, lock_required, unreadable_file, lock_unavailable, item_not_found,
}
use bfrost.Queue.Dedupe.{dedupe_queue_by_id, is_active_at}
use bfrost.Queue.Table.{
  QueueRow, QueueQuery, any_row, item_params, row_to_queue_item, rows_to_items, insert_row,
  upsert_row, order_of, next_order, delete_rows, select_rows,
}

pub data FileRead : Type 0 where
  missing unreadable : FileRead
  content : List RawQueueItem → FileRead

-- What the files hold, the newest legacy file first and without the one in use, and whether the queue's
-- lock is granted.
pub record World : Type 0 where
  pub queue_file : FileRead
  pub legacy_files : List (List RawQueueItem)
  pub lock_granted : Bool

pub record Store : Type 0 where
  pub rows : List QueueRow
  -- `item_bus_meta` has its row.
  pub initialized : Bool
  -- The entries of `app_kv` whose key ends in `.queue`.
  pub app_kv : List (String × List RawQueueItem)
  -- The connection is in `initializedQueueDbs`.
  pub ready : Bool
  pub cached_queue : Option (List QueueItem)
  pub cache_generation : ℕ
  -- `queueLockHeld.getStore()` of the caller.
  pub lock_held : Bool

abbrev pub Effect : Type 0 → Type 0
Effect A = Store → Result QueueError A × Store

abbrev pub continue :
    {A B : Type 0} → Result QueueError A × Store → (A → Effect B) → Result QueueError B × Store
continue (ok a, s) f = f a s
continue (err e, s) f = (err e, s)

infixl 5 ◌>>=◌ ◌>>◌
abbrev pub ◌>>=◌ : {A B : Type 0} → Effect A → (A → Effect B) → Effect B
◌>>=◌ m f s = continue (m s) f

abbrev pub ◌>>◌ : {A B : Type 0} → Effect A → Effect B → Effect B
◌>>◌ m k s = continue (m s) (λ _. k)

abbrev pub return : {A : Type 0} → A → Effect A
return a s = (ok a, s)

abbrev pub lift : {A : Type 0} → Result QueueError A → Effect A
lift r s = (r, s)

abbrev queue_store_key : String
queue_store_key = "item-bus.queue"

pub normalize_stored_queue : Platform → List RawQueueItem → Result QueueError (List QueueItem)
normalize_stored_queue p stored =
    bind (map_result (parse_raw p) stored) (λ raws. ok (map (normalize_queue_item p) raws))

-- `items.forEach((item, index) => upsert.run(itemParams(item, index)))`.
upsert_indexed : List QueueRow → List QueueItem → ℕ → List QueueRow
upsert_indexed rows [] index = rows
upsert_indexed rows (item ∷ items) index =
    upsert_indexed (upsert_row rows (item_params item index)) items (index + 1)

migrate_legacy : Platform → List RawQueueItem → Effect (Unit {0})
unfolding normalize_stored_queue upsert_indexed
migrate_legacy p legacy s =
    continue (normalize_stored_queue p legacy, s)
      λ items s. (
        ok tt,
        record s {
          rows = upsert_indexed s.rows (dedupe_queue_by_id p items) 0;
          app_kv = remove queue_store_key s.app_kv;
          initialized = true;
          ready = true;
        },
      )

-- Creating tables that are there does nothing, and tables that are not there are empty.
pub ensure_queue_table : Platform → Effect (Unit {0})
unfolding migrate_legacy
ensure_queue_table p s = if s.ready then (ok tt, s) else elim (lookup queue_store_key s.app_kv) [
  | none ↦ (ok tt, record s { ready = true })
  | some legacy ↦ migrate_legacy p legacy s
]

pub invalidate_queue_read_cache : Effect (Unit {0})
invalidate_queue_read_cache s =
    (ok tt, record s { cached_queue = none; cache_generation = s.cache_generation + 1 })

-- `normalized.forEach((item, index) => insert.run(itemParams(item, index)))` on a table.
pub insert_indexed : List QueueRow → List QueueItem → ℕ → Result QueueError (List QueueRow)
insert_indexed rows [] index = ok rows
insert_indexed rows (item ∷ items) index =
    bind (insert_row rows (item_params item index)) (λ next. insert_indexed next items (index + 1))

replace_rows : List QueueItem → Effect (Unit {0})
unfolding insert_indexed
replace_rows items s =
    continue (insert_indexed [] items 0, s)
      λ rows s. (
        ok tt,
        record s { rows = rows; initialized = true; app_kv = remove queue_store_key s.app_kv },
      )

pub normalized_queue : Platform → List QueueItem → List QueueItem
normalized_queue p queue =
    dedupe_queue_by_id p (map (λ item. normalize_queue_item p (as_raw item)) queue)

pub save_queue : Platform → List QueueItem → Effect (Unit {0})
unfolding replace_rows normalized_queue
save_queue p queue = do
  invalidate_queue_read_cache
  normalized ← lift (parse_items p (normalized_queue p queue))
  ensure_queue_table p
  replace_rows normalized

select_items : Platform → QueueQuery → Effect (List QueueItem)
select_items p query s = (rows_to_items p (select_rows s.rows query), s)

first_legacy : List (String × List RawQueueItem) → Option (List RawQueueItem)
first_legacy [] = none
first_legacy ((key, stored) ∷ entries) =
    let rest = first_legacy entries in if str_eq key queue_store_key then rest else some stored

save_and_return : Platform → List QueueItem → Effect (List QueueItem)
save_and_return p queue = do save_queue p queue; return queue

-- `catch`: whatever reading the file or saving what it held threw.
abbrev or_unreadable : {A : Type 0} → Result QueueError A × Store → Result QueueError A × Store
or_unreadable (ok a, s) = (ok a, s)
or_unreadable (err e, s) = (err unreadable_file, s)

-- The first legacy file whose items are valid; the others are ignored.
first_valid : Platform → List (List RawQueueItem) → Option (List QueueItem)
first_valid p [] = none
first_valid p (stored ∷ files) =
    let rest = first_valid p files in
    elim (normalize_stored_queue p stored) [ ok items ↦ some items | err e ↦ rest ]

load_queue_file : Platform → World → Effect (List QueueItem)
unfolding save_and_return first_valid
load_queue_file p w s = elim w.queue_file [
  | content stored ↦
      or_unreadable (continue (normalize_stored_queue p stored, s) (save_and_return p))
  | unreadable ↦ (err unreadable_file, s)
  | missing ↦ save_and_return p (get_or_else (first_valid p w.legacy_files) []) s
]

load_legacy : Platform → World → Effect (List QueueItem)
unfolding load_queue_file first_legacy save_and_return
load_legacy p w s = elim (first_legacy s.app_kv) [
  | some stored ↦ continue (normalize_stored_queue p stored, s) (save_and_return p)
  | none ↦ load_queue_file p w s
]

load_initialized : Platform → World → Effect (List QueueItem)
unfolding select_items load_legacy
load_initialized p w s = elim s.initialized [
  | true ↦ select_items p any_row s
  | false ↦ load_legacy p w s
]

pub load_queue : Platform → World → Effect (List QueueItem)
unfolding load_initialized
load_queue p w = do ensure_queue_table p; load_initialized p w

-- `if (!queueStoreInitialized(db)) await loadQueue();`
pub ensure_loaded : Platform → World → Effect (Unit {0})
ensure_loaded p w s = elim s.initialized [
  | true ↦ (ok tt, s)
  | false ↦ continue (load_queue p w s) (λ _. return tt)
]

pub query_queue : Platform → World → QueueQuery → Effect (List QueueItem)
unfolding select_items ensure_loaded
query_queue p w query = do ensure_queue_table p; ensure_loaded p w; select_items p query

first_item : List QueueItem → Option QueueItem
first_item [] = none
first_item (item ∷ rest) = some item

pub load_queue_item : Platform → World → String → Effect (Option QueueItem)
unfolding first_item
load_queue_item p w id = do
  items ← query_queue p w (record any_row { ids = some (id ∷ []) })
  return (first_item items)

pub assert_queue_lock_held : Effect (Unit {0})
assert_queue_lock_held s = if s.lock_held then (ok tt, s) else (err lock_required, s)

add_row : Platform → QueueItem → Effect (QueueItem × Bool)
add_row p item s =
    continue (parse_item p item, s)
      λ parsed s.
        continue (insert_row s.rows (item_params parsed (next_order s.rows)), s)
          λ rows s. (ok (item, true), record s { rows = rows })

insert_unless : Platform → QueueItem → List QueueRow → Effect (QueueItem × Bool)
unfolding add_row
insert_unless p item [] s = add_row p item s
insert_unless p item (existing ∷ rest) s =
    continue (row_to_queue_item p existing, s) (λ found. return (found, false))

existing_row : Platform → QueueItem → Effect (QueueItem × Bool)
unfolding insert_unless
existing_row p item s =
    insert_unless p item (select_rows s.rows (record any_row { ids = some (item.id ∷ []) })) s

unfoldable pub insert_queue_item : Platform → World → QueueItem → Effect (QueueItem × Bool)
unfolding existing_row
insert_queue_item p w item = do
  assert_queue_lock_held
  invalidate_queue_read_cache
  ensure_queue_table p
  ensure_loaded p w
  existing_row p item

-- The loop of the transaction: `next` is `nextOrder`.
pub upsert_loop : Platform → List QueueItem → List QueueRow → ℕ → Result QueueError (List QueueRow)
upsert_loop p [] rows next = ok rows
upsert_loop p (candidate ∷ items) rows next = elim (parse_item p candidate) [
  | err e ↦ err e
  | ok item ↦ elim (order_of rows item.id) [
    | some order ↦ upsert_loop p items (upsert_row rows (item_params item order)) next
    | none ↦ upsert_loop p items (upsert_row rows (item_params item next)) (next + 1)
  ]
]

upsert_rows : Platform → List QueueItem → Effect (Unit {0})
unfolding upsert_loop
upsert_rows p items s =
    continue (upsert_loop p items s.rows (next_order s.rows), s)
      λ rows s. (ok tt, record s { rows = rows })

upsert_some : Platform → World → List QueueItem → Effect (Unit {0})
unfolding upsert_rows
upsert_some p w [] = return tt
upsert_some p w (item ∷ items) = do
  invalidate_queue_read_cache
  ensure_queue_table p
  ensure_loaded p w
  upsert_rows p (item ∷ items)

pub upsert_queue_items : Platform → World → List QueueItem → Effect (Unit {0})
unfolding upsert_some
upsert_queue_items p w items = do assert_queue_lock_held; upsert_some p w items

-- The number of rows that a statement changed.
delete_selected : List String → Effect ℕ
delete_selected ids s =
    let left = delete_rows s.rows ids in
    (ok (length s.rows - length left), record s { rows = left })

delete_some : Platform → World → List String → Effect ℕ
unfolding delete_selected
delete_some p w [] = return 0
delete_some p w (id ∷ ids) = do
  invalidate_queue_read_cache
  ensure_queue_table p
  ensure_loaded p w
  delete_selected (id ∷ ids)

pub delete_queue_items : Platform → World → List String → Effect ℕ
unfolding delete_some
delete_queue_items p w ids = do assert_queue_lock_held; delete_some p w ids

release_lock : {A : Type 0} → Result QueueError A × Store → Result QueueError A × Store
release_lock (r, s) = (r, record s { lock_held = false })

-- `withQueueLock`: a caller that holds the lock runs its body at once; any other waits for the lock,
-- and lets go of it however the body ends.
unfoldable pub with_queue_lock : {A : Type 0} → World → Effect A → Effect A
unfolding release_lock
with_queue_lock w body s =
    if s.lock_held
    then body s
    else if w.lock_granted
    then release_lock (body (record s { lock_held = true }))
    else (err lock_unavailable, s)

-- `[...new Set(ids)]`.
distinct_ids : List String → List String
distinct_ids [] = []
distinct_ids (id ∷ ids) = id ∷ keep (λ other. not (str_eq other id)) (distinct_ids ids)

update_selected : Platform → World → List String → (QueueItem → QueueItem) → Effect (List QueueItem)
unfolding distinct_ids
update_selected p w ids update = do
  items ← query_queue p w (record any_row { ids = some (distinct_ids ids) })
  upsert_queue_items p w (map update items)
  return (map update items)

pub update_queue_items :
    Platform → World → List String → (QueueItem → QueueItem) → Effect (List QueueItem)
unfolding update_selected
update_queue_items p w [] update = return []
update_queue_items p w (id ∷ ids) update = with_queue_lock w (update_selected p w (id ∷ ids) update)

-- The ids of the rows whose anchor has no time or is older than the TTL.
pub expired_ids : Platform → ℕ → List QueueRow → List String
expired_ids p now [] = []
expired_ids p now (row ∷ rows) =
    let rest = expired_ids p now rows in
    if is_active_at (p.date_parse row.state_changed_at) now then rest else row.id ∷ rest

reap : Platform → World → ℕ → Effect ℕ
reap p w now = do
  ensure_queue_table p
  ensure_loaded p w
  λ s. delete_queue_items p w (expired_ids p now s.rows) s

pub reap_expired_queue_items : Platform → World → ℕ → Effect ℕ
unfolding reap
reap_expired_queue_items p w now = with_queue_lock w (reap p w now)
