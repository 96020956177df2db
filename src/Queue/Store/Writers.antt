-- ===== src/Queue/Store/Writers.antt =====
-- The raw writers of the queue: what they need, what they write, and what they leave alone
-- (src/jobs/queue.ts).
use bfrost.Prelude.{
  ℕ, ◌+◌, String, true, false, Option, none, some, List, [], ◌∷◌, ◌++◌, ◌≡◌, refl, arith, Distinct,
  ok, or_else, all, if◌then◌else◌, ◌⊎◌, str_eq, ◌∙◌, Option-cases, bind, eq_iff, inl, inr,
  Result-cases,
}
use bfrost.Platform.{Platform}
use bfrost.Queue.Item.{QueueItem, item_fits, parse_item}
use bfrost.Queue.Table.{QueueRow, row_ids, row_at, item_params, select_rows, next_order}
use bfrost.Queue.Table.Laws.{insert_row-item}
use bfrost.Queue.Table.Frame.{
  item_at, item_at-upsert_row, order_of-upsert_item, select_one, row_at_absent, one_id, row_item,
  row_at-reads,
}
use bfrost.Queue.Store.Laws.{IsStore}
use bfrost.Queue.Store.{
  Store, World, insert_queue_item, insert_unless, upsert_queue_items, order_of, upsert_loop,
  upsert_rows, assert_queue_lock_held, add_row, upsert_some, upsert_row,
  invalidate_queue_read_cache, ensure_queue_table, ensure_loaded, row_to_queue_item, existing_row,
}

-- The table is there and initialized, and the caller holds the lock.
pub record IsOpen (s : Store) : Type 0 where
  pub is_ready : s.ready ≡ true
  pub is_initialized : s.initialized ≡ true
  pub is_locked : s.lock_held ≡ true

-- The store with its read cache dropped.
abbrev pub dropped : Store → Store
dropped s = record s { cached_queue = none; cache_generation = s.cache_generation + 1 }

insert-open :
    (p : Platform) (w : World) (item : QueueItem) (s : Store)
    → IsOpen s
    → insert_queue_item p w item s
      ≡ insert_unless p item (select_rows s.rows (one_id item.id)) (dropped s)
unfolding insert_queue_item assert_queue_lock_held invalidate_queue_read_cache ensure_queue_table
    ensure_loaded existing_row
insert-open p w item s o = simp (o.is_locked, o.is_ready, o.is_initialized)

pub insert_new :
    (p : Platform) (w : World) (item : QueueItem) (s : Store)
    → IsOpen s
    → Distinct (row_ids s.rows)
    → item_fits p item ≡ true
    → row_at s.rows item.id ≡ none
    → insert_queue_item p w item s ≡ (
      ok (item, true),
      record (dropped s) { rows = s.rows ++ item_params item (next_order s.rows) ∷ [] },
    )
unfolding insert_unless add_row parse_item
insert_new p w item s o d fit absent =
    let added =
      insert_row-item s.rows item (next_order s.rows) (row_at_absent s.rows item.id absent) in
    rw (insert-open p w item s o, select_one s.rows item.id d, absent) (simp (fit, added))

pub insert_existing :
    (p : Platform) (w : World) (item : QueueItem) (s : Store) (row : QueueRow)
    → IsOpen s
    → Distinct (row_ids s.rows)
    → row_at s.rows item.id ≡ some row
    → insert_queue_item p w item s
      ≡ (bind (row_to_queue_item p row) (λ found. ok (found, false)), dropped s)
unfolding insert_unless
insert_existing p w item s row o d there =
    rw (insert-open p w item s o, select_one s.rows item.id d, there)
      (elim (Result-cases (row_to_queue_item p row)) [
        | inl (e, refused) ↦ rw refused refl
        | inr (found, read) ↦ rw read refl
      ])

-- In a loaded store whose rows are valid, under the lock, an insert of an item that fits the schema
-- never overwrites: with a new id the item gets a row of its own behind all others; with an id that
-- is there the rows stay, and the item that is stored is returned.
pub insert_cases :
    (p : Platform) (w : World) (item : QueueItem) (s : Store)
    → IsOpen s
    → IsStore p s
    → item_fits p item ≡ true
    → ((row_at s.rows item.id ≡ none)
        × (insert_queue_item p w item s ≡ (
          ok (item, true),
          record (dropped s) { rows = s.rows ++ item_params item (next_order s.rows) ∷ [] },
        )))
      ⊎ ((row : QueueRow) × (row_at s.rows item.id ≡ some row)
          × (insert_queue_item p w item s ≡ (ok (row_item row, false), dropped s)))
insert_cases p w item s o v fit = elim (Option-cases (row_at s.rows item.id)) [
  | inl absent ↦ inl (absent, insert_new p w item s o v.distinct fit absent)
  | inr (row, there) ↦ inr (
    row,
    there,
    insert_existing p w item s row o v.distinct there
        ∙ rw (row_at-reads p s.rows item.id row v.fits there) refl,
  )
]

upsert-open :
    (p : Platform) (w : World) (item : QueueItem) (items : List QueueItem) (s : Store)
    → IsOpen s
    → upsert_queue_items p w (item ∷ items) s ≡ upsert_rows p (item ∷ items) (dropped s)
unfolding upsert_queue_items upsert_some assert_queue_lock_held invalidate_queue_read_cache
    ensure_queue_table ensure_loaded
upsert-open p w item items s o = simp (o.is_locked, o.is_ready, o.is_initialized)

-- The last of the items with this id.
abbrev pub last_with : List QueueItem → String → Option QueueItem
last_with [] id = none
last_with (x ∷ items) id = or_else (last_with items id) (if str_eq x.id id then some x else none)

-- What a batch of upserts leaves: each item as it was given last, and every other as it was; a row
-- that was there keeps its place in the order.
pub record Upserted (items : List QueueItem) (rows final : List QueueRow) : Type 0 where
  pub contents : (id : String) → item_at final id ≡ or_else (last_with items id) (item_at rows id)
  pub order_kept : (id : String) (n : ℕ) → order_of rows id ≡ some n → order_of final id ≡ some n

upsert_step :
    (item : QueueItem) (items : List QueueItem) (rows final : List QueueRow) (n : ℕ)
    → ((m : ℕ) → order_of rows item.id ≡ some m → m ≡ n)
    → Upserted items (upsert_row rows (item_params item n)) final
    → Upserted (item ∷ items) rows final
upsert_step item items rows final n same u = record {
  contents = λ id. ground (arith, u.contents id, item_at-upsert_row rows item n id);
  order_kept = λ id m h.
      u.order_kept id m
        (order_of-upsert_item rows item n id ∙ ground (arith, eq_iff item.id id, same m));
}

upsert_loop-Upserted :
    (p : Platform) (items : List QueueItem) (rows : List QueueRow) (next : ℕ)
    → all (item_fits p) items ≡ true
    → (final : List QueueRow) × (upsert_loop p items rows next ≡ ok final)
      × Upserted items rows final
unfolding upsert_loop parse_item
upsert_loop-Upserted p [] rows next fit =
    (rows, refl, record { contents = λ id. refl; order_kept = λ id n h. h })
upsert_loop-Upserted p (item ∷ items) rows next fit = elim (Option-cases (order_of rows item.id)) [
  | inl absent ↦
      let (final, done, u) =
        upsert_loop-Upserted p items (upsert_row rows (item_params item next)) (next + 1)
          (ground arith) in
      (
        final,
        ground (arith, done),
        upsert_step item items rows final next (λ m h. cc (h, absent)) u,
      )
  | inr (order, there) ↦
      let (final, done, u) =
        upsert_loop-Upserted p items (upsert_row rows (item_params item order)) next
          (ground arith) in
      (
        final,
        ground (arith, done),
        upsert_step item items rows final order (λ m h. ground (arith, h, there)) u,
      )
]

-- In a loaded store, under the lock, a batch of at least one item, all of which fit the schema, is
-- written whole: each item as it was given last, every other item as it was, and a row that was
-- there keeps its place in the order.
pub upsert_queue_items-Upserted :
    (p : Platform) (w : World) (item : QueueItem) (items : List QueueItem) (s : Store)
    → IsOpen s
    → all (item_fits p) (item ∷ items) ≡ true
    → (rows : List QueueRow) × (upsert_queue_items p w (item ∷ items) s
        ≡ (ok tt, record (dropped s) { rows = rows }))
      × Upserted (item ∷ items) s.rows rows
unfolding upsert_rows
upsert_queue_items-Upserted p w item items s o fit =
    let (rows, done, u) = upsert_loop-Upserted p (item ∷ items) s.rows (next_order s.rows) fit in
    (rows, rw (upsert-open p w item items s o) (simp done), u)
