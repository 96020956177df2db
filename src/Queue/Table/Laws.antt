-- ===== src/Queue/Table/Laws.antt =====
-- The statements on `item_bus_items`: the primary key, the frame of a write, and reading back what
-- was written.
use bfrost.Prelude.{
  ℕ, ◌+◌, ◌≤◌, ◌<◌, String, true, false, List, [], ◌∷◌, ◌++◌, ◌≡◌, refl, arith, ok, includes,
  Distinct, All, some, all, if◌then◌else◌, ◌||◌, err, eq_iff, Bool-cases, str_eq, inl, ◌&&◌, inr,
  not, subst, All-append, keep,
}
use bfrost.Platform.{Platform}
use bfrost.Queue.Item.{
  QueueItem, item_fits, raw_fits, parse_raw, normalize_queue_item, optional, id_taken,
}
use bfrost.Queue.Dedupe.Laws.{ids}
use bfrost.Queue.Table.{
  QueueRow, item_params, raw_of_row, row_to_queue_item, row_ids, insert_row, upsert_row, order_of,
  next_order, delete_rows, insert_sorted, order_rows, rows_to_items, select_rows, any_row, selects,
}

-- A row that the schema accepts.
abbrev pub Fits : Platform → QueueRow → Type 0
Fits p row = raw_fits p (raw_of_row row) ≡ true

pub item_params-Fits :
    (p : Platform) (item : QueueItem) (n : ℕ)
    → item_fits p item ≡ true
    → Fits p (item_params item n)
unfolding item_fits raw_fits item_params raw_of_row optional
item_params-Fits p item n h = h

-- A stored item reads back as itself.
pub row_to_queue_item-item_params :
    (p : Platform) (item : QueueItem) (n : ℕ)
    → item_fits p item ≡ true
    → row_to_queue_item p (item_params item n) ≡ ok item
unfolding row_to_queue_item item_params parse_raw normalize_queue_item
row_to_queue_item-item_params p item n h = rw (item_params-Fits p item n h) refl

-- The rows of items, numbered from `n`.
abbrev pub indexed : List QueueItem → ℕ → List QueueRow
indexed [] n = []
indexed (x ∷ items) n = item_params x n ∷ indexed items (n + 1)

pub row_ids-indexed : (items : List QueueItem) (n : ℕ) → row_ids (indexed items n) ≡ ids items
unfolding row_ids item_params
row_ids-indexed [] n = refl
row_ids-indexed (x ∷ items) n = rw (row_ids-indexed items (n + 1)) refl

includes-row_ids-append :
    (rows : List QueueRow) (row : QueueRow) (id : String)
    → includes (row_ids (rows ++ row ∷ [])) id ≡ (includes (row_ids rows) id || str_eq row.id id)
unfolding row_ids
includes-row_ids-append [] row id = ground arith
includes-row_ids-append (x ∷ rows) row id = ground (arith, includes-row_ids-append rows row id)

-- An id that is not there is added at the end.
pub insert_row_fresh :
    (rows : List QueueRow) (row : QueueRow)
    → includes (row_ids rows) row.id ≡ false
    → insert_row rows row ≡ ok (rows ++ row ∷ [])
unfolding insert_row row_ids
insert_row_fresh [] row h = refl
insert_row_fresh (x ∷ rows) row h = ground (arith, insert_row_fresh rows row)

-- An id that is there is refused.
pub insert_row_taken :
    (rows : List QueueRow) (row : QueueRow)
    → includes (row_ids rows) row.id ≡ true
    → insert_row rows row ≡ err id_taken
unfolding insert_row row_ids
insert_row_taken [] row h = cc
insert_row_taken (x ∷ rows) row h = ground (arith, insert_row_taken rows row)

append-Distinct :
    (rows : List QueueRow) (row : QueueRow)
    → Distinct (row_ids rows)
    → includes (row_ids rows) row.id ≡ false
    → Distinct (row_ids (rows ++ row ∷ []))
unfolding row_ids
append-Distinct [] row d h = (refl, tt)
append-Distinct (x ∷ rows) row d h = ground (
  arith,
  append-Distinct rows row d.1,
  includes-row_ids-append rows row x.id,
  eq_iff row.id x.id,
  eq_iff x.id row.id,
)

pub insert_row-Distinct :
    (rows next : List QueueRow) (row : QueueRow)
    → Distinct (row_ids rows)
    → insert_row rows row ≡ ok next
    → Distinct (row_ids next)
insert_row-Distinct rows next row d h = elim (Bool-cases (includes (row_ids rows) row.id)) [
  | inl e ↦ cc (insert_row_taken rows row e)
  | inr e ↦
      subst (λ (r : List QueueRow). Distinct (row_ids r))
        (ground (arith, insert_row_fresh rows row e)) (append-Distinct rows row d e)
]

pub includes-upsert_row :
    (rows : List QueueRow) (row : QueueRow) (id : String)
    → includes (row_ids (upsert_row rows row)) id ≡ (includes (row_ids rows) id || str_eq row.id id)
unfolding upsert_row row_ids
includes-upsert_row [] row id = ground arith
includes-upsert_row (x ∷ rows) row id =
    ground
      (arith, includes-upsert_row rows row id, eq_iff x.id row.id, eq_iff x.id id, eq_iff row.id id)

pub upsert_row-Distinct :
    (rows : List QueueRow) (row : QueueRow)
    → Distinct (row_ids rows)
    → Distinct (row_ids (upsert_row rows row))
unfolding upsert_row row_ids
upsert_row-Distinct [] row d = (refl, tt)
upsert_row-Distinct (x ∷ rows) row d = ground (
  arith,
  upsert_row-Distinct rows row d.1,
  includes-upsert_row rows row x.id,
  eq_iff x.id row.id,
  eq_iff row.id x.id,
)

pub upsert_row-All :
    (P : QueueRow → Type 0) (rows : List QueueRow) (row : QueueRow)
    → All P rows
    → P row
    → All P (upsert_row rows row)
unfolding upsert_row
upsert_row-All P [] row a h = (h, tt)
upsert_row-All P (x ∷ rows) row a h = ground (arith, upsert_row-All P rows row a.1 h)

pub includes-delete_rows :
    (rows : List QueueRow) (gone : List String) (id : String)
    → includes (row_ids (delete_rows rows gone)) id
      ≡ (includes (row_ids rows) id && not (includes gone id))
unfolding delete_rows row_ids
includes-delete_rows [] gone id = refl
includes-delete_rows (x ∷ rows) gone id =
    ground (arith, includes-delete_rows rows gone id, eq_iff x.id id)

pub delete_rows-Distinct :
    (rows : List QueueRow) (gone : List String)
    → Distinct (row_ids rows)
    → Distinct (row_ids (delete_rows rows gone))
unfolding delete_rows row_ids
delete_rows-Distinct [] gone d = tt
delete_rows-Distinct (x ∷ rows) gone d =
    ground (arith, delete_rows-Distinct rows gone d.1, includes-delete_rows rows gone x.id)

pub delete_rows-All :
    (P : QueueRow → Type 0) (rows : List QueueRow) (gone : List String)
    → All P rows
    → All P (delete_rows rows gone)
unfolding delete_rows
delete_rows-All P [] gone a = tt
delete_rows-All P (x ∷ rows) gone a = ground (arith, delete_rows-All P rows gone a.1)

pub order_of-upsert_row :
    (rows : List QueueRow) (row : QueueRow) (id : String)
    → order_of (upsert_row rows row) id
      ≡ (if str_eq row.id id then some row.sort_order else order_of rows id)
unfolding order_of upsert_row
order_of-upsert_row [] row id = refl
order_of-upsert_row (x ∷ rows) row id =
    ground
      (arith, order_of-upsert_row rows row id, eq_iff x.id row.id, eq_iff x.id id, eq_iff row.id id)

pub order_of-lt-next_order :
    (rows : List QueueRow) (id : String) (n : ℕ) → order_of rows id ≡ some n → n < next_order rows
unfolding order_of next_order
order_of-lt-next_order [] id n h = cc
order_of-lt-next_order (x ∷ rows) id n h = ground (arith, order_of-lt-next_order rows id n)

insert_sorted_head :
    (row : QueueRow) (items : List QueueItem) (n : ℕ)
    → row.sort_order ≤ n
    → insert_sorted row (indexed items n) ≡ row ∷ indexed items n
unfolding insert_sorted item_params
insert_sorted_head row [] n h = refl
insert_sorted_head row (x ∷ items) n h = ground arith

-- Rows that are numbered in turn come back in their order.
pub order_rows-indexed :
    (items : List QueueItem) (n : ℕ) → order_rows (indexed items n) ≡ indexed items n
unfolding order_rows
order_rows-indexed [] n = refl
order_rows-indexed (x ∷ items) n =
    rw (order_rows-indexed items (n + 1))
      (insert_sorted_head (item_params x n) items (n + 1) (unfold item_params in omega arith))

pub rows_to_items-indexed :
    (p : Platform) (items : List QueueItem) (n : ℕ)
    → all (item_fits p) items ≡ true
    → rows_to_items p (indexed items n) ≡ ok items
unfolding rows_to_items
rows_to_items-indexed p [] n h = refl
rows_to_items-indexed p (x ∷ items) n h =
    ground (arith, row_to_queue_item-item_params p x n, rows_to_items-indexed p items (n + 1))

pub insert_row-All :
    (P : QueueRow → Type 0) (rows next : List QueueRow) (row : QueueRow)
    → All P rows
    → P row
    → insert_row rows row ≡ ok next
    → All P next
insert_row-All P rows next row a h e = elim (Bool-cases (includes (row_ids rows) row.id)) [
  | inl taken ↦ cc (insert_row_taken rows row taken)
  | inr fresh ↦
      subst (λ (r : List QueueRow). All P r) (ground (arith, insert_row_fresh rows row fresh))
        (All-append P rows (row ∷ []) a (h, tt))
]

pub empty-Distinct : Distinct (row_ids [])
unfolding row_ids
empty-Distinct = tt

pub row_ids-append :
    (rows : List QueueRow) (item : QueueItem) (n : ℕ)
    → row_ids (rows ++ item_params item n ∷ []) ≡ row_ids rows ++ item.id ∷ []
unfolding row_ids item_params
row_ids-append [] item n = refl
row_ids-append (x ∷ rows) item n = rw (row_ids-append rows item n) refl

pub insert_row-item :
    (rows : List QueueRow) (item : QueueItem) (n : ℕ)
    → includes (row_ids rows) item.id ≡ false
    → insert_row rows (item_params item n) ≡ ok (rows ++ item_params item n ∷ [])
unfolding item_params
insert_row-item rows item n h = insert_row_fresh rows (item_params item n) h

pub row_ids-nil : row_ids [] ≡ []
unfolding row_ids
row_ids-nil = refl

-- The whole table, numbered in turn, reads back as the items that were written.
pub select-indexed :
    (p : Platform) (items : List QueueItem)
    → all (item_fits p) items ≡ true
    → rows_to_items p (select_rows (indexed items 0) any_row) ≡ ok items
unfolding select_rows
select-indexed p items h =
    rw (keep_all (indexed items 0), order_rows-indexed items 0) (rows_to_items-indexed p items 0 h)
  where
    keep_all : (rows : List QueueRow) → keep (selects any_row) rows ≡ rows
    keep_all [] = refl
    keep_all (x ∷ rows) = rw (keep_all rows) refl
