-- ===== src/Queue/Table/Frame.antt =====
-- Which rows a statement touches, and which it leaves.
use bfrost.Prelude.{
  ℕ, String, false, Option, none, some, List, [], ◌∷◌, ◌≡◌, refl, arith, Distinct, includes, length,
  keep, Option-cases, eq_iff, if◌then◌else◌, str_eq, ◌≤◌, inl, inr, All, ok, Bool-cases, subst,
}
use bfrost.Platform.{Platform}
use bfrost.Queue.Item.{QueueItem, parse_raw, normalize_queue_item}
use bfrost.Queue.Table.Laws.{order_of-upsert_row, Fits}
use bfrost.Queue.Table.{
  QueueRow, row_ids, row_at, item_params, upsert_row, order_of, delete_rows, QueueQuery, selects,
  select_rows, any_row, row_to_queue_item, raw_of_row,
}

-- What a row says of its item.
abbrev pub row_item : QueueRow → QueueItem
row_item row = record {
  fields = row.fields;
  id = row.id;
  state = row.state;
  state_changed_at = row.state_changed_at;
}

abbrev pub item_at : List QueueRow → String → Option QueueItem
item_at rows id = elim (row_at rows id) [ none ↦ none | some row ↦ some (row_item row) ]

pub item_at-upsert_row :
    (rows : List QueueRow) (item : QueueItem) (n : ℕ) (id : String)
    → item_at (upsert_row rows (item_params item n)) id
      ≡ (if str_eq item.id id then some item else item_at rows id)
unfolding row_at upsert_row item_params
item_at-upsert_row [] item n id = ground arith
item_at-upsert_row (x ∷ rows) item n id = ground (
  arith,
  item_at-upsert_row rows item n id,
  eq_iff x.id item.id,
  eq_iff x.id id,
  eq_iff item.id id,
)

pub order_of-upsert_item :
    (rows : List QueueRow) (item : QueueItem) (n : ℕ) (id : String)
    → order_of (upsert_row rows (item_params item n)) id
      ≡ (if str_eq item.id id then some n else order_of rows id)
unfolding item_params
order_of-upsert_item rows item n id = order_of-upsert_row rows (item_params item n) id

pub row_at-delete_rows :
    (rows : List QueueRow) (gone : List String) (id : String)
    → row_at (delete_rows rows gone) id ≡ (if includes gone id then none else row_at rows id)
unfolding row_at delete_rows
row_at-delete_rows [] gone id = ground arith
row_at-delete_rows (x ∷ rows) gone id =
    ground (arith, row_at-delete_rows rows gone id, eq_iff x.id id)

pub length-delete_rows-le :
    (rows : List QueueRow) (gone : List String) → length (delete_rows rows gone) ≤ length rows
unfolding delete_rows
length-delete_rows-le [] gone = omega arith
length-delete_rows-le (x ∷ rows) gone = ground (arith, length-delete_rows-le rows gone)

abbrev pub one_id : String → QueueQuery
one_id id = record any_row { ids = some (id ∷ []) }

none_selected :
    (rows : List QueueRow) (id : String)
    → includes (row_ids rows) id ≡ false
    → keep (selects (one_id id)) rows ≡ []
unfolding row_ids selects
none_selected [] id h = refl
none_selected (x ∷ rows) id h =
    ground (arith, none_selected rows id, eq_iff x.id id, eq_iff id x.id)

-- The rows that a query for one id returns.
abbrev pub option_list {ℓ} : {A : Type ℓ} → Option A → List A
option_list none = []
option_list (some a) = a ∷ []

one_selected :
    (rows : List QueueRow) (id : String)
    → Distinct (row_ids rows)
    → keep (selects (one_id id)) rows ≡ option_list (row_at rows id)
unfolding row_ids selects row_at
one_selected [] id d = refl
one_selected (x ∷ rows) id d =
    ground (arith, one_selected rows id d.1, none_selected rows id, eq_iff x.id id, eq_iff id x.id)

pub select_one :
    (rows : List QueueRow) (id : String)
    → Distinct (row_ids rows)
    → select_rows rows (one_id id) ≡ option_list (row_at rows id)
unfolding select_rows
select_one rows id d = elim (Option-cases (row_at rows id)) [
  | inl e ↦ rw (one_selected rows id d, e) refl
  | inr (row, e) ↦ rw (one_selected rows id d, e) refl
]

pub row_at_absent :
    (rows : List QueueRow) (id : String)
    → row_at rows id ≡ none
    → includes (row_ids rows) id ≡ false
unfolding row_ids row_at
row_at_absent [] id h = refl
row_at_absent (x ∷ rows) id h = ground (arith, row_at_absent rows id)

pub delete_rows-absent :
    (rows : List QueueRow) (a : String) (gone : List String)
    → includes (row_ids rows) a ≡ false
    → delete_rows rows (a ∷ gone) ≡ delete_rows rows gone
unfolding row_ids delete_rows
delete_rows-absent [] a gone h = refl
delete_rows-absent (x ∷ rows) a gone h =
    ground (arith, delete_rows-absent rows a gone, eq_iff a x.id, eq_iff x.id a)

-- A row that the schema accepts reads as the item it says.
pub row_at-reads :
    (p : Platform) (rows : List QueueRow) (id : String) (row : QueueRow)
    → All (Fits p) rows
    → row_at rows id ≡ some row
    → row_to_queue_item p row ≡ ok (row_item row)
unfolding row_at row_to_queue_item parse_raw normalize_queue_item raw_of_row
row_at-reads p [] id row f h = cc
row_at-reads p (x ∷ rows) id row f h = elim (Bool-cases (str_eq x.id id)) [
  | inl e ↦
      let same : x ≡ row = ground arith in
      subst (λ (r : QueueRow). row_to_queue_item p r ≡ ok (row_item r)) same (rw f.0 refl)
  | inr e ↦ row_at-reads p rows id row f.1 (ground arith)
]
