-- ===== src/Queue/Table.antt =====
-- The table `item_bus_items` and the statements that src/jobs/queue.ts runs on it. A table is the
-- list of its rows; a column that may be NULL is an option, and a JSON column holds the value that
-- its text denotes.
pub mod Laws
pub mod Frame
use Prim.Native.Char.{code}
use text.Mathlib.Text.{◌==◌ as str_eq}
use bfrost.Prelude.{
  ℕ, suc, ◌+◌, String, Bool, true, false, not, ◌&&◌, Option, none, some, List, [], ◌∷◌, map, leb,
  ltb, ◌==◌, if◌then◌else◌, max, keep, find, any, includes, is_some, lookup, truthy, get_or_else,
  Result, ok, err, map_result, bind,
}
use bfrost.Platform.{Platform}
use bfrost.Json.{Namespaces}
use bfrost.Queue.Item.{
  ItemFields, QueueItem, QueueItemState, State-discrete, QueueError, RawQueueItem, parse_raw,
  normalize_queue_item, id_taken,
}

pub record QueueRow : Type 0 where
  pub fields : ItemFields
  pub open fields use *
  pub id : String
  pub sort_order : ℕ
  pub state : QueueItemState
  pub state_changed_at : String

unfoldable pub item_params : QueueItem → ℕ → QueueRow
item_params item sort_order = record {
  fields = item.fields;
  id = item.id;
  sort_order = sort_order;
  state = item.state;
  state_changed_at = item.state_changed_at;
}

unfoldable pub raw_of_row : QueueRow → RawQueueItem
raw_of_row row = record {
  fields = row.fields;
  id = some row.id;
  state = some row.state;
  state_changed_at = some row.state_changed_at;
}

unfoldable pub row_to_queue_item : Platform → QueueRow → Result QueueError QueueItem
unfolding raw_of_row
row_to_queue_item p row =
    bind (parse_raw p (raw_of_row row)) (λ raw. ok (normalize_queue_item p raw))

unfoldable pub row_ids : List QueueRow → List String
row_ids [] = []
row_ids (x ∷ rows) = x.id ∷ row_ids rows

-- `INSERT`: the primary key refuses an id that is there.
pub insert_row : List QueueRow → QueueRow → Result QueueError (List QueueRow)
insert_row [] row = ok (row ∷ [])
insert_row (x ∷ rows) row =
    let rest = insert_row rows row in
    if str_eq x.id row.id then err id_taken else bind rest (λ more. ok (x ∷ more))

-- `INSERT … ON CONFLICT(id) DO UPDATE`: every column is written.
pub upsert_row : List QueueRow → QueueRow → List QueueRow
upsert_row [] row = row ∷ []
upsert_row (x ∷ rows) row =
    let rest = upsert_row rows row in if str_eq x.id row.id then row ∷ rows else x ∷ rest

-- `SELECT sort_order … WHERE id = ?`.
pub order_of : List QueueRow → String → Option ℕ
order_of [] id = none
order_of (x ∷ rows) id =
    let rest = order_of rows id in if str_eq x.id id then some x.sort_order else rest

-- `coalesce(max(sort_order), -1) + 1`.
pub next_order : List QueueRow → ℕ
next_order [] = 0
next_order (x ∷ rows) = max (suc x.sort_order) (next_order rows)

-- `DELETE … WHERE id IN (…)`.
unfoldable pub delete_rows : List QueueRow → List String → List QueueRow
delete_rows [] ids = []
delete_rows (x ∷ rows) ids =
    let rest = delete_rows rows ids in if includes ids x.id then rest else x ∷ rest

pub record QueueQuery : Type 0 where
  pub ids : Option (List String)
  pub item_types : Option (List String)
  pub states : Option (List QueueItemState)
  pub unhandled_by : Option String
  pub active_after : Option String

abbrev pub any_row : QueueQuery
any_row = record {
  ids = none;
  item_types = none;
  states = none;
  unhandled_by = none;
  active_after = none;
}

unfoldable pub has_state : List QueueItemState → QueueItemState → Bool
has_state [] s = false
has_state (x ∷ states) s = elim (State-discrete x s) [ yes e ↦ true | no e ↦ has_state states s ]

-- `column IN (…)`; NULL is in no list, and an empty list keeps no row.
in_list : Option (List String) → Option String → Bool
in_list none value = true
in_list (some values) none = false
in_list (some values) (some value) = includes values value

in_states : Option (List QueueItemState) → QueueItemState → Bool
in_states none s = true
in_states (some states) s = has_state states s

-- `NOT EXISTS (SELECT 1 FROM json_each(json_extract(metadata_json, ?)))`: the consumer's namespace
-- is absent or empty.
unhandled : Option String → Option Namespaces → Bool
unhandled none metadata = true
unhandled (some consumer) metadata =
    if truthy consumer
    then elim (lookup consumer (get_or_else metadata [])) [
      | none ↦ true
      | some [] ↦ true
      | some (entry ∷ rest) ↦ false
    ]
    else true

-- The order of texts by their code points, which is SQLite's order of their bytes.
unfoldable pub text_le : String → String → Bool
text_le String.[] t = true
text_le (String.◌∷◌ c s) String.[] = false
text_le (String.◌∷◌ c s) (String.◌∷◌ d t) =
    let rest = text_le s t in
    if ltb (code c) (code d) then true else if code c == code d then rest else false

changed_since : Option String → String → Bool
changed_since none at = true
changed_since (some after) at = if truthy after then text_le after at else true

-- The WHERE clause of `selectRowsSql`.
unfoldable pub selects : QueueQuery → QueueRow → Bool
unfolding in_list in_states unhandled changed_since
selects query row =
    in_list query.ids (some row.id)
    && in_list query.item_types row.item_type
    && in_states query.states row.state
    && unhandled query.unhandled_by row.metadata
    && changed_since query.active_after row.state_changed_at

-- `ORDER BY sort_order`.
pub insert_sorted : QueueRow → List QueueRow → List QueueRow
insert_sorted row [] = row ∷ []
insert_sorted row (x ∷ rows) =
    let rest = insert_sorted row rows in
    if leb row.sort_order x.sort_order then row ∷ x ∷ rows else x ∷ rest

pub order_rows : List QueueRow → List QueueRow
order_rows [] = []
order_rows (x ∷ rows) = insert_sorted x (order_rows rows)

unfoldable pub select_rows : List QueueRow → QueueQuery → List QueueRow
unfolding selects order_rows insert_sorted
select_rows rows query = order_rows (keep (selects query) rows)

unfoldable pub rows_to_items : Platform → List QueueRow → Result QueueError (List QueueItem)
rows_to_items p rows = map_result (row_to_queue_item p) rows

-- The row with an id.
unfoldable pub row_at : List QueueRow → String → Option QueueRow
row_at [] id = none
row_at (x ∷ rows) id = let rest = row_at rows id in if str_eq x.id id then some x else rest
