-- ===== src/Queue/Item.antt =====
-- Queue items: their types, the zod schema and the defaults (src/jobs/queue.ts).
pub mod Laws
mod Tests
use Prim.Native.Char.{code}
use bfrost.Prelude.{
  ℕ, ◌+◌, String, Bool, true, ◌&&◌, Option, none, some, List, [], ◌∷◌, ltb, leb, if◌then◌else◌,
  some_truthy, truthy, get_or_else, length, all, concat_texts, Result, ok, err,
}
use bfrost.Platform.{Platform}
use bfrost.Json.{Object, Namespaces}

pub data QueueItemState : Type 0 where
  seen rejected queued approved posted failed : QueueItemState

pub State-discrete : Discrete QueueItemState
State-discrete = hlevel

-- The fields that a raw item, a stored item and a table row share.
pub record ItemFields : Type 0 where
  pub title : String
  pub short_desc : String
  pub url : String
  pub added_at : String
  pub state_reason : Option String
  pub selection_reason : Option String
  pub rejection_reason : Option String
  pub posted_at : Option String
  pub attempt_count : Option ℕ
  pub last_attempt_at : Option String
  pub last_error : Option String
  pub producer_worker_id : Option String
  pub item_type : Option String
  pub tags : Option (List String)
  pub payload : Option Object
  pub metadata : Option Namespaces

pub record RawQueueItem : Type 0 where
  pub fields : ItemFields
  pub open fields use *
  pub id : Option String
  pub state : Option QueueItemState
  pub state_changed_at : Option String

pub record QueueItem : Type 0 where
  pub fields : ItemFields
  pub open fields use *
  pub id : String
  pub state : QueueItemState
  pub state_changed_at : String

pub data QueueError : Type 0 where
  item_not_found cannot_reject_posted lock_required invalid_item : QueueError
  id_taken id_collision lock_unavailable unreadable_file : QueueError
  cannot_approve : QueueItemState → QueueError

-- `length` of a JavaScript text: UTF-16 units.
unfoldable pub text_length : String → ℕ
text_length String.[] = 0
text_length (String.◌∷◌ c s) = (if ltb 0xFFFF (code c) then 2 else 1) + text_length s

-- `z.string().min(lo).max(hi)`, and the same where the field may be absent.
unfoldable pub within : ℕ → ℕ → String → Bool
within lo hi s = leb lo (text_length s) && leb (text_length s) hi

unfoldable pub nonempty : String → Bool
nonempty s = leb 1 (text_length s)

unfoldable pub optional {ℓ} : {A : Type ℓ} → (A → Bool) → Option A → Bool
optional test none = true
optional test (some a) = test a

-- The constraints of `RawQueueItemSchema` that its TypeScript type does not already give.
unfoldable pub fields_fit : Platform → ItemFields → Bool
fields_fit p f =
    within 1 200 f.title
    && nonempty f.short_desc
    && p.is_url f.url
    && optional nonempty f.state_reason
    && optional nonempty f.selection_reason
    && optional nonempty f.rejection_reason
    && optional (within 1 80) f.producer_worker_id
    && optional (within 1 120) f.item_type
    && optional (λ tags. leb (length tags) 32 && all (within 1 80) tags) f.tags

unfoldable pub raw_fits : Platform → RawQueueItem → Bool
raw_fits p item = optional (within 1 80) item.id && fields_fit p item.fields

-- `QueueItemSchema`: the id is there, and within its bounds.
unfoldable pub item_fits : Platform → QueueItem → Bool
item_fits p item = within 1 80 item.id && fields_fit p item.fields

unfoldable pub parse_raw : Platform → RawQueueItem → Result QueueError RawQueueItem
parse_raw p item = if raw_fits p item then ok item else err invalid_item

unfoldable pub parse_item : Platform → QueueItem → Result QueueError QueueItem
parse_item p item = if item_fits p item then ok item else err invalid_item

-- `QueueSchema.parse`: the first item that does not fit refuses the whole array.
unfoldable pub parse_items : Platform → List QueueItem → Result QueueError (List QueueItem)
parse_items p items = if all (item_fits p) items then ok items else err invalid_item

pub create_queue_item_id : Platform → ItemFields → String
create_queue_item_id p f =
    let source = concat_texts (f.url ∷ "\n" ∷ f.added_at ∷ "\n" ∷ f.title ∷ []) in
    concat_texts ("q_" ∷ p.sha256_prefix source ∷ [])

default_state : ItemFields → QueueItemState
default_state f =
    if some_truthy f.posted_at
    then posted
    else if some_truthy f.last_error
    then failed
    else if ltb 0 (get_or_else f.attempt_count 0)
    then failed
    else queued

default_changed_at : ItemFields → String
default_changed_at f = get_or_else f.posted_at (get_or_else f.last_attempt_at f.added_at)

unfoldable pub normalize_queue_item : Platform → RawQueueItem → QueueItem
unfolding default_state default_changed_at
normalize_queue_item p item = record {
  fields = item.fields;
  id = get_or_else item.id (create_queue_item_id p item.fields);
  state = get_or_else item.state (default_state item.fields);
  state_changed_at = get_or_else item.state_changed_at (default_changed_at item.fields);
}

-- A stored item read as a raw one: what `normalizeQueueItem` is given on the way out.
unfoldable pub as_raw : QueueItem → RawQueueItem
as_raw item = record {
  fields = item.fields;
  id = some item.id;
  state = some item.state;
  state_changed_at = some item.state_changed_at;
}

-- `a || b` on texts: the first that is not empty.
abbrev first_text : String → Option String → Option String → String → String
first_text a b c d =
    if truthy a
    then a
    else if some_truthy b
    then get_or_else b ""
    else if some_truthy c
    then get_or_else c ""
    else d

-- The text whose time orders an item's life.
unfoldable pub anchor_iso : QueueItem → String
anchor_iso item = first_text item.state_changed_at item.posted_at item.last_attempt_at item.added_at
