-- ===== src/Bus/Consumer.antt =====
-- The consumer's side: which items a subscription selects, a consumer's own metadata, and what
-- success and failure do to an item (src/jobs/item-bus.ts).
pub mod Laws
use bfrost.Prelude.{
  ℕ, String, Bool, true, false, not, ◌&&◌, ◌||◌, Option, none, some, List, [], ◌∷◌, if◌then◌else◌,
  some_truthy, truthy, get_or_else, is_some, length, keep, any, includes, lookup, insert, spread,
  concat_texts, or_else,
}
use bfrost.Platform.{Platform}
use bfrost.Json.{Object, Namespaces}
use bfrost.Queue.Item.{QueueItem, QueueItemState, approved, rejected, posted}
use bfrost.Queue.Table.{QueueQuery, has_state}
use bfrost.Queue.Dedupe.{prune_queue}
use bfrost.Queue.Moves.{
  mark_queue_item_posted, mark_queue_item_duplicate_rejected, mark_queue_item_post_failed,
}
use bfrost.Queue.Store.{World, Effect, query_queue, ◌>>=◌, return}

pub record ConsumerFilter : Type 0 where
  pub item_type : Option String
  pub item_types : Option (List String)
  pub tags : Option (List String)
  pub states : Option (List QueueItemState)
  pub exclude_already_handled : Bool

-- `filter.itemTypes ?? (filter.itemType ? [filter.itemType] : undefined)`.
pub filter_types : ConsumerFilter → Option (List String)
filter_types filter =
    or_else filter.item_types
      (if some_truthy filter.item_type then some (get_or_else filter.item_type "" ∷ []) else none)

-- `!item.itemType || !types.includes(item.itemType)` refuses.
type_passes : Option (List String) → Option String → Bool
type_passes none item_type = true
type_passes (some types) none = false
type_passes (some types) (some t) = truthy t && includes types t

tags_pass : Option (List String) → Option (List String) → Bool
tags_pass none item_tags = true
tags_pass (some []) item_tags = true
tags_pass (some (tag ∷ tags)) item_tags = any (includes (get_or_else item_tags [])) (tag ∷ tags)

states_pass : Option (List QueueItemState) → QueueItemState → Bool
states_pass none s = true
states_pass (some states) s = has_state states s

-- `handled && Object.keys(handled).length > 0`.
pub is_handled : Option Namespaces → String → Bool
is_handled none consumer = false
is_handled (some metadata) consumer = elim (lookup consumer metadata) [
  | none ↦ false
  | some [] ↦ false
  | some (entry ∷ rest) ↦ true
]

pub passes : String → ConsumerFilter → QueueItem → Bool
unfolding filter_types type_passes tags_pass states_pass is_handled
passes consumer filter item =
    type_passes (filter_types filter) item.item_type
    && tags_pass filter.tags item.tags
    && states_pass filter.states item.state
    && not (filter.exclude_already_handled && is_handled item.metadata consumer)

pub filter_items_for_consumer : List QueueItem → String → ConsumerFilter → List QueueItem
filter_items_for_consumer items consumer filter = keep (passes consumer filter) items

-- What `listItemsForConsumer` asks the table for.
pub consumer_query : String → String → ConsumerFilter → QueueQuery
unfolding filter_types
consumer_query active_after consumer filter = record {
  ids = none;
  item_types = filter_types filter;
  states = filter.states;
  unhandled_by = if filter.exclude_already_handled then some consumer else none;
  active_after = some active_after;
}

-- `queueActiveAfterIso` prints the instant `nowMs - QUEUE_TTL_MS`, which is given.
pub list_items_for_consumer :
    Platform → World → String → ConsumerFilter → ℕ → String → Effect (List QueueItem)
unfolding consumer_query filter_items_for_consumer
list_items_for_consumer p w consumer filter now active_after = do
  items ← query_queue p w (consumer_query active_after consumer filter)
  return (filter_items_for_consumer (prune_queue p items now) consumer filter)

pub set_consumer_metadata : QueueItem → String → Object → QueueItem
set_consumer_metadata item consumer fragment =
    let next = get_or_else item.metadata [] in
    let existing = get_or_else (lookup consumer next) [] in
    record item {
      fields = record item.fields {
        metadata = some (insert consumer (spread existing fragment) next);
      };
    }

pub read_consumer_metadata : QueueItem → String → Option Object
read_consumer_metadata item consumer = lookup consumer (get_or_else item.metadata [])

pub data Transition : Type 0 where
  to_posted to_approved to_rejected : Transition

pub record ConsumerSuccessInput : Type 0 where
  pub transition : Option Transition
  pub posted_id : Option String
  pub metadata : Option Object
  pub now_iso : String

success_reason : String → Option String → String
success_reason consumer posted_id =
    if some_truthy posted_id
    then concat_texts ("Posted by " ∷ consumer ∷ " (id " ∷ get_or_else posted_id "" ∷ ")." ∷ [])
    else concat_texts ("Posted by " ∷ consumer ∷ "." ∷ [])

transition_item : Transition → QueueItem → String → Option String → String → QueueItem
unfolding success_reason
transition_item to_posted item consumer posted_id now_iso =
    mark_queue_item_posted item (success_reason consumer posted_id) now_iso
transition_item to_approved item consumer posted_id now_iso = record item {
  state = approved;
  state_changed_at = now_iso;
  fields = record item.fields {
    state_reason = some (concat_texts ("Approved by " ∷ consumer ∷ "." ∷ []));
  };
}
transition_item to_rejected item consumer posted_id now_iso =
    let reason = concat_texts ("Rejected by " ∷ consumer ∷ "." ∷ []) in
    record item {
      state = rejected;
      state_changed_at = now_iso;
      fields = record item.fields {
        state_reason = some reason;
        rejection_reason = some (get_or_else item.rejection_reason reason);
      };
    }

with_fragment : Option Object → QueueItem → String → QueueItem
unfolding set_consumer_metadata
with_fragment none item consumer = item
with_fragment (some fragment) item consumer = set_consumer_metadata item consumer fragment

pub apply_consumer_success : QueueItem → String → ConsumerSuccessInput → QueueItem
unfolding transition_item with_fragment
apply_consumer_success item consumer input =
    with_fragment input.metadata
      (transition_item (get_or_else input.transition to_posted) item consumer input.posted_id
        input.now_iso)
      consumer

pub record ConsumerFailureInput : Type 0 where
  pub error_message : String
  pub max_attempts : ℕ
  pub is_duplicate : Bool
  pub metadata : Option Object
  pub now_iso : String

fail_item : Bool → QueueItem → String → ℕ → String → QueueItem
fail_item true item message max_attempts now_iso =
    mark_queue_item_duplicate_rejected item message max_attempts now_iso
fail_item false item message max_attempts now_iso =
    mark_queue_item_post_failed item message max_attempts now_iso

pub apply_consumer_failure : QueueItem → String → ConsumerFailureInput → QueueItem
unfolding fail_item with_fragment
apply_consumer_failure item consumer input =
    with_fragment input.metadata
      (fail_item input.is_duplicate item input.error_message input.max_attempts input.now_iso)
      consumer
