-- ===== src/Bus/Publish.antt =====
-- The producer's side (src/jobs/item-bus.ts).
pub mod Laws
use bfrost.Prelude.{
  String, Bool, true, false, not, ◌||◌, Option, none, some, List, [], ◌∷◌, ◌++◌, if◌then◌else◌,
  get_or_else, str_eq, Result, ok, err, ◌&&◌,
}
use bfrost.Platform.{Platform}
use bfrost.Json.{Object}
use bfrost.Queue.Item.{
  QueueItem, QueueItemState, RawQueueItem, QueueError, queued, normalize_queue_item, parse_item,
  id_collision,
}
use bfrost.Queue.Store.{
  World, Store, Effect, ◌>>=◌, continue, return, lift, with_queue_lock, insert_queue_item,
}

pub record PublishItemInput : Type 0 where
  pub producer_worker_id : String
  pub item_type : String
  pub tags : Option (List String)
  pub title : String
  pub short_desc : String
  pub url : String
  pub payload : Option Object
  pub state : Option QueueItemState
  pub added_at : Option String
  pub selection_reason : Option String
  pub rejection_reason : Option String
  pub state_reason : Option String
  pub id : Option String

-- `now_iso` is the time that the source reads where the input gives none.
unfoldable pub build_item_draft : PublishItemInput → String → RawQueueItem
build_item_draft input now_iso =
    let added_at = get_or_else input.added_at now_iso in
    record {
      fields = record {
        title = input.title;
        short_desc = input.short_desc;
        url = input.url;
        added_at = added_at;
        state_reason = input.state_reason;
        selection_reason = input.selection_reason;
        rejection_reason = input.rejection_reason;
        posted_at = none;
        attempt_count = none;
        last_attempt_at = none;
        last_error = none;
        producer_worker_id = some input.producer_worker_id;
        item_type = some input.item_type;
        tags = input.tags;
        payload = input.payload;
        metadata = none;
      };
      id = input.id;
      state = some (get_or_else input.state queued);
      state_changed_at = some added_at;
    }

-- `createQueueItem`.
pub create_queue_item : Platform → RawQueueItem → Result QueueError QueueItem
create_queue_item p draft = parse_item p (normalize_queue_item p draft)

pub record ItemPublishedEvent : Type 0 where
  pub item_type : String
  pub producer_worker_id : String
  pub state : QueueItemState

is_text : Option String → String → Bool
is_text none s = false
is_text (some t) s = str_eq t s

-- The owner and the type of the stored item are those of the publisher.
same_owner : QueueItem → PublishItemInput → Bool
unfolding is_text
same_owner item input =
    is_text item.producer_worker_id input.producer_worker_id
    && is_text item.item_type input.item_type

check_owner : PublishItemInput → QueueItem × Bool → Effect (QueueItem × Bool)
unfolding same_owner
check_owner input (item, inserted) s =
    if not inserted && not (same_owner item input)
    then (err id_collision, s)
    else (ok (item, inserted), s)

publish_body : Platform → World → PublishItemInput → String → Effect (QueueItem × Bool)
unfolding create_queue_item build_item_draft check_owner
publish_body p w input now_iso = do
  stored ← lift (create_queue_item p (build_item_draft input now_iso))
  persisted ← insert_queue_item p w stored
  check_owner input persisted

-- The event of a publication, for the listeners, once the lock is free.
event_of : PublishItemInput → QueueItem → ItemPublishedEvent
event_of input item = record {
  item_type = input.item_type;
  producer_worker_id = input.producer_worker_id;
  state = item.state;
}

emit : PublishItemInput → QueueItem × Bool → Effect (QueueItem × List ItemPublishedEvent)
unfolding event_of
emit input (item, true) = return (item, event_of input item ∷ [])
emit input (item, false) = return (item, [])

-- The stored item, with the events that are emitted.
pub publish_item :
    Platform → World → PublishItemInput → String → Effect (QueueItem × List ItemPublishedEvent)
unfolding publish_body emit
publish_item p w input now_iso = do
  result ← with_queue_lock w (publish_body p w input now_iso)
  emit input result
