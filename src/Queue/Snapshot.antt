-- ===== src/Queue/Snapshot.antt =====
-- The queue as the dashboard shows and changes it (src/jobs/queue-service.ts). The event that is
-- recorded after a change is the result of the change.
pub mod Laws
use bfrost.Prelude.{
  ℕ, ◌+◌, String, Bool, true, false, not, ◌&&◌, Option, none, some, List, [], ◌∷◌, ◌++◌, ltb, keep,
  length, map, str_eq, truthy, get_or_else, lookup, keys, includes, concat_texts, if◌then◌else◌,
  Result, ok, err, some_truthy, is_some,
}
use bfrost.Platform.{Platform}
use bfrost.Json.{Json, Object, text}
use bfrost.Queue.Item.{
  QueueItem, QueueItemState, QueueError, seen, rejected, queued, approved, posted, failed,
}
use bfrost.Queue.Dedupe.{prune_queue}
use bfrost.Queue.Moves.{approve_queue_item, reject_queue_item}
use bfrost.Queue.Store.Reads.{load_queue_for_read}
use bfrost.Queue.Store.{
  World, Effect, ◌>>=◌, ◌>>◌, return, lift, load_queue, save_queue, with_queue_lock,
}

pub data DashboardQueueAction : Type 0 where
  approve reject : DashboardQueueAction

-- `Record<QueueItemState, number>`.
pub record StateCounts : Type 0 where
  pub seen : ℕ
  pub rejected : ℕ
  pub queued : ℕ
  pub approved : ℕ
  pub posted : ℕ
  pub failed : ℕ

pub count_state : QueueItemState → StateCounts → StateCounts
count_state QueueItemState.seen c = record c { seen = c.seen + 1 }
count_state QueueItemState.rejected c = record c { rejected = c.rejected + 1 }
count_state QueueItemState.queued c = record c { queued = c.queued + 1 }
count_state QueueItemState.approved c = record c { approved = c.approved + 1 }
count_state QueueItemState.posted c = record c { posted = c.posted + 1 }
count_state QueueItemState.failed c = record c { failed = c.failed + 1 }

count_from : StateCounts → List QueueItem → StateCounts
unfolding count_state
count_from c [] = c
count_from c (item ∷ items) = count_from (count_state item.state c) items

pub count_states : List QueueItem → StateCounts
unfolding count_from
count_states items =
    count_from (record { seen = 0; rejected = 0; queued = 0; approved = 0; posted = 0; failed = 0 })
      items

pub record QueueSnapshot : Type 0 where
  pub total : ℕ
  pub queued : ℕ
  pub approved : ℕ
  pub posted : ℕ
  pub rejected : ℕ
  pub failed : ℕ
  pub seen : ℕ
  pub retrying : ℕ
  pub recent_items : List QueueItem

pub is_failed : QueueItemState → Bool
is_failed QueueItemState.failed = true
is_failed _ = false

-- `Date.parse(b.stateChangedAt || b.addedAt) - Date.parse(a.stateChangedAt || a.addedAt)`: does `b`
-- come first? A difference that is not a number leaves the order.
changed_text : QueueItem → String
changed_text item = if truthy item.state_changed_at then item.state_changed_at else item.added_at

later_change : Platform → QueueItem → QueueItem → Bool
unfolding changed_text
later_change p a b = elim (p.date_parse (changed_text a)) [
  | none ↦ false
  | some at ↦ elim (p.date_parse (changed_text b)) [ none ↦ false | some bt ↦ ltb at bt ]
]

insert_recent : Platform → QueueItem → List QueueItem → List QueueItem
unfolding later_change
insert_recent p item [] = item ∷ []
insert_recent p item (x ∷ items) =
    let rest = insert_recent p item items in
    if later_change p item x then x ∷ rest else item ∷ x ∷ items

pub recent_first : Platform → List QueueItem → List QueueItem
unfolding insert_recent
recent_first p [] = []
recent_first p (x ∷ items) = insert_recent p x (recent_first p items)

pub build_queue_snapshot : Platform → List QueueItem → QueueSnapshot
unfolding count_states is_failed recent_first
build_queue_snapshot p items =
    let counts = count_states items in
    let failed_items = keep (λ (item : QueueItem). is_failed item.state) items in
    record {
      total = length items;
      queued = counts.queued;
      approved = counts.approved;
      posted = counts.posted;
      rejected = counts.rejected;
      failed = counts.failed;
      seen = counts.seen;
      retrying =
          length
            (keep (λ (item : QueueItem). ltb 0 (get_or_else item.attempt_count 0)) failed_items);
      recent_items = recent_first p items;
    }

-- `item.payload?.targetSiteId`, where it is a text.
pub target_site : QueueItem → Option String
target_site item = elim (item.payload) [
  | none ↦ none
  | some payload ↦ elim (lookup "targetSiteId" payload) [
    | none ↦ none
    | some value ↦ elim value [ text id ↦ some id | _ ↦ none ]
  ]
]

pub targets : String → Option String → Bool
targets id none = false
targets id (some site) = str_eq site id

pub filter_items_for_scope : Option String → List QueueItem → List QueueItem
unfolding target_site targets
filter_items_for_scope active_scope_id items =
    let id = get_or_else active_scope_id "" in
    if not (some_truthy active_scope_id)
    then items
    else if str_eq id "__global__"
    then keep (λ item. not (is_some (target_site item))) items
    else keep (λ item. targets id (target_site item)) items

pub load_queue_snapshot : Platform → World → ℕ → Option String → Effect QueueSnapshot
unfolding build_queue_snapshot filter_items_for_scope
load_queue_snapshot p world now_ms active_scope_id = load_queue_for_read p world >>= (λ items.
    return (
      build_queue_snapshot p (filter_items_for_scope active_scope_id (prune_queue p items now_ms))))

-- The distinct worker ids that an event of the item names, the producer first.
pub attribution : QueueItem → List String
attribution item =
    let producer = get_or_else item.producer_worker_id "" in
    let consumers = keys (get_or_else item.metadata []) in
    if truthy producer
    then producer ∷ keep (λ id. not (str_eq id producer)) consumers
    else consumers

pub record QueueEvent : Type 0 where
  pub action : String
  pub summary : String
  pub worker_ids : List String
  pub id : String
  pub url : String

pub act :
    DashboardQueueAction
    → List QueueItem
    → String
    → String
    → Result QueueError (QueueItem × List QueueItem)
act approve queue id now_iso = approve_queue_item queue id now_iso
act reject queue id now_iso = reject_queue_item queue id now_iso

pub event_of : DashboardQueueAction → QueueItem → QueueEvent
unfolding attribution
event_of approve item = record {
  action = "approved";
  summary = concat_texts ("Approved queue item: " ∷ item.title ∷ []);
  worker_ids = attribution item;
  id = item.id;
  url = item.url;
}
event_of reject item = record {
  action = "rejected";
  summary = concat_texts ("Rejected queue item: " ∷ item.title ∷ []);
  worker_ids = attribution item;
  id = item.id;
  url = item.url;
}

pub update_dashboard_queue_item :
    Platform → World → String → DashboardQueueAction → String → Effect QueueEvent
unfolding act event_of
update_dashboard_queue_item p world id action now_iso = with_queue_lock world (
    load_queue p world >>= (λ queue.
      lift (act action queue id now_iso)
      >>= (λ moved. save_queue p moved.1 >> return (event_of action moved.0))))
