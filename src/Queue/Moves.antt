-- ===== src/Queue/Moves.antt =====
-- The transitions of a queue item (src/jobs/queue.ts). The source writes to the item in place;
-- here each operation returns the item that it leaves, and those that look an item up in a queue
-- return the queue with that item in its place.
pub mod Laws
mod Tests
use text.Mathlib.Text.{◌==◌ as str_eq}
use bfrost.Prelude.{
  ℕ, ◌+◌, String, Bool, true, false, Option, none, some, List, [], ◌∷◌, leb, if◌then◌else◌,
  get_or_else, find, concat_texts, decimal, Result, ok, err,
}
use bfrost.Queue.Item.{
  QueueItem, QueueItemState, QueueError, seen, rejected, queued, approved, posted, failed,
  item_not_found, cannot_approve, cannot_reject_posted,
}

pub find_queue_item : List QueueItem → String → Result QueueError QueueItem
find_queue_item queue id = elim (find (λ (item : QueueItem). str_eq item.id id) queue) [
  | none ↦ err item_not_found
  | some item ↦ ok item
]

-- The queue after a write to the item that `find_queue_item` returned.
abbrev pub write_item : List QueueItem → String → QueueItem → List QueueItem
write_item [] id target = []
write_item (x ∷ queue) id target =
    let rest = write_item queue id target in if str_eq x.id id then target ∷ queue else x ∷ rest

can_approve : QueueItemState → Bool
can_approve queued = true
can_approve failed = true
can_approve rejected = true
can_approve _ = false

approved_item : QueueItem → String → QueueItem
approved_item item now_iso = record item {
  state = approved;
  state_changed_at = now_iso;
  fields = record item.fields {
    state_reason = some "Approved for publishing from the dashboard.";
    rejection_reason = none;
    last_error = none;
  };
}

approve_target :
    List QueueItem → String → String → QueueItem → Result QueueError (QueueItem × List QueueItem)
unfolding can_approve approved_item
approve_target queue id now_iso target =
    if can_approve target.state
    then ok (approved_item target now_iso, write_item queue id (approved_item target now_iso))
    else err (cannot_approve target.state)

pub approve_queue_item :
    List QueueItem → String → String → Result QueueError (QueueItem × List QueueItem)
unfolding find_queue_item approve_target
approve_queue_item queue id now_iso = elim (find_queue_item queue id) [
  | err e ↦ err e
  | ok target ↦ approve_target queue id now_iso target
]

rejected_item : QueueItem → String → QueueItem
rejected_item item now_iso = record item {
  state = rejected;
  state_changed_at = now_iso;
  fields = record item.fields {
    state_reason = some "Rejected from the dashboard.";
    rejection_reason = some "Rejected from the dashboard.";
  };
}

is_posted : QueueItemState → Bool
is_posted posted = true
is_posted _ = false

reject_target :
    List QueueItem → String → String → QueueItem → Result QueueError (QueueItem × List QueueItem)
unfolding is_posted rejected_item
reject_target queue id now_iso target =
    if is_posted target.state
    then err cannot_reject_posted
    else ok (rejected_item target now_iso, write_item queue id (rejected_item target now_iso))

pub reject_queue_item :
    List QueueItem → String → String → Result QueueError (QueueItem × List QueueItem)
unfolding find_queue_item reject_target
reject_queue_item queue id now_iso = elim (find_queue_item queue id) [
  | err e ↦ err e
  | ok target ↦ reject_target queue id now_iso target
]

unfoldable pub mark_queue_item_posted : QueueItem → String → String → QueueItem
mark_queue_item_posted item reason now_iso = record item {
  state = posted;
  state_changed_at = now_iso;
  fields = record item.fields {
    posted_at = some now_iso;
    last_attempt_at = some now_iso;
    state_reason = some reason;
    last_error = none;
    rejection_reason = none;
  };
}

unfoldable pub mark_queue_item_duplicate_rejected : QueueItem → String → ℕ → String → QueueItem
mark_queue_item_duplicate_rejected item error_message max_attempts now_iso = record item {
  state = rejected;
  state_changed_at = now_iso;
  fields = record item.fields {
    attempt_count = some max_attempts;
    last_attempt_at = some now_iso;
    last_error = some error_message;
    state_reason = some "Rejected because X flagged the generated post as duplicate content.";
    rejection_reason = some "X rejected the generated post as duplicate content.";
  };
}

failure_reason : ℕ → ℕ → String → String
failure_reason attempts max_attempts error_message =
    if leb max_attempts attempts
    then concat_texts (
        "Posting failed permanently after " ∷ decimal attempts ∷ " attempts: " ∷ error_message ∷ [])
    else concat_texts ("Posting failed on attempt " ∷ decimal attempts ∷ ": " ∷ error_message ∷ [])

unfoldable pub mark_queue_item_post_failed : QueueItem → String → ℕ → String → QueueItem
unfolding failure_reason
mark_queue_item_post_failed item error_message max_attempts now_iso =
    let attempts = get_or_else item.attempt_count 0 + 1 in
    record item {
      state = failed;
      state_changed_at = now_iso;
      fields = record item.fields {
        attempt_count = some attempts;
        last_attempt_at = some now_iso;
        last_error = some error_message;
        state_reason = some (failure_reason attempts max_attempts error_message);
      };
    }
