-- ===== src/Queue/Moves/Laws.antt =====
-- What the transitions of a queue item allow, and what they leave alone.
use bfrost.Prelude.{
  ℕ, ◌+◌, String, true, false, none, some, List, [], ◌∷◌, ◌≡◌, ◌≢◌, ◌⊎◌, inl, inr, refl, eq_iff,
  includes, ok, err, arith, length, get_or_else, Bool-cases, ◌↔◌, ◌∙◌,
}
use bfrost.Queue.Item.{
  QueueItem, QueueItemState, seen, rejected, queued, approved, posted, failed, item_not_found,
  cannot_approve, cannot_reject_posted,
}
use bfrost.Queue.Dedupe.Laws.{ids}
use bfrost.Queue.Moves.{
  find_queue_item, write_item, approve_queue_item, reject_queue_item, can_approve, is_posted,
  mark_queue_item_post_failed, approved_item, rejected_item,
}

abbrev pub Approvable : QueueItemState → Type 0
Approvable s = (s ≡ queued) ⊎ ((s ≡ failed) ⊎ (s ≡ rejected))

find_queue_item-id :
    (queue : List QueueItem) (id : String) (item : QueueItem)
    → find_queue_item queue id ≡ ok item
    → item.id ≡ id
unfolding find_queue_item
find_queue_item-id [] id item h = cc
find_queue_item-id (x ∷ queue) id item h =
    ground (arith, eq_iff x.id id, find_queue_item-id queue id item)

-- A write under an id that the written item carries changes that entry only.
pub record Replaces (queue : List QueueItem) (id : String) (item : QueueItem)
    (next : List QueueItem) : Type 0 where
  pub same_ids : ids next ≡ ids queue
  pub stored : find_queue_item next id ≡ ok item
  pub others : (j : String) → j ≢ id → find_queue_item next j ≡ find_queue_item queue j

ids-write_item :
    (queue : List QueueItem) (id : String) (item : QueueItem)
    → item.id ≡ id
    → ids (write_item queue id item) ≡ ids queue
ids-write_item [] id item h = refl
ids-write_item (x ∷ queue) id item h =
    ground (arith, eq_iff x.id id, ids-write_item queue id item h)

find-write_item :
    (queue : List QueueItem) (id : String) (old item : QueueItem)
    → item.id ≡ id
    → find_queue_item queue id ≡ ok old
    → find_queue_item (write_item queue id item) id ≡ ok item
unfolding find_queue_item
find-write_item [] id old item e h = cc
find-write_item (x ∷ queue) id old item e h =
    ground (arith, eq_iff x.id id, eq_iff item.id id, find-write_item queue id old item e)

find-write_item_ne :
    (queue : List QueueItem) (id j : String) (item : QueueItem)
    → item.id ≡ id
    → j ≢ id
    → find_queue_item (write_item queue id item) j ≡ find_queue_item queue j
unfolding find_queue_item
find-write_item_ne [] id j item e n = refl
find-write_item_ne (x ∷ queue) id j item e n =
    ground (
      arith,
      eq_iff x.id id,
      eq_iff x.id j,
      eq_iff item.id j,
      find-write_item_ne queue id j item e n,
    )

write_item-Replaces :
    (queue : List QueueItem) (id : String) (old item : QueueItem)
    → item.id ≡ id
    → find_queue_item queue id ≡ ok old
    → Replaces queue id item (write_item queue id item)
write_item-Replaces queue id old item e h = record {
  same_ids = ids-write_item queue id item e;
  stored = find-write_item queue id old item e h;
  others = λ j n. find-write_item_ne queue id j item e n;
}

can_approve_iff : (s : QueueItemState) → (can_approve s ≡ true) ↔ Approvable s
unfolding can_approve
can_approve_iff seen = ground arith
can_approve_iff _ = ground arith

-- What an approval leaves of the item: approved at the given time, its error and its rejection
-- cleared, its attempts and all that its producer and consumers wrote as they were.
pub record Approved (item : QueueItem) (now : String) (done : QueueItem) : Type 0 where
  pub state : done.state ≡ approved
  pub changed_at : done.state_changed_at ≡ now
  pub no_error : done.last_error ≡ none
  pub no_rejection : done.rejection_reason ≡ none
  pub attempts : done.attempt_count ≡ item.attempt_count
  pub payload : done.payload ≡ item.payload
  pub metadata : done.metadata ≡ item.metadata

-- Approval of an item that is there: it goes through exactly in the states `queued`, `failed` and
-- `rejected`, approves that item, and writes to no other; in any other state it is refused with
-- an error that names the state.
pub approve_cases :
    (queue : List QueueItem) (id now : String) (item : QueueItem)
    → find_queue_item queue id ≡ ok item
    → (Approvable item.state
        × (done : QueueItem) × (next : List QueueItem) × (approve_queue_item queue id now
            ≡ ok (done, next))
        × Approved item now done
        × Replaces queue id done next)
      ⊎ ((¬ Approvable item.state)
          × (approve_queue_item queue id now ≡ err (cannot_approve item.state)))
unfolding approve_queue_item
approve_cases queue id now item h = elim (Bool-cases (can_approve item.state)) [
  | inl e ↦ inl (
    (can_approve_iff item.state).0 e,
    approved_item item now,
    write_item queue id (approved_item item now),
    rw (h, approve_queue_item) (rw e refl),
    ground arith,
    write_item-Replaces queue id item (approved_item item now) (find_queue_item-id queue id item h)
        h,
  )
  | inr e ↦
      inr (λ a. cc (e, (can_approve_iff item.state).1 a), rw (h, approve_queue_item) (rw e refl))
]

pub record Rejected (item : QueueItem) (now : String) (done : QueueItem) : Type 0 where
  pub state : done.state ≡ rejected
  pub changed_at : done.state_changed_at ≡ now
  pub reason : done.rejection_reason ≡ some "Rejected from the dashboard."
  pub error : done.last_error ≡ item.last_error
  pub attempts : done.attempt_count ≡ item.attempt_count
  pub payload : done.payload ≡ item.payload
  pub metadata : done.metadata ≡ item.metadata

is_posted_iff : (s : QueueItemState) → (is_posted s ≡ true) ↔ (s ≡ posted)
unfolding is_posted
is_posted_iff seen = ground arith
is_posted_iff _ = ground arith

-- Rejection of an item that is there: it goes through in every state but `posted`, rejects that
-- item, and writes to no other; a posted item is refused.
pub reject_cases :
    (queue : List QueueItem) (id now : String) (item : QueueItem)
    → find_queue_item queue id ≡ ok item
    → ((item.state ≢ posted)
        × (done : QueueItem) × (next : List QueueItem) × (reject_queue_item queue id now
            ≡ ok (done, next))
        × Rejected item now done
        × Replaces queue id done next)
      ⊎ ((item.state ≡ posted) × (reject_queue_item queue id now ≡ err cannot_reject_posted))
unfolding reject_queue_item
reject_cases queue id now item h = elim (Bool-cases (is_posted item.state)) [
  | inl e ↦ inr ((is_posted_iff item.state).0 e, rw (h, reject_queue_item) (rw e refl))
  | inr e ↦ inl (
    λ a. cc (e, (is_posted_iff item.state).1 a),
    rejected_item item now,
    write_item queue id (rejected_item item now),
    rw (h, reject_queue_item) (rw e refl),
    ground arith,
    write_item-Replaces queue id item (rejected_item item now) (find_queue_item-id queue id item h)
        h,
  )
]

find_queue_item_missing :
    (queue : List QueueItem) (id : String)
    → includes (ids queue) id ≡ false
    → find_queue_item queue id ≡ err item_not_found
unfolding find_queue_item
find_queue_item_missing [] id h = refl
find_queue_item_missing (x ∷ queue) id h = ground (arith, find_queue_item_missing queue id)

-- Neither operation invents an item: an unknown id is an error of both.
pub missing_item :
    (queue : List QueueItem) (id now : String)
    → includes (ids queue) id ≡ false
    → (approve_queue_item queue id now ≡ err item_not_found)
      × (reject_queue_item queue id now ≡ err item_not_found)
unfolding approve_queue_item reject_queue_item
missing_item queue id now h =
    let e = find_queue_item_missing queue id h in
    (rw (e, approve_queue_item) refl, rw (e, reject_queue_item) refl)

-- Attempts that fail one after the other, each with its message and time.
abbrev pub fail_all : QueueItem → ℕ → List (String × String) → QueueItem
fail_all item max_attempts [] = item
fail_all item max_attempts ((message, now) ∷ rest) =
    fail_all (mark_queue_item_post_failed item message max_attempts now) max_attempts rest

attempt_count-fail_all :
    (item : QueueItem) (max_attempts : ℕ) (attempts : List (String × String)) (n : ℕ)
    → item.attempt_count ≡ some n
    → (fail_all item max_attempts attempts).attempt_count ≡ some (n + length attempts)
unfolding mark_queue_item_post_failed
attempt_count-fail_all item max_attempts [] n h = ground (arith, h)
attempt_count-fail_all item max_attempts ((message, now) ∷ rest) n h =
    attempt_count-fail_all (mark_queue_item_post_failed item message max_attempts now) max_attempts
      rest (n + 1) (ground arith)
    ∙ ground arith

state-fail_all :
    (item : QueueItem) (max_attempts : ℕ) (attempts : List (String × String))
    → item.state ≡ failed
    → (fail_all item max_attempts attempts).state ≡ failed
unfolding mark_queue_item_post_failed
state-fail_all item max_attempts [] h = h
state-fail_all item max_attempts ((message, now) ∷ rest) h =
    state-fail_all (mark_queue_item_post_failed item message max_attempts now) max_attempts rest
      refl

-- Failed attempts are counted one by one from the count that the item had, zero if it had none, and
-- leave the item `failed`, whatever the limit is.
pub fail_all_counts :
    (item : QueueItem) (max_attempts : ℕ) (attempt : String × String)
    (rest : List (String × String))
    → let done = fail_all item max_attempts (attempt ∷ rest) in
      (done.state ≡ failed)
      × (done.attempt_count ≡ some (get_or_else item.attempt_count 0 + length (attempt ∷ rest)))
unfolding mark_queue_item_post_failed
fail_all_counts item max_attempts (message, now) rest =
    let first = mark_queue_item_post_failed item message max_attempts now in
    (
      state-fail_all first max_attempts rest refl,
      attempt_count-fail_all first max_attempts rest (get_or_else item.attempt_count 0 + 1) refl
          ∙ ground arith,
    )
