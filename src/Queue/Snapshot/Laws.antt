-- ===== src/Queue/Snapshot/Laws.antt =====
-- The numbers of a snapshot (src/jobs/queue-service.ts).
use bfrost.Prelude.{
  ℕ, ◌+◌, ◌≤◌, List, [], ◌∷◌, ◌≡◌, refl, arith, keep, length, length-keep-le, get_or_else, ltb,
  if◌then◌else◌,
}
use bfrost.Platform.{Platform}
use bfrost.Queue.Item.{QueueItem, QueueItemState, seen, rejected, queued, approved, posted, failed}
use bfrost.Queue.Snapshot.{
  StateCounts, QueueSnapshot, count_state, count_from, count_states, is_failed,
  build_queue_snapshot,
}

abbrev pub sum_counts : StateCounts → ℕ
sum_counts c = c.seen + c.rejected + c.queued + c.approved + c.posted + c.failed

count_state-sum :
    (state : QueueItemState) (c : StateCounts) → sum_counts (count_state state c) ≡ sum_counts c + 1
unfolding count_state
count_state-sum seen c = omega arith
count_state-sum rejected c = omega arith
count_state-sum queued c = omega arith
count_state-sum approved c = omega arith
count_state-sum posted c = omega arith
count_state-sum failed c = omega arith

count_from-sum :
    (c : StateCounts) (items : List QueueItem)
    → sum_counts (count_from c items) ≡ sum_counts c + length items
unfolding count_from
count_from-sum c [] = omega arith
count_from-sum c (item ∷ items) =
    omega (arith, count_from-sum (count_state item.state c) items, count_state-sum item.state c)

count_state-failed :
    (state : QueueItemState) (c : StateCounts)
    → (count_state state c).failed ≡ c.failed + (if is_failed state then 1 else 0)
unfolding count_state is_failed
count_state-failed seen c = omega arith
count_state-failed rejected c = omega arith
count_state-failed queued c = omega arith
count_state-failed approved c = omega arith
count_state-failed posted c = omega arith
count_state-failed failed c = omega arith

count_from-failed :
    (c : StateCounts) (items : List QueueItem)
    → (count_from c items).failed ≡ c.failed + length (keep (λ item. is_failed item.state) items)
unfolding count_from
count_from-failed c [] = omega arith
count_from-failed c (item ∷ items) =
    ground
      (arith, count_from-failed (count_state item.state c) items, count_state-failed item.state c)

pub record IsCounted (snapshot : QueueSnapshot) (items : List QueueItem) : Type 0 where
  pub every_item :
      snapshot.seen + snapshot.rejected + snapshot.queued + snapshot.approved + snapshot.posted
        + snapshot.failed
      ≡ length items
  pub total : snapshot.total ≡ length items
  pub failures : snapshot.failed ≡ length (keep (λ item. is_failed item.state) items)
  pub retries : snapshot.retrying ≤ snapshot.failed

-- The six counts of a snapshot add up to its total, which is the number of items; the count of the
-- failed ones is their number, and no more are retrying than failed.
pub build_queue_snapshot-IsCounted :
    (p : Platform) (items : List QueueItem) → IsCounted (build_queue_snapshot p items) items
unfolding build_queue_snapshot count_states
build_queue_snapshot-IsCounted p items =
    let zero_counts : StateCounts = record {
      seen = 0;
      rejected = 0;
      queued = 0;
      approved = 0;
      posted = 0;
      failed = 0;
    } in
    let failures = count_from-failed zero_counts items in
    record {
      every_item = omega (arith, count_from-sum zero_counts items);
      total = refl;
      failures = omega (arith, failures);
      retries = omega (
        arith,
        failures,
        length-keep-le (λ (item : QueueItem). ltb 0 (get_or_else item.attempt_count 0))
            (keep (λ item. is_failed item.state) items),
      );
    }
