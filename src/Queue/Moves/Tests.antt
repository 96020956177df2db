-- ===== src/Queue/Moves/Tests.antt =====
-- The laws of the transitions at a queue of two items.
use bfrost.Prelude.{List, ◌≡◌, ◌⊎◌, ◌≢◌, refl, ok, err}
use bfrost.Examples.{two_items, release, notice}
use bfrost.Queue.Item.{QueueItem, cannot_approve, cannot_reject_posted, posted}
use bfrost.Queue.Moves.{find_queue_item, approve_queue_item, reject_queue_item}
use bfrost.Queue.Moves.Laws.{Approvable, Approved, Replaces, Rejected, approve_cases, reject_cases}

found-release : find_queue_item two_items "a" ≡ ok release
unfolding find_queue_item
found-release = refl

found-notice : find_queue_item two_items "b" ≡ ok notice
unfolding find_queue_item
found-notice = refl

approve_example :
    (Approvable release.state
      × (done : QueueItem) × (next : List QueueItem) × (approve_queue_item two_items "a"
            "2026-01-04"
          ≡ ok (done, next))
      × Approved release "2026-01-04" done
      × Replaces two_items "a" done next)
    ⊎ ((¬ Approvable release.state)
        × (approve_queue_item two_items "a" "2026-01-04" ≡ err (cannot_approve release.state)))
approve_example = approve_cases two_items "a" "2026-01-04" release found-release

reject_example :
    ((notice.state ≢ posted)
      × (done : QueueItem) × (next : List QueueItem) × (reject_queue_item two_items "b" "2026-01-04"
          ≡ ok (done, next))
      × Rejected notice "2026-01-04" done
      × Replaces two_items "b" done next)
    ⊎ ((notice.state ≡ posted)
        × (reject_queue_item two_items "b" "2026-01-04" ≡ err cannot_reject_posted))
reject_example = reject_cases two_items "b" "2026-01-04" notice found-notice
