-- ===== src/Queue/Store/Tests.antt =====
-- The laws of the stored queue at a table with two rows.
use bfrost.Prelude.{
  ℕ, ◌+◌, true, false, none, some, List, [], ◌∷◌, ◌++◌, ◌≡◌, ◌⊎◌, refl, length, all, ok,
}
use bfrost.Examples.{
  world, two_rows, open_store, unlocked, fresh, open_store-IsOpen, open_store-IsStore,
  unlocked-IsStore, clock, clock-Digests, copies, release, notice, newer_release,
}
use bfrost.Queue.Item.{
  QueueItem, item_fits, fields_fit, optional, within, nonempty, text_length, raw_fits,
}
use bfrost.Queue.Dedupe.{dedupe_queue_by_id, prune_queue}
use bfrost.Queue.Table.Frame.{row_item, item_at}
use bfrost.Queue.Table.{QueueRow, item_params, next_order, rows_to_items, row_at}
use bfrost.Queue.Store.{
  Store, save_queue, load_queue, insert_queue_item, upsert_queue_items, reap_expired_queue_items,
}
use bfrost.Queue.Store.Laws.{IsStore}
use bfrost.Queue.Store.Refinement.{
  insert, upsert, delete, call_fits, after_writers, replay, after_writers-replay,
}
use bfrost.Queue.Store.Keys.{saves, inserts, deletes, after_calls, after_calls-IsStore}
use bfrost.Queue.Store.Contents.{load_queue-save_queue}
use bfrost.Queue.Store.Writers.{Upserted, dropped, insert_cases, upsert_queue_items-Upserted}
use bfrost.Queue.Store.Reap.{reap-prune}

copies-fit : all (item_fits clock) copies ≡ true
unfolding item_fits fields_fit optional within nonempty text_length
copies-fit = refl

fresh-fits : item_fits clock fresh ≡ true
unfolding item_fits fields_fit optional within nonempty text_length
fresh-fits = refl

load_queue-save_queue_example :
    (t : Store) × (save_queue clock copies open_store ≡ (ok tt, t))
    × (load_queue clock world t ≡ (ok (dedupe_queue_by_id clock copies), t))
    × (t.cached_queue ≡ none)
load_queue-save_queue_example = load_queue-save_queue clock world copies open_store refl copies-fit

after_calls_example :
    IsStore clock
      (after_calls clock world (inserts fresh ∷ deletes ("a" ∷ []) ∷ saves copies ∷ []) unlocked)
after_calls_example =
    after_calls-IsStore clock clock-Digests world
      (inserts fresh ∷ deletes ("a" ∷ []) ∷ saves copies ∷ []) unlocked unlocked-IsStore

insert_example :
    ((row_at two_rows "c" ≡ none)
      × (insert_queue_item clock world fresh open_store ≡ (
        ok (fresh, true),
        record (dropped open_store) {
          rows = two_rows ++ item_params fresh (next_order two_rows) ∷ [];
        },
      )))
    ⊎ ((row : QueueRow) × (row_at two_rows "c" ≡ some row)
        × (insert_queue_item clock world fresh open_store
            ≡ (ok (row_item row, false), dropped open_store)))
insert_example =
    insert_cases clock world fresh open_store open_store-IsOpen open_store-IsStore fresh-fits

upsert_example :
    (rows : List QueueRow) × (upsert_queue_items clock world copies open_store
      ≡ (ok tt, record (dropped open_store) { rows = rows }))
    × Upserted copies two_rows rows
upsert_example =
    upsert_queue_items-Upserted clock world release (notice ∷ newer_release ∷ []) open_store
      open_store-IsOpen copies-fit

three_fit : all (call_fits clock) (insert fresh ∷ delete "a" [] ∷ upsert release [] ∷ []) ≡ true
unfolding call_fits item_fits fields_fit raw_fits optional within nonempty text_length
three_fit = refl

after_writers-replay_example :
    item_at
      (after_writers clock world
        (insert fresh ∷ delete "a" [] ∷ upsert release [] ∷ [])
        open_store).rows
      "c"
    ≡ replay (insert fresh ∷ delete "a" [] ∷ upsert release [] ∷ []) "c" (item_at two_rows "c")
after_writers-replay_example =
    after_writers-replay clock clock-Digests world
      (insert fresh ∷ delete "a" [] ∷ upsert release [] ∷ []) open_store "c" open_store-IsOpen
      open_store-IsStore three_fit

reap_example :
    (items : List QueueItem) × (n : ℕ) × (t : Store) × (rows_to_items clock two_rows ≡ ok items)
    × (reap_expired_queue_items clock world 5000000000 open_store ≡ (ok n, t))
    × (rows_to_items clock t.rows ≡ ok (prune_queue clock items 5000000000))
    × (n + length t.rows ≡ 2)
unfolding item_params
reap_example =
    reap-prune clock world 5000000000 open_store open_store-IsOpen open_store-IsStore.distinct
      open_store-IsStore.fits (refl, (refl, tt))
