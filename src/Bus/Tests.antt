-- ===== src/Bus/Tests.antt =====
-- The laws of the Item Bus at a table with two rows.
use bfrost.Prelude.{
  String, true, false, none, some, [], ◌∷◌, ◌++◌, ◌≡◌, ◌≢◌, ◌⊎◌, refl, map, keep, ok, err, eq_iff,
}
use bfrost.Json.{text}
use bfrost.Examples.{clock, world, two_rows, unlocked, unlocked-IsStore, release}
use bfrost.Queue.Item.{
  item_fits, fields_fit, optional, within, nonempty, text_length, normalize_queue_item,
  id_collision,
}
use bfrost.Queue.Dedupe.{prune_queue}
use bfrost.Queue.Table.{text_le, QueueRow, item_params, next_order, row_at, selects}
use bfrost.Queue.Table.Frame.{row_item}
use bfrost.Bus.Consumer.{
  ConsumerFilter, ConsumerSuccessInput, ConsumerFailureInput, passes, apply_consumer_success,
  apply_consumer_failure, read_consumer_metadata, filter_items_for_consumer, consumer_query,
}
use bfrost.Bus.Consumer.Laws.{consumers_apart, handled_not_selected, prefilter_complete}
use bfrost.Bus.Publish.{PublishItemInput, publish_item, build_item_draft}
use bfrost.Bus.Publish.Laws.{IsIdle, Owned, drafted, untouched, publish_cases}

abbrev success : ConsumerSuccessInput
success = record {
  transition = none;
  posted_id = none;
  metadata = some (("draft", text "1") ∷ []);
  now_iso = "2026-01-04";
}

abbrev failure : ConsumerFailureInput
failure = record {
  error_message = "timeout";
  max_attempts = 3;
  is_duplicate = false;
  metadata = some (("draft", text "1") ∷ []);
  now_iso = "2026-01-04";
}

abbrev unhandled : ConsumerFilter
unhandled = record {
  item_type = some "article";
  item_types = none;
  tags = none;
  states = none;
  exclude_already_handled = true;
}

apart : ◌≢◌ {A = String} "mail" "blog"
apart e = let same = (eq_iff "mail" "blog").1 e in cc

consumers_apart_example :
    (read_consumer_metadata (apply_consumer_success release "mail" success) "blog"
      ≡ read_consumer_metadata release "blog")
    × (read_consumer_metadata (apply_consumer_failure release "mail" failure) "blog"
        ≡ read_consumer_metadata release "blog")
consumers_apart_example = consumers_apart release "mail" "blog" success failure apart

handled_not_selected_example :
    (passes "mail" unhandled (apply_consumer_success release "mail" success) ≡ false)
    × (passes "mail" unhandled (apply_consumer_failure release "mail" failure) ≡ false)
handled_not_selected_example =
    handled_not_selected release "mail" "draft" (text "1") [] success failure unhandled refl refl
      refl

prefilter_example :
    filter_items_for_consumer
      (prune_queue clock
        (map row_item (keep (selects (consumer_query "2026-01-01" "mail" unhandled)) two_rows))
        1200000000)
      "mail"
      unhandled
    ≡ filter_items_for_consumer
        (prune_queue clock (map row_item two_rows) 1200000000)
        "mail"
        unhandled
unfolding item_params text_le
prefilter_example =
    prefilter_complete clock 1200000000 "2026-01-01" "mail" unhandled two_rows
      ((λ h. refl), ((λ h. refl), tt))

abbrev article : PublishItemInput
article = record {
  producer_worker_id = "news";
  item_type = "article";
  tags = none;
  title = "A release";
  short_desc = "What is new";
  url = "https://example.org/release";
  payload = none;
  state = none;
  added_at = none;
  selection_reason = none;
  rejection_reason = none;
  state_reason = none;
  id = some "a";
}

article-fits : item_fits clock (drafted clock article "2026-01-04") ≡ true
unfolding item_fits fields_fit optional within nonempty text_length normalize_queue_item
    build_item_draft
article-fits = refl

idle : IsIdle world unlocked
idle = record { is_ready = refl; is_initialized = refl; is_free = refl; is_granted = refl }

publish_example :
    let item = drafted clock article "2026-01-04" in
    ((row_at two_rows item.id ≡ none)
      × (publish_item clock world article "2026-01-04" unlocked ≡ (
        ok (
          item,
          record { item_type = "article"; producer_worker_id = "news"; state = item.state } ∷ [],
        ),
        record (untouched unlocked) {
          rows = two_rows ++ item_params item (next_order two_rows) ∷ [];
        },
      )))
    ⊎ ((row : QueueRow) × (row_at two_rows item.id ≡ some row)
        × ((Owned (row_item row) article
              × (publish_item clock world article "2026-01-04" unlocked
                  ≡ (ok (row_item row, []), untouched unlocked)))
            ⊎ ((¬ Owned (row_item row) article)
                × (publish_item clock world article "2026-01-04" unlocked
                    ≡ (err id_collision, untouched unlocked)))))
publish_example =
    publish_cases clock world article "2026-01-04" unlocked idle unlocked-IsStore article-fits
