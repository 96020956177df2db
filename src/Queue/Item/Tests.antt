-- ===== src/Queue/Item/Tests.antt =====
-- The schemas at an item without an id.
use bfrost.Prelude.{none, true, ◌≡◌, refl}
use bfrost.Examples.{clock, clock-Digests, sample_fields}
use bfrost.Queue.Item.{
  RawQueueItem, item_fits, raw_fits, normalize_queue_item, text_length, fields_fit, optional,
  within, nonempty,
}
use bfrost.Queue.Item.Laws.{item_fits-normalize}

abbrev unnamed : RawQueueItem
unnamed = record { fields = sample_fields; id = none; state = none; state_changed_at = none }

unnamed-fits : raw_fits clock unnamed ≡ true
unfolding raw_fits fields_fit optional within nonempty text_length
unnamed-fits = refl

item_fits-normalize_example : item_fits clock (normalize_queue_item clock unnamed) ≡ true
item_fits-normalize_example = item_fits-normalize clock clock-Digests unnamed unnamed-fits
