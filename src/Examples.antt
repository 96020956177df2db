-- ===== src/Examples.antt =====
-- A small clock and a few items, at which the theorems are applied.
use bfrost.Prelude.{String, true, false, none, some, List, [], ◌∷◌, refl, str_eq, if◌then◌else◌}
use bfrost.Platform.{Platform, Digests}
use bfrost.Json.{text}
use bfrost.Queue.Item.{
  text_length, item_fits, ItemFields, QueueItem, QueueItemState, queued, posted, failed,
}
use bfrost.Queue.Item.{fields_fit, raw_fits, optional, within, nonempty}
use bfrost.Queue.Table.{QueueRow, item_params, row_ids, raw_of_row}
use bfrost.Queue.Store.{Store, World, missing}
use bfrost.Queue.Store.Laws.{IsStore}
use bfrost.Queue.Store.Writers.{IsOpen}

-- Four days, one after the other; any other text is no time.
abbrev pub clock : Platform
clock = record {
  date_parse = λ s.
      if str_eq s "2026-01-01"
      then some 1000000000
      else if str_eq s "2026-01-02"
      then some 1086400000
      else if str_eq s "2026-01-03"
      then some 1172800000
      else if str_eq s "2026-01-04"
      then some 1259200000
      else none;
  to_iso = λ t. "2026-01-01";
  is_url = λ s. true;
  sha256_prefix = λ s. "0123456789abcdef01";
}

abbrev pub sample_fields : ItemFields
sample_fields = record {
  title = "A release";
  short_desc = "What is new";
  url = "https://example.org/release";
  added_at = "2026-01-01";
  state_reason = none;
  selection_reason = none;
  rejection_reason = none;
  posted_at = none;
  attempt_count = none;
  last_attempt_at = none;
  last_error = none;
  producer_worker_id = some "news";
  item_type = some "article";
  tags = none;
  payload = none;
  metadata = some (("blog", ("seen", text "yes") ∷ []) ∷ []);
}

abbrev pub sample : String → QueueItemState → String → QueueItem
sample id state changed = record {
  fields = sample_fields;
  id = id;
  state = state;
  state_changed_at = changed;
}

abbrev pub release : QueueItem
release = sample "a" queued "2026-01-01"

abbrev pub newer_release : QueueItem
newer_release = sample "a" failed "2026-01-02"

abbrev pub notice : QueueItem
notice = sample "b" posted "2026-01-03"

abbrev pub two_items : List QueueItem
two_items = release ∷ notice ∷ []

abbrev pub copies : List QueueItem
copies = release ∷ notice ∷ newer_release ∷ []

pub clock-Digests : Digests clock text_length
unfolding text_length
clock-Digests = record { digest_length = λ s. refl }

abbrev pub world : World
world = record { queue_file = missing; legacy_files = []; lock_granted = true }

abbrev pub two_rows : List QueueRow
two_rows = item_params release 0 ∷ item_params notice 1 ∷ []

abbrev pub open_store : Store
open_store = record {
  rows = two_rows;
  initialized = true;
  app_kv = [];
  ready = true;
  cached_queue = none;
  cache_generation = 0;
  lock_held = true;
}

abbrev pub unlocked : Store
unlocked = record open_store { lock_held = false }

abbrev pub fresh : QueueItem
fresh = sample "c" queued "2026-01-04"

pub open_store-IsOpen : IsOpen open_store
open_store-IsOpen = record { is_ready = refl; is_initialized = refl; is_locked = refl }

pub open_store-IsStore : IsStore clock open_store
unfolding raw_fits raw_of_row item_params row_ids item_fits fields_fit optional within nonempty
    text_length
open_store-IsStore = record { distinct = (refl, (refl, tt)); fits = (refl, (refl, tt)) }

pub unlocked-IsStore : IsStore clock unlocked
unfolding raw_fits raw_of_row item_params row_ids item_fits fields_fit optional within nonempty
    text_length
unlocked-IsStore = record { distinct = (refl, (refl, tt)); fits = (refl, (refl, tt)) }
