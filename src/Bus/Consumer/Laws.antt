-- ===== src/Bus/Consumer/Laws.antt =====
-- Consumers do not disturb one another, a handled item is not selected again, and the table's
-- selection loses nothing (src/jobs/item-bus.ts).
use text.Mathlib.TextPositions.{eq_refl}
use bfrost.Json.{Json}
use bfrost.Prelude.{
  String, Bool, true, false, Option, none, some, List, [], ◌∷◌, ◌≡◌, ◌≢◌, refl, arith, lookup,
  lookup-insert, lookup-spread, spread, eq_iff, ap, if◌then◌else◌, str_eq, Bool-cases, inl, inr,
  ◌∙◌, All, map,
}
use bfrost.Platform.{Platform}
use bfrost.Json.{Object, Namespaces, Json}
use bfrost.Queue.Item.{QueueItem, anchor_iso}
use bfrost.Queue.Dedupe.{prune_queue, is_active_at}
use bfrost.Queue.Table.{QueueRow, selects, text_le}
use bfrost.Queue.Table.Frame.{row_item}
use bfrost.Queue.Moves.{
  mark_queue_item_posted, mark_queue_item_duplicate_rejected, mark_queue_item_post_failed,
}
use bfrost.Bus.Consumer.{
  ConsumerFilter, ConsumerSuccessInput, ConsumerFailureInput, Transition, to_posted, to_approved,
  to_rejected, passes, set_consumer_metadata, read_consumer_metadata, apply_consumer_success,
  apply_consumer_failure, consumer_query, filter_items_for_consumer, is_handled, transition_item,
  fail_item, with_fragment, get_or_else, ℕ, keep,
}

read-set :
    (item : QueueItem) (consumer other : String) (fragment : Object)
    → read_consumer_metadata (set_consumer_metadata item consumer fragment) other ≡ (
        if str_eq consumer other
        then some (spread (get_or_else (read_consumer_metadata item consumer) []) fragment)
        else read_consumer_metadata item other)
unfolding read_consumer_metadata set_consumer_metadata
read-set item consumer other fragment =
    lookup-insert consumer other _ (get_or_else item.metadata [])

-- The parts of an item that a transition leaves alone.
metadata-transition :
    (t : Transition) (item : QueueItem) (consumer : String) (posted_id : Option String)
    (now : String)
    → (transition_item t item consumer posted_id now).metadata ≡ item.metadata
unfolding transition_item mark_queue_item_posted
metadata-transition to_posted item consumer posted_id now = refl
metadata-transition to_approved item consumer posted_id now = refl
metadata-transition to_rejected item consumer posted_id now = refl

metadata-fail :
    (d : Bool) (item : QueueItem) (message : String) (max_attempts : ℕ) (now : String)
    → (fail_item d item message max_attempts now).metadata ≡ item.metadata
unfolding fail_item mark_queue_item_duplicate_rejected mark_queue_item_post_failed
metadata-fail true item message max_attempts now = refl
metadata-fail false item message max_attempts now = refl

same_read :
    (item before : QueueItem) (other : String)
    → item.metadata ≡ before.metadata
    → read_consumer_metadata item other ≡ read_consumer_metadata before other
unfolding read_consumer_metadata
same_read item before other same = ap (λ m. lookup other (get_or_else m [])) same

read-with_fragment :
    (fragment : Option Object) (item before : QueueItem) (consumer other : String)
    → item.metadata ≡ before.metadata
    → consumer ≢ other
    → read_consumer_metadata (with_fragment fragment item consumer) other
      ≡ read_consumer_metadata before other
unfolding with_fragment
read-with_fragment none item before consumer other same differ = same_read item before other same
read-with_fragment (some fragment) item before consumer other same differ =
    elim (Bool-cases (str_eq consumer other)) [
      | inl e ↦ absurd (differ ((eq_iff consumer other).0 e))
      | inr e ↦ read-set item consumer other fragment ∙ rw e (same_read item before other same)
    ]

-- Neither success nor failure of one consumer changes what another consumer reads of the item.
pub consumers_apart :
    (item : QueueItem) (consumer other : String) (success : ConsumerSuccessInput)
    (failure : ConsumerFailureInput)
    → consumer ≢ other
    → (read_consumer_metadata (apply_consumer_success item consumer success) other
        ≡ read_consumer_metadata item other)
      × (read_consumer_metadata (apply_consumer_failure item consumer failure) other
          ≡ read_consumer_metadata item other)
unfolding apply_consumer_success apply_consumer_failure
consumers_apart item consumer other success failure differ = (
  read-with_fragment success.metadata _ item consumer other
      (metadata-transition (get_or_else success.transition to_posted) item consumer
        success.posted_id success.now_iso)
      differ,
  read-with_fragment failure.metadata _ item consumer other
      (metadata-fail failure.is_duplicate item failure.error_message failure.max_attempts
        failure.now_iso)
      differ,
)

is_handled_by_key :
    (m : Option Namespaces) (consumer key : String) (namespace : Object) (value : Json)
    → lookup consumer (get_or_else m []) ≡ some namespace
    → lookup key namespace ≡ some value
    → is_handled m consumer ≡ true
unfolding is_handled
is_handled_by_key none consumer key namespace value e k = cc
is_handled_by_key (some m) consumer key [] value e k = cc
is_handled_by_key (some m) consumer key (entry ∷ rest) value e k = rw (e, is_handled) refl

is_handled-set :
    (item : QueueItem) (consumer key : String) (value : Json) (rest : Object)
    → is_handled (set_consumer_metadata item consumer ((key, value) ∷ rest)).metadata consumer
      ≡ true
is_handled-set item consumer key value rest =
    let old = get_or_else (read_consumer_metadata item consumer) [] in
    let written = (key, value) ∷ rest in
    is_handled_by_key (set_consumer_metadata item consumer written).metadata consumer key
      (spread old written) value
      (unfold read_consumer_metadata in
        read-set item consumer consumer written ∙ rw (eq_refl consumer) refl)
      (lookup-spread key old written ∙ rw (eq_refl key) refl)

handled-passes :
    (item : QueueItem) (consumer : String) (filter : ConsumerFilter)
    → filter.exclude_already_handled ≡ true
    → is_handled item.metadata consumer ≡ true
    → passes consumer filter item ≡ false
unfolding passes
handled-passes item consumer filter x h = ground arith

written-passes :
    (item : QueueItem) (consumer key : String) (value : Json) (rest : Object)
    (fragment : Option Object) (filter : ConsumerFilter)
    → fragment ≡ some ((key, value) ∷ rest)
    → filter.exclude_already_handled ≡ true
    → passes consumer filter (with_fragment fragment item consumer) ≡ false
unfolding with_fragment
written-passes item consumer key value rest fragment filter h x =
    rw h (handled-passes _ consumer filter x (is_handled-set item consumer key value rest))

-- A success or a failure whose metadata has an entry takes the item out of every subscription of
-- that consumer that leaves out what it has handled.
pub handled_not_selected :
    (item : QueueItem) (consumer key : String) (value : Json) (rest : Object)
    (success : ConsumerSuccessInput) (failure : ConsumerFailureInput) (filter : ConsumerFilter)
    → success.metadata ≡ some ((key, value) ∷ rest)
    → failure.metadata ≡ some ((key, value) ∷ rest)
    → filter.exclude_already_handled ≡ true
    → (passes consumer filter (apply_consumer_success item consumer success) ≡ false)
      × (passes consumer filter (apply_consumer_failure item consumer failure) ≡ false)
unfolding apply_consumer_success apply_consumer_failure
handled_not_selected item consumer key value rest success failure filter hs hf x = (
  written-passes _ consumer key value rest success.metadata filter hs x,
  written-passes _ consumer key value rest failure.metadata filter hf x,
)

-- A row whose item a subscription selects is among the rows that the table is asked for.
passes-selects :
    (row : QueueRow) (after consumer : String) (filter : ConsumerFilter)
    → passes consumer filter (row_item row) ≡ true
    → text_le after row.state_changed_at ≡ true
    → selects (consumer_query after consumer filter) row ≡ true
unfolding passes consumer_query selects
passes-selects row after consumer filter h l = ground arith

-- The selection that the table makes for a consumer loses nothing: filtering and pruning the rows
-- that it returns gives the same items, in the same order, as filtering and pruning all rows, if the
-- texts of the times that are still active are not before the text of the cut-off.
pub prefilter_complete :
    (p : Platform) (now : ℕ) (after consumer : String) (filter : ConsumerFilter)
    (rows : List QueueRow)
    → All
        (λ row.
          is_active_at (p.date_parse (anchor_iso (row_item row))) now ≡ true
          → text_le after row.state_changed_at ≡ true)
        rows
    → filter_items_for_consumer
        (prune_queue p
          (map row_item (keep (selects (consumer_query after consumer filter)) rows))
          now)
        consumer
        filter
      ≡ filter_items_for_consumer (prune_queue p (map row_item rows) now) consumer filter
unfolding filter_items_for_consumer prune_queue
prefilter_complete p now after consumer filter [] a = refl
prefilter_complete p now after consumer filter (row ∷ rows) a = ground (
  arith,
  prefilter_complete p now after consumer filter rows a.1,
  passes-selects row after consumer filter,
  a.0,
)
