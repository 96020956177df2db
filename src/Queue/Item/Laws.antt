-- ===== src/Queue/Item/Laws.antt =====
-- A stored array that passes the raw schema passes the full one once its defaults are filled in, so
-- the read paths need to validate once (src/jobs/queue.ts, normalizeStoredQueue).
use Prim.Native.String.{String}
use text.Mathlib.TextLemmas.{cons-append, nil-append}
use Prim.Native.String.{◌++◌ as str_append}
use bfrost.Prelude.{◌+◌, ◌≡◌, refl, arith, true, concat_texts, [], ◌∷◌}
use bfrost.Platform.{Platform, Digests}
use bfrost.Queue.Item.{
  text_length, within, raw_fits, item_fits, optional, RawQueueItem, QueueItem, normalize_queue_item,
  create_queue_item_id, as_raw, ItemFields,
}

text_length-append : (s t : String) → text_length (str_append s t) ≡ text_length s + text_length t
unfolding text_length
text_length-append String.[] t = rw (nil-append t) (omega arith)
text_length-append (String.◌∷◌ c s) t =
    rw (cons-append c s t) (omega (arith, text_length-append s t))

q_length : text_length "q_" ≡ 2
unfolding text_length
q_length = refl

empty_length : text_length "" ≡ 0
unfolding text_length
empty_length = refl

-- A generated id has 20 characters.
create_queue_item_id-length :
    (p : Platform) (d : Digests p text_length) (f : ItemFields)
    → text_length (create_queue_item_id p f) ≡ 20
unfolding create_queue_item_id
create_queue_item_id-length p d f =
    let source = concat_texts (f.url ∷ "\n" ∷ f.added_at ∷ "\n" ∷ f.title ∷ []) in
    omega (
      arith,
      text_length-append "q_" (str_append (p.sha256_prefix source) ""),
      text_length-append (p.sha256_prefix source) "",
      q_length,
      empty_length,
      d.digest_length source,
    )

-- Where a digest has its length, whatever the raw schema accepts is accepted by the full schema
-- after the defaults are filled in.
pub item_fits-normalize :
    (p : Platform) (d : Digests p text_length) (raw : RawQueueItem)
    → raw_fits p raw ≡ true
    → item_fits p (normalize_queue_item p raw) ≡ true
unfolding raw_fits item_fits normalize_queue_item optional within
item_fits-normalize p d raw h = ground (arith, create_queue_item_id-length p d raw.fields)

-- The defaults change nothing of an item that has its id, state and time.
pub normalize-as_raw :
    (p : Platform) (item : QueueItem) → normalize_queue_item p (as_raw item) ≡ item
unfolding normalize_queue_item as_raw
normalize-as_raw p item = refl
