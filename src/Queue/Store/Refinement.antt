-- ===== src/Queue/Store/Refinement.antt =====
-- The raw writers of the queue under one lock, as a map from ids to items (src/jobs/queue.ts).
use bfrost.Prelude.{
  ℕ, String, Bool, true, false, Option, none, some, List, [], ◌∷◌, ◌++◌, ◌≡◌, refl, ap, sym, ◌∙◌,
  or_else, all, Bool-cases, includes, str_eq, eq_iff, inl, inr, arith, subst, if◌then◌else◌,
}
use bfrost.Platform.{Platform, Digests}
use bfrost.Queue.Item.{QueueItem, item_fits, text_length}
use bfrost.Queue.Table.{QueueRow, row_at, item_params, next_order, delete_rows}
use bfrost.Queue.Table.Frame.{item_at, row_item, row_at-delete_rows}
use bfrost.Queue.Store.{Store, World, insert_queue_item, upsert_queue_items, delete_queue_items}
use bfrost.Queue.Store.Laws.{IsStore}
use bfrost.Queue.Store.Keys.{insert-Keeps, upsert-Keeps, delete-Keeps}
use bfrost.Queue.Store.Writers.{
  IsOpen, dropped, insert_cases, last_with, upsert_queue_items-Upserted,
}
use bfrost.Queue.Store.Reap.{delete_queue_items-rows}

-- A call of a raw writer, with at least one item or id.
pub data WriterCall : Type 0 where
  insert : QueueItem → WriterCall
  upsert : QueueItem → List QueueItem → WriterCall
  delete : String → List String → WriterCall

-- What a call writes fits the schema.
unfoldable pub call_fits : Platform → WriterCall → Bool
call_fits p (insert item) = item_fits p item
call_fits p (upsert item items) = all (item_fits p) (item ∷ items)
call_fits p (delete id gone) = true

pub after_writer : Platform → World → WriterCall → Store → Store
after_writer p w (insert item) s = (insert_queue_item p w item s).1
after_writer p w (upsert item items) s = (upsert_queue_items p w (item ∷ items) s).1
after_writer p w (delete id gone) s = (delete_queue_items p w (id ∷ gone) s).1

pub after_writers : Platform → World → List WriterCall → Store → Store
unfolding after_writer
after_writers p w [] s = s
after_writers p w (call ∷ calls) s = after_writers p w calls (after_writer p w call s)

-- The same calls on a map, at one id.
pub replay_call : WriterCall → String → Option QueueItem → Option QueueItem
replay_call (insert item) id old = or_else old (if str_eq item.id id then some item else none)
replay_call (upsert item items) id old = or_else (last_with (item ∷ items) id) old
replay_call (delete first gone) id old = if includes (first ∷ gone) id then none else old

pub replay : List WriterCall → String → Option QueueItem → Option QueueItem
unfolding replay_call
replay [] id old = old
replay (call ∷ calls) id old = replay calls id (replay_call call id old)

item_at-append :
    (rows : List QueueRow) (item : QueueItem) (n : ℕ) (id : String)
    → item_at (rows ++ item_params item n ∷ []) id
      ≡ or_else (item_at rows id) (if str_eq item.id id then some item else none)
unfolding row_at item_params
item_at-append [] item n id = ground arith
item_at-append (x ∷ rows) item n id = ground (arith, item_at-append rows item n id)

-- What one call leaves.
pub record Refines (p : Platform) (call : WriterCall) (s after : Store) : Type 0 where
  pub is_open : IsOpen after
  pub is_store : IsStore p after
  pub contents : (id : String) → item_at after.rows id ≡ replay_call call id (item_at s.rows id)

still-IsOpen :
    (s : Store) (rows : List QueueRow) → IsOpen s → IsOpen (record (dropped s) { rows = rows })
still-IsOpen s rows o = record {
  is_ready = o.is_ready;
  is_initialized = o.is_initialized;
  is_locked = o.is_locked;
}

written-Refines :
    (p : Platform) (call : WriterCall) (s after : Store) (rows : List QueueRow)
    → after ≡ record (dropped s) { rows = rows }
    → IsOpen s
    → IsStore p after
    → ((id : String) → item_at rows id ≡ replay_call call id (item_at s.rows id))
    → Refines p call s after
written-Refines p call s after rows e o v c = record {
  is_open = subst IsOpen (sym e) (still-IsOpen s rows o);
  is_store = v;
  contents = λ id. ap (λ t. item_at t.rows id) e ∙ c id;
}

item_at-deleted :
    (rows : List QueueRow) (gone : List String) (id : String)
    → item_at (delete_rows rows gone) id ≡ (if includes gone id then none else item_at rows id)
item_at-deleted rows gone id = ground (arith, row_at-delete_rows rows gone id)

not_written :
    (test : Bool) (item : QueueItem) (old : Option QueueItem)
    → test ≡ false
    → old ≡ or_else old (if test then some item else none)
not_written test item none e = rw e refl
not_written test item (some old) e = refl

-- An item that is there is not written over.
kept_item :
    (item : QueueItem) (rows : List QueueRow) (row : QueueRow) (id : String)
    → row_at rows item.id ≡ some row
    → item_at rows id ≡ replay_call (insert item) id (item_at rows id)
unfolding replay_call
kept_item item rows row id there = elim (Bool-cases (str_eq item.id id)) [
  | inl e ↦
      let at : row_at rows id ≡ some row =
        subst (λ k. row_at rows k ≡ some row) ((eq_iff item.id id).0 e) there in
      let found : item_at rows id ≡ some (row_item row) = rw (item_at, at) refl in
      subst (λ old. old ≡ replay_call (insert item) id old) (sym found) refl
  | inr e ↦ not_written (str_eq item.id id) item (item_at rows id) e
]

insert-Refines :
    (p : Platform) (d : Digests p text_length) (w : World) (item : QueueItem) (s : Store)
    → IsOpen s
    → IsStore p s
    → item_fits p item ≡ true
    → Refines p (insert item) s (after_writer p w (insert item) s)
unfolding after_writer replay_call
insert-Refines p d w item s o v fit = elim (insert_cases p w item s o v fit) [
  | inl (absent, e) ↦
      written-Refines p (insert item) s (after_writer p w (insert item) s)
        (s.rows ++ item_params item (next_order s.rows) ∷ []) (ap (λ r. r.1) e) o
        (insert-Keeps p d w item s v) (item_at-append s.rows item (next_order s.rows))
  | inr (row, there, e) ↦
      written-Refines p (insert item) s (after_writer p w (insert item) s) s.rows (ap (λ r. r.1) e)
        o (insert-Keeps p d w item s v) (λ id. kept_item item s.rows row id there)
]

upsert-Refines :
    (p : Platform) (d : Digests p text_length) (w : World) (item : QueueItem)
    (items : List QueueItem) (s : Store)
    → IsOpen s
    → IsStore p s
    → all (item_fits p) (item ∷ items) ≡ true
    → Refines p (upsert item items) s (after_writer p w (upsert item items) s)
unfolding after_writer replay_call
upsert-Refines p d w item items s o v fit =
    let (rows, e, u) = upsert_queue_items-Upserted p w item items s o fit in
    written-Refines p (upsert item items) s (after_writer p w (upsert item items) s) rows
      (ap (λ r. r.1) e) o (upsert-Keeps p d w (item ∷ items) s v) u.contents

delete-Refines :
    (p : Platform) (d : Digests p text_length) (w : World) (first : String) (gone : List String)
    (s : Store)
    → IsOpen s
    → IsStore p s
    → Refines p (delete first gone) s (after_writer p w (delete first gone) s)
unfolding after_writer replay_call
delete-Refines p d w first gone s o v =
    written-Refines p (delete first gone) s (after_writer p w (delete first gone) s)
      (delete_rows s.rows (first ∷ gone)) (delete_queue_items-rows p w first gone s o) o
      (delete-Keeps p d w (first ∷ gone) s v) (item_at-deleted s.rows (first ∷ gone))

call-Refines :
    (p : Platform) (d : Digests p text_length) (w : World) (call : WriterCall) (s : Store)
    → IsOpen s
    → IsStore p s
    → call_fits p call ≡ true
    → Refines p call s (after_writer p w call s)
unfolding call_fits
call-Refines p d w (insert item) s o v fit = insert-Refines p d w item s o v fit
call-Refines p d w (upsert item items) s o v fit = upsert-Refines p d w item items s o v fit
call-Refines p d w (delete first gone) s o v fit = delete-Refines p d w first gone s o v

-- Where a digest has its length, in a loaded store with its invariant, under the lock: any sequence of
-- insertions, upserts and deletions whose items fit the schema leaves, at every id, the item that the
-- same calls leave in a map from ids to items, where an insertion never writes over an item. The store
-- stays loaded and keeps its invariant, so that the order of the rows and the cache play no part.
pub after_writers-replay :
    (p : Platform) (d : Digests p text_length) (w : World) (calls : List WriterCall) (s : Store)
    (id : String)
    → IsOpen s
    → IsStore p s
    → all (call_fits p) calls ≡ true
    → item_at (after_writers p w calls s).rows id ≡ replay calls id (item_at s.rows id)
unfolding after_writers replay
after_writers-replay p d w [] s id o v fit = refl
after_writers-replay p d w (call ∷ calls) s id o v fit =
    let r = call-Refines p d w call s o v (ground (arith, fit)) in
    after_writers-replay p d w calls (after_writer p w call s) id r.is_open r.is_store
      (ground (arith, fit))
    ∙ ap (replay calls id) (r.contents id)
