-- ===== src/Queue/Store/Keys.antt =====
-- Every operation on the stored queue keeps its invariant, whether it returns or throws
-- (src/jobs/queue.ts).
use bfrost.Prelude.{
  ℕ, ◌+◌, String, true, List, [], ◌∷◌, ◌≡◌, arith, Result, ok, Bool-cases, Result-cases, subst, inl,
  inr, map, Option-cases,
}
use bfrost.Platform.{Platform, Digests}
use bfrost.Queue.Item.{QueueItem, QueueError, parse_item, text_length, item_fits}
use bfrost.Queue.Table.{QueueRow, QueueQuery, item_params}
use bfrost.Queue.Table.Laws.{Fits, delete_rows-Distinct, delete_rows-All}
use bfrost.Queue.Store.{
  Store, World, Effect, ◌>>◌, assert_queue_lock_held, add_row, insert_unless, insert_queue_item,
  upsert_loop, upsert_rows, upsert_some, upsert_queue_items, delete_selected, delete_some,
  delete_queue_items, release_lock, with_queue_lock, update_queue_items, reap_expired_queue_items,
  save_queue, load_queue_item, row_to_queue_item, existing_row, update_selected, reap, load_queue,
  invalidate_queue_read_cache, next_order, query_queue, ensure_queue_table, ensure_loaded,
  insert_row, expired_ids, order_of, upsert_row,
}
use bfrost.Queue.Store.Laws.{
  IsStore, Keeps, continue-IsStore, GoodRows, upsert-GoodRows, insert-GoodRows, invalidate-Keeps,
  ensure-Keeps, ensure_loaded-Keeps, query-Keeps, load-Keeps, save-Keeps,
}

assert-Keeps : (p : Platform) → Keeps p assert_queue_lock_held
unfolding assert_queue_lock_held
assert-Keeps p s v = elim (Bool-cases s.lock_held) [ inl e ↦ simp e v | inr e ↦ simp e v ]

-- The start of every raw writer: the lock, the cache, the table.
writer-IsStore :
    {B : Type 0} (p : Platform) (d : Digests p text_length) (w : World) (s : Store) (f : Effect B)
    → IsStore p s
    → Keeps p f
    → IsStore p ((do invalidate_queue_read_cache; ensure_queue_table p; ensure_loaded p w; f) s).1
writer-IsStore p d w s f v k =
    continue-IsStore p (invalidate_queue_read_cache s) _ (invalidate-Keeps p s v) λ _ s v.
      continue-IsStore p (ensure_queue_table p s) _ (ensure-Keeps p d s v)
        λ _ s v. continue-IsStore p (ensure_loaded p w s) _ (ensure_loaded-Keeps p d w s v) (λ _. k)

parse_item-Fits :
    (p : Platform) (item parsed : QueueItem)
    → parse_item p item ≡ ok parsed
    → item_fits p parsed ≡ true
unfolding parse_item
parse_item-Fits p item parsed h = elim (Bool-cases (item_fits p item)) [
  | inl fit ↦ ground arith
  | inr no_fit ↦ ground arith
]

add_row-Keeps : (p : Platform) (item : QueueItem) → Keeps p (add_row p item)
unfolding add_row
add_row-Keeps p item s v = elim (Result-cases (parse_item p item)) [
  | inl (e, refused) ↦ simp (refused, add_row) v
  | inr (parsed, fit) ↦
      elim (Result-cases (insert_row s.rows (item_params parsed (next_order s.rows)))) [
        | inl (e, refused) ↦ simp (fit, refused, add_row) v
        | inr (rows, inserted) ↦
            let good =
              insert-GoodRows p s.rows rows parsed (next_order s.rows) (v.distinct, v.fits)
                (parse_item-Fits p item parsed fit) inserted in
            simp (fit, inserted, add_row) (record { distinct = good.0; fits = good.1 })
      ]
]

insert_unless-Keeps :
    (p : Platform) (item : QueueItem) (found : List QueueRow) → Keeps p (insert_unless p item found)
unfolding insert_unless
insert_unless-Keeps p item [] s v = add_row-Keeps p item s v
insert_unless-Keeps p item (existing ∷ rest) s v =
    continue-IsStore p (row_to_queue_item p existing, s) _ v (λ _ s v. v)

pub insert-Keeps :
    (p : Platform) (d : Digests p text_length) (w : World) (item : QueueItem)
    → Keeps p (insert_queue_item p w item)
unfolding insert_queue_item existing_row
insert-Keeps p d w item s v =
    continue-IsStore p (assert_queue_lock_held s) _ (assert-Keeps p s v)
      λ _ s v. writer-IsStore p d w s (existing_row p item) v (λ s. insert_unless-Keeps p item _ s)

upsert_loop-GoodRows :
    (p : Platform) (items : List QueueItem) (rows final : List QueueRow) (next : ℕ)
    → GoodRows p rows
    → upsert_loop p items rows next ≡ ok final
    → GoodRows p final
unfolding upsert_loop
upsert_loop-GoodRows p [] rows final next g h = subst (GoodRows p) (ground arith) g
upsert_loop-GoodRows p (candidate ∷ items) rows final next g h =
    elim (Result-cases (parse_item p candidate)) [
      | inl (e, refused) ↦ ground arith
      | inr (item, parsed) ↦
          let fit = parse_item-Fits p candidate item parsed in
          elim (Option-cases (order_of rows item.id)) [
            | inl fresh ↦
                upsert_loop-GoodRows p items (upsert_row rows (item_params item next)) final
                  (next + 1) (upsert-GoodRows p rows item next g fit) (ground arith)
            | inr (order, there) ↦
                upsert_loop-GoodRows p items (upsert_row rows (item_params item order)) final next
                  (upsert-GoodRows p rows item order g fit) (ground arith)
          ]
    ]

upsert_rows-Keeps : (p : Platform) (items : List QueueItem) → Keeps p (upsert_rows p items)
unfolding upsert_rows
upsert_rows-Keeps p items s v =
    elim (Result-cases (upsert_loop p items s.rows (next_order s.rows))) [
      | inl (e, refused) ↦ simp (refused, upsert_rows) v
      | inr (rows, written) ↦
          let good =
            upsert_loop-GoodRows p items s.rows rows (next_order s.rows) (v.distinct, v.fits)
              written in
          simp (written, upsert_rows) (record { distinct = good.0; fits = good.1 })
    ]

upsert_some-Keeps :
    (p : Platform) (d : Digests p text_length) (w : World) (items : List QueueItem)
    → Keeps p (upsert_some p w items)
unfolding upsert_some
upsert_some-Keeps p d w [] s v = v
upsert_some-Keeps p d w (item ∷ items) s v =
    writer-IsStore p d w s (upsert_rows p (item ∷ items)) v (upsert_rows-Keeps p (item ∷ items))

pub upsert-Keeps :
    (p : Platform) (d : Digests p text_length) (w : World) (items : List QueueItem)
    → Keeps p (upsert_queue_items p w items)
unfolding upsert_queue_items
upsert-Keeps p d w items s v =
    continue-IsStore p (assert_queue_lock_held s) _ (assert-Keeps p s v)
      (λ _. upsert_some-Keeps p d w items)

delete_selected-Keeps : (p : Platform) (gone : List String) → Keeps p (delete_selected gone)
unfolding delete_selected
delete_selected-Keeps p gone s v = record {
  distinct = delete_rows-Distinct s.rows gone v.distinct;
  fits = delete_rows-All (Fits p) s.rows gone v.fits;
}

delete_some-Keeps :
    (p : Platform) (d : Digests p text_length) (w : World) (gone : List String)
    → Keeps p (delete_some p w gone)
unfolding delete_some
delete_some-Keeps p d w [] s v = v
delete_some-Keeps p d w (id ∷ gone) s v =
    writer-IsStore p d w s (delete_selected (id ∷ gone)) v (delete_selected-Keeps p (id ∷ gone))

pub delete-Keeps :
    (p : Platform) (d : Digests p text_length) (w : World) (gone : List String)
    → Keeps p (delete_queue_items p w gone)
unfolding delete_queue_items
delete-Keeps p d w gone s v =
    continue-IsStore p (assert_queue_lock_held s) _ (assert-Keeps p s v)
      (λ _. delete_some-Keeps p d w gone)

release-IsStore :
    {A : Type 0} (p : Platform) (r : Result QueueError A × Store)
    → IsStore p r.1
    → IsStore p (release_lock r).1
unfolding release_lock
release-IsStore p (r, s) v = record { distinct = v.distinct; fits = v.fits }

with_queue_lock-Keeps :
    {A : Type 0} (p : Platform) (w : World) (body : Effect A)
    → Keeps p body
    → Keeps p (with_queue_lock w body)
unfolding with_queue_lock
with_queue_lock-Keeps p w body k s v = elim (Bool-cases s.lock_held) [
  | inl held ↦ simp held (k s v)
  | inr free ↦ elim (Bool-cases w.lock_granted) [
    | inl granted ↦
        simp (free, granted)
          (release-IsStore p (body (record s { lock_held = true }))
            (k (record s { lock_held = true }) (record { distinct = v.distinct; fits = v.fits })))
    | inr refused ↦ simp (free, refused) v
  ]
]

update-Keeps :
    (p : Platform) (d : Digests p text_length) (w : World) (named : List String)
    (update : QueueItem → QueueItem)
    → Keeps p (update_queue_items p w named update)
unfolding update_queue_items update_selected
update-Keeps p d w [] update s v = v
update-Keeps p d w (id ∷ named) update s v =
    with_queue_lock-Keeps p w (update_selected p w (id ∷ named) update)
      (λ s v. continue-IsStore p (query_queue p w _ s) _ (query-Keeps p d w _ s v) λ items s v.
        continue-IsStore p (upsert_queue_items p w (map update items) s) _
          (upsert-Keeps p d w (map update items) s v) (λ _ s v. v))
      s v

reap-Keeps :
    (p : Platform) (d : Digests p text_length) (w : World) (now : ℕ)
    → Keeps p (reap_expired_queue_items p w now)
unfolding reap_expired_queue_items reap
reap-Keeps p d w now = with_queue_lock-Keeps p w (reap p w now) λ s v.
    continue-IsStore p (ensure_queue_table p s) _ (ensure-Keeps p d s v) λ _ s v.
      continue-IsStore p (ensure_loaded p w s) _ (ensure_loaded-Keeps p d w s v)
        λ _ s v. delete-Keeps p d w (expired_ids p now s.rows) s v

-- A call of the module by some part of the program, with what it is given.
pub data Call : Type 0 where
  saves : List QueueItem → Call
  loads : Call
  queries : QueueQuery → Call
  loads_item : String → Call
  inserts : QueueItem → Call
  upserts : List QueueItem → Call
  deletes : List String → Call
  updates : List String → (QueueItem → QueueItem) → Call
  reaps : ℕ → Call
  invalidates : Call

-- The store after a call, whatever it returned.
abbrev pub after_call : Platform → World → Call → Store → Store
after_call p w (saves queue) s = (save_queue p queue s).1
after_call p w loads s = (load_queue p w s).1
after_call p w (queries query) s = (query_queue p w query s).1
after_call p w (loads_item id) s = (load_queue_item p w id s).1
after_call p w (inserts item) s = (with_queue_lock w (insert_queue_item p w item) s).1
after_call p w (upserts items) s = (with_queue_lock w (upsert_queue_items p w items) s).1
after_call p w (deletes gone) s = (with_queue_lock w (delete_queue_items p w gone) s).1
after_call p w (updates named update) s = (update_queue_items p w named update s).1
after_call p w (reaps now) s = (reap_expired_queue_items p w now s).1
after_call p w invalidates s = (invalidate_queue_read_cache s).1

call-IsStore :
    (p : Platform) (d : Digests p text_length) (w : World) (call : Call) (s : Store)
    → IsStore p s
    → IsStore p (after_call p w call s)
unfolding load_queue_item
call-IsStore p d w (saves queue) s v = save-Keeps p d queue s v
call-IsStore p d w loads s v = load-Keeps p d w s v
call-IsStore p d w (queries query) s v = query-Keeps p d w query s v
call-IsStore p d w (loads_item id) s v =
    continue-IsStore p (query_queue p w _ s) _ (query-Keeps p d w _ s v) (λ _ s v. v)
call-IsStore p d w (inserts item) s v = with_queue_lock-Keeps p w _ (insert-Keeps p d w item) s v
call-IsStore p d w (upserts items) s v = with_queue_lock-Keeps p w _ (upsert-Keeps p d w items) s v
call-IsStore p d w (deletes gone) s v = with_queue_lock-Keeps p w _ (delete-Keeps p d w gone) s v
call-IsStore p d w (updates named update) s v = update-Keeps p d w named update s v
call-IsStore p d w (reaps now) s v = reap-Keeps p d w now s v
call-IsStore p d w invalidates s v = invalidate-Keeps p s v

abbrev pub after_calls : Platform → World → List Call → Store → Store
after_calls p w [] s = s
after_calls p w (call ∷ calls) s = after_calls p w calls (after_call p w call s)

-- Where a digest has its length, after any sequence of calls, in any order and whatever each of
-- them returned or threw, no two rows have the same id and every row passes the schema, if that
-- held before; the migration of an old store included.
pub after_calls-IsStore :
    (p : Platform) (d : Digests p text_length) (w : World) (calls : List Call) (s : Store)
    → IsStore p s
    → IsStore p (after_calls p w calls s)
after_calls-IsStore p d w [] s v = v
after_calls-IsStore p d w (call ∷ calls) s v =
    after_calls-IsStore p d w calls (after_call p w call s) (call-IsStore p d w call s v)
