-- ===== src/Queue/Store/Laws.antt =====
-- The invariant of the stored queue, kept by every operation whatever it returns, and the lock that
-- guards the raw writers (src/jobs/queue.ts).
use bfrost.Prelude.{
  ℕ, ◌+◌, true, List, [], ◌∷◌, ◌≡◌, refl, arith, Distinct, All, Result, ok, err, all, map_result,
  Result-cases, inl, map, inr, Bool-cases, Option-cases, subst, lookup,
}
use bfrost.Queue.Item.Laws.{item_fits-normalize}
use bfrost.Queue.Dedupe.Laws.{item_fits-dedupe}
use bfrost.Platform.{Platform, Digests}
use bfrost.Queue.Item.{
  QueueItem, RawQueueItem, QueueError, normalize_queue_item, item_fits, text_length, parse_raw,
  normalize_queue_item, parse_items, raw_fits,
}
use bfrost.Queue.Table.{QueueRow, QueueQuery, row_ids, item_params}
use bfrost.Queue.Table.Laws.{
  empty-Distinct, Fits, upsert_row-Distinct, insert_row-Distinct, upsert_row-All, insert_row-All,
  item_params-Fits,
}
use bfrost.Queue.Store.{
  Store, World, Effect, continue, upsert_indexed, upsert_row, insert_row, normalize_stored_queue,
  migrate_legacy, ensure_queue_table, dedupe_queue_by_id, insert_indexed, replace_rows,
  invalidate_queue_read_cache, queue_store_key, save_queue, save_and_return, or_unreadable,
  load_queue_file, load_legacy, select_items, load_queue, normalized_queue, FileRead, first_legacy,
  load_initialized, ensure_loaded, query_queue,
}

-- One row for each id, and rows that the schema accepts.
pub record IsStore (p : Platform) (s : Store) : Type 0 where
  pub distinct : Distinct (row_ids s.rows)
  pub fits : All (Fits p) s.rows

-- An effect that keeps the invariant, whether it returns or throws.
abbrev pub Keeps : Platform → {A : Type 0} → Effect A → Type 0
Keeps p m = (s : Store) → IsStore p s → IsStore p (m s).1

pub continue-IsStore :
    {A B : Type 0} (p : Platform) (r : Result QueueError A × Store) (f : A → Effect B)
    → IsStore p r.1
    → ((a : A) → Keeps p (f a))
    → IsStore p (continue r f).1
continue-IsStore p (ok a, s) f v k = k a s v
continue-IsStore p (err e, s) f v k = v

-- A part of the store other than the rows does not matter to the invariant.
same_rows-IsStore : (p : Platform) (s t : Store) → t.rows ≡ s.rows → IsStore p s → IsStore p t
same_rows-IsStore p s t e v = record { distinct = rw e v.distinct; fits = rw e v.fits }

-- Rows that an item of the schema is written to.
abbrev pub GoodRows : Platform → List QueueRow → Type 0
GoodRows p rows = Distinct (row_ids rows) × All (Fits p) rows

pub upsert-GoodRows :
    (p : Platform) (rows : List QueueRow) (item : QueueItem) (n : ℕ)
    → GoodRows p rows
    → item_fits p item ≡ true
    → GoodRows p (upsert_row rows (item_params item n))
upsert-GoodRows p rows item n g h = (
  upsert_row-Distinct rows (item_params item n) g.0,
  upsert_row-All (Fits p) rows (item_params item n) g.1 (item_params-Fits p item n h),
)

upsert_indexed-GoodRows :
    (p : Platform) (rows : List QueueRow) (items : List QueueItem) (n : ℕ)
    → GoodRows p rows
    → all (item_fits p) items ≡ true
    → GoodRows p (upsert_indexed rows items n)
unfolding upsert_indexed
upsert_indexed-GoodRows p rows [] n g h = g
upsert_indexed-GoodRows p rows (item ∷ items) n g h =
    upsert_indexed-GoodRows p (upsert_row rows (item_params item n)) items (n + 1)
      (upsert-GoodRows p rows item n g (ground arith)) (ground arith)

pub insert-GoodRows :
    (p : Platform) (rows next : List QueueRow) (item : QueueItem) (n : ℕ)
    → GoodRows p rows
    → item_fits p item ≡ true
    → insert_row rows (item_params item n) ≡ ok next
    → GoodRows p next
insert-GoodRows p rows next item n g h e = (
  insert_row-Distinct rows next _ g.0 e,
  insert_row-All (Fits p) rows next _ g.1 (item_params-Fits p item n h) e,
)

parsed_raws :
    (p : Platform) (d : Digests p text_length) (stored raws : List RawQueueItem)
    → map_result (parse_raw p) stored ≡ ok raws
    → all (item_fits p) (map (normalize_queue_item p) raws) ≡ true
unfolding parse_raw
parsed_raws p d [] raws h = ground arith
parsed_raws p d (x ∷ stored) raws h = elim (Bool-cases (raw_fits p x)) [
  | inr no_fit ↦ ground arith
  | inl fit ↦ elim (Result-cases (map_result (parse_raw p) stored)) [
    | inl (e, refused) ↦ ground arith
    | inr (rest, parsed) ↦
        let whole : x ∷ rest ≡ raws = ground arith in
        rw (← whole)
          (ground (arith, item_fits-normalize p d x fit, parsed_raws p d stored rest parsed))
  ]
]

normalize_stored-fits :
    (p : Platform) (d : Digests p text_length) (stored : List RawQueueItem) (items : List QueueItem)
    → normalize_stored_queue p stored ≡ ok items
    → all (item_fits p) items ≡ true
unfolding normalize_stored_queue
normalize_stored-fits p d stored items h = elim (Result-cases (map_result (parse_raw p) stored)) [
  | inl (e, refused) ↦ ground arith
  | inr (raws, parsed) ↦
      let whole : map (normalize_queue_item p) raws ≡ items = ground arith in
      rw (← whole) (parsed_raws p d stored raws parsed)
]

migrate-Keeps :
    (p : Platform) (d : Digests p text_length) (legacy : List RawQueueItem)
    → Keeps p (migrate_legacy p legacy)
unfolding migrate_legacy
migrate-Keeps p d legacy s v = elim (Result-cases (normalize_stored_queue p legacy)) [
  | inl (e, h) ↦ rw (h, migrate_legacy) v
  | inr (items, h) ↦
      let good =
        upsert_indexed-GoodRows p s.rows (dedupe_queue_by_id p items) 0 (v.distinct, v.fits)
          (item_fits-dedupe p items (normalize_stored-fits p d legacy items h)) in
      rw (h, migrate_legacy) (record { distinct = good.0; fits = good.1 })
]

pub ensure-Keeps : (p : Platform) (d : Digests p text_length) → Keeps p (ensure_queue_table p)
unfolding ensure_queue_table
ensure-Keeps p d s v = elim (Bool-cases s.ready) [
  | inl e ↦ simp e v
  | inr e ↦ elim (Option-cases (lookup queue_store_key s.app_kv)) [
    | inl h ↦ simp (e, h, ensure_queue_table) (record { distinct = v.distinct; fits = v.fits })
    | inr (legacy, h) ↦ simp (e, h, ensure_queue_table) (migrate-Keeps p d legacy s v)
  ]
]

insert_indexed-GoodRows :
    (p : Platform) (rows next : List QueueRow) (items : List QueueItem) (n : ℕ)
    → GoodRows p rows
    → all (item_fits p) items ≡ true
    → insert_indexed rows items n ≡ ok next
    → GoodRows p next
unfolding insert_indexed
insert_indexed-GoodRows p rows next [] n g h e = subst (GoodRows p) (ground arith) g
insert_indexed-GoodRows p rows next (item ∷ items) n g h e =
    elim (Result-cases (insert_row rows (item_params item n))) [
      | inl (x, refused) ↦ ground arith
      | inr (more, inserted) ↦
          insert_indexed-GoodRows p more next items (n + 1)
            (insert-GoodRows p rows more item n g (ground arith) inserted) (ground arith)
            (ground arith)
    ]

replace-Keeps :
    (p : Platform) (items : List QueueItem)
    → all (item_fits p) items ≡ true
    → Keeps p (replace_rows items)
unfolding replace_rows
replace-Keeps p items h s v = elim (Result-cases (insert_indexed [] items 0)) [
  | inl (e, refused) ↦ rw (refused, replace_rows) v
  | inr (rows, inserted) ↦
      let good = insert_indexed-GoodRows p [] rows items 0 (empty-Distinct, tt) h inserted in
      rw (inserted, replace_rows) (record { distinct = good.0; fits = good.1 })
]

pub invalidate-Keeps : (p : Platform) → Keeps p invalidate_queue_read_cache
unfolding invalidate_queue_read_cache
invalidate-Keeps p s v = record { distinct = v.distinct; fits = v.fits }

parse_items-Fits :
    (p : Platform) (items parsed : List QueueItem)
    → parse_items p items ≡ ok parsed
    → all (item_fits p) parsed ≡ true
unfolding parse_items
parse_items-Fits p items parsed h = elim (Bool-cases (all (item_fits p) items)) [
  | inl fit ↦ ground arith
  | inr no_fit ↦ ground arith
]

parsed-IsStore :
    {B : Type 0} (p : Platform) (items : List QueueItem) (s : Store) (f : List QueueItem → Effect B)
    → IsStore p s
    → ((parsed : List QueueItem) → all (item_fits p) parsed ≡ true → Keeps p (f parsed))
    → IsStore p (continue (parse_items p items, s) f).1
parsed-IsStore p items s f v k = elim (Result-cases (parse_items p items)) [
  | inl (e, refused) ↦ rw refused v
  | inr (parsed, fit) ↦ rw fit (k parsed (parse_items-Fits p items parsed fit) s v)
]

pub save-Keeps :
    (p : Platform) (d : Digests p text_length) (queue : List QueueItem)
    → Keeps p (save_queue p queue)
unfolding save_queue
save-Keeps p d queue s v =
    continue-IsStore p (invalidate_queue_read_cache s) _ (invalidate-Keeps p s v) λ _ s v.
      parsed-IsStore p (normalized_queue p queue) s _ v λ items fit s v.
        continue-IsStore p (ensure_queue_table p s) _ (ensure-Keeps p d s v)
          (λ _. replace-Keeps p items fit)

save_and_return-Keeps :
    (p : Platform) (d : Digests p text_length) (queue : List QueueItem)
    → Keeps p (save_and_return p queue)
unfolding save_and_return
save_and_return-Keeps p d queue s v =
    continue-IsStore p (save_queue p queue s) _ (save-Keeps p d queue s v) (λ _ s v. v)

or_unreadable-IsStore :
    {A : Type 0} (p : Platform) (r : Result QueueError A × Store)
    → IsStore p r.1
    → IsStore p (or_unreadable r).1
or_unreadable-IsStore p (ok a, s) v = v
or_unreadable-IsStore p (err e, s) v = v

-- What an old store holds, saved and returned.
saved-IsStore :
    (p : Platform) (d : Digests p text_length) (stored : List RawQueueItem) (s : Store)
    → IsStore p s
    → IsStore p (continue (normalize_stored_queue p stored, s) (save_and_return p)).1
saved-IsStore p d stored s v =
    continue-IsStore p (normalize_stored_queue p stored, s) (save_and_return p) v
      (save_and_return-Keeps p d)

load_queue_file-Keeps :
    (p : Platform) (d : Digests p text_length) (w : World) → Keeps p (load_queue_file p w)
unfolding load_queue_file
load_queue_file-Keeps p d w s v = read w.queue_file refl
  where
    read : (file : FileRead) → w.queue_file ≡ file → IsStore p (load_queue_file p w s).1
    read (FileRead.content stored) e =
        rw (e, load_queue_file) (or_unreadable-IsStore p _ (saved-IsStore p d stored s v))
    read FileRead.unreadable e = rw (e, load_queue_file) v
    read FileRead.missing e = rw (e, load_queue_file) (save_and_return-Keeps p d _ s v)

load_legacy-Keeps :
    (p : Platform) (d : Digests p text_length) (w : World) → Keeps p (load_legacy p w)
unfolding load_legacy
load_legacy-Keeps p d w s v = elim (Option-cases (first_legacy s.app_kv)) [
  | inl h ↦ rw (h, load_legacy) (load_queue_file-Keeps p d w s v)
  | inr (stored, h) ↦ rw (h, load_legacy) (saved-IsStore p d stored s v)
]

select-Keeps : (p : Platform) (query : QueueQuery) → Keeps p (select_items p query)
unfolding select_items
select-Keeps p query s v = v

pub load-Keeps : (p : Platform) (d : Digests p text_length) (w : World) → Keeps p (load_queue p w)
unfolding load_queue
load-Keeps p d w s v =
    continue-IsStore p (ensure_queue_table p s) _ (ensure-Keeps p d s v) (λ _. initialized-Keeps)
  where
    initialized-Keeps : Keeps p (load_initialized p w)
    initialized-Keeps s v = elim (Bool-cases s.initialized) [
      | inl e ↦ simp (e, load_initialized) v
      | inr e ↦ simp (e, load_initialized) (load_legacy-Keeps p d w s v)
    ]

pub ensure_loaded-Keeps :
    (p : Platform) (d : Digests p text_length) (w : World) → Keeps p (ensure_loaded p w)
unfolding ensure_loaded
ensure_loaded-Keeps p d w s v = elim (Bool-cases s.initialized) [
  | inl e ↦ simp (e, ensure_loaded) v
  | inr e ↦
      simp (e, ensure_loaded)
        (continue-IsStore p (load_queue p w s) _ (load-Keeps p d w s v) (λ _ s v. v))
]

pub query-Keeps :
    (p : Platform) (d : Digests p text_length) (w : World) (query : QueueQuery)
    → Keeps p (query_queue p w query)
unfolding query_queue
query-Keeps p d w query s v =
    continue-IsStore p (ensure_queue_table p s) _ (ensure-Keeps p d s v) λ _ s v.
      continue-IsStore p (ensure_loaded p w s) _ (ensure_loaded-Keeps p d w s v)
        (λ _. select-Keeps p query)
