-- ===== src/Queue/Store/Reap.antt =====
-- Deletion, and the agreement of the reaper of expired rows with `pruneQueue` (src/jobs/queue.ts).
use bfrost.Prelude.{
  ℕ, ◌+◌, String, Bool, true, false, none, List, [], ◌∷◌, ◌≡◌, refl, arith, Distinct, All, ok,
  length, truthy, if◌then◌else◌, includes, ◌-◌, keep, eq_iff, ◌∙◌, ap,
}
use bfrost.Platform.{Platform}
use bfrost.Queue.Item.{QueueItem, anchor_iso, parse_raw, normalize_queue_item}
use bfrost.Queue.Dedupe.{prune_queue, is_active_at}
use bfrost.Queue.Table.{
  QueueRow, row_ids, row_at, rows_to_items, delete_rows, row_to_queue_item, raw_of_row,
}
use bfrost.Queue.Table.Laws.{Fits}
use bfrost.Queue.Table.Frame.{row_at-delete_rows, length-delete_rows-le, delete_rows-absent}
use bfrost.Queue.Store.{
  Store, World, delete_queue_items, expired_ids, reap_expired_queue_items, delete_some,
  delete_selected, reap, assert_queue_lock_held, with_queue_lock, invalidate_queue_read_cache,
  ensure_queue_table, ensure_loaded,
}
use bfrost.Queue.Store.Writers.{IsOpen, dropped}

delete-open :
    (p : Platform) (w : World) (id : String) (gone : List String) (s : Store)
    → IsOpen s
    → delete_queue_items p w (id ∷ gone) s ≡ delete_selected (id ∷ gone) (dropped s)
unfolding delete_queue_items delete_some assert_queue_lock_held invalidate_queue_read_cache
    ensure_queue_table ensure_loaded
delete-open p w id gone s o = simp (o.is_locked, o.is_ready, o.is_initialized)

pub delete_queue_items-rows :
    (p : Platform) (w : World) (id : String) (gone : List String) (s : Store)
    → IsOpen s
    → (delete_queue_items p w (id ∷ gone) s).1
      ≡ record (dropped s) { rows = delete_rows s.rows (id ∷ gone) }
unfolding delete_selected
delete_queue_items-rows p w id gone s o = ap (λ r. r.1) (delete-open p w id gone s o)

-- In a loaded store, under the lock, a deletion of at least one id removes exactly the rows with
-- the given ids, leaves every other row as it was, and returns how many rows it removed.
pub delete_queue_items-removes :
    (p : Platform) (w : World) (id : String) (gone : List String) (s : Store)
    → IsOpen s
    → (n : ℕ) × (t : Store) × (delete_queue_items p w (id ∷ gone) s ≡ (ok n, t))
      × (n + length t.rows ≡ length s.rows)
      × ((j : String)
          → row_at t.rows j ≡ (if includes (id ∷ gone) j then none else row_at s.rows j))
unfolding delete_selected
delete_queue_items-removes p w id gone s o =
    let left = delete_rows s.rows (id ∷ gone) in
    (
      length s.rows - length left,
      record (dropped s) { rows = left },
      delete-open p w id gone s o,
      omega (arith, length-delete_rows-le s.rows (id ∷ gone)),
      row_at-delete_rows s.rows (id ∷ gone),
    )

-- The rows that the reaper keeps.
abbrev active : Platform → ℕ → QueueRow → Bool
active p now row = is_active_at (p.date_parse row.state_changed_at) now

expired-absent :
    (p : Platform) (now : ℕ) (rows : List QueueRow) (id : String)
    → includes (row_ids rows) id ≡ false
    → includes (expired_ids p now rows) id ≡ false
unfolding expired_ids row_ids
expired-absent p now [] id h = refl
expired-absent p now (x ∷ rows) id h = ground (arith, expired-absent p now rows id)

delete-expired :
    (p : Platform) (now : ℕ) (rows : List QueueRow)
    → Distinct (row_ids rows)
    → delete_rows rows (expired_ids p now rows) ≡ keep (active p now) rows
unfolding expired_ids row_ids delete_rows
delete-expired p now [] d = refl
delete-expired p now (x ∷ rows) d = ground (
  arith,
  delete-expired p now rows d.1,
  expired-absent p now rows x.id,
  delete_rows-absent rows x.id (expired_ids p now rows),
  eq_iff x.id x.id,
)

keep-prune :
    (p : Platform) (now : ℕ) (rows : List QueueRow)
    → All (Fits p) rows
    → All (λ row. truthy row.state_changed_at ≡ true) rows
    → (items : List QueueItem) × (rows_to_items p rows ≡ ok items)
      × (rows_to_items p (keep (active p now) rows) ≡ ok (prune_queue p items now))
unfolding rows_to_items row_to_queue_item prune_queue parse_raw anchor_iso normalize_queue_item
keep-prune p now [] f t = ([], refl, refl)
keep-prune p now (x ∷ rows) f t =
    let (items, all_read, kept_read) = keep-prune p now rows f.1 t.1 in
    (
      normalize_queue_item p (raw_of_row x) ∷ items,
      ground (arith, all_read, f.0),
      ground (arith, kept_read, f.0, t.0),
    )

delete_rows-nil : (rows : List QueueRow) → delete_rows rows [] ≡ rows
unfolding delete_rows
delete_rows-nil [] = refl
delete_rows-nil (x ∷ rows) = rw (delete_rows-nil rows) refl

-- A deletion under the lock, of some ids or of none.
deletes :
    (p : Platform) (w : World) (gone : List String) (s : Store)
    → IsOpen s
    → (n : ℕ) × (t : Store) × (delete_queue_items p w gone s ≡ (ok n, t))
      × (t.rows ≡ delete_rows s.rows gone)
      × (n + length t.rows ≡ length s.rows)
unfolding delete_selected delete_some delete_queue_items assert_queue_lock_held
deletes p w [] s o = (0, s, simp o.is_locked, rw (delete_rows-nil s.rows) refl, omega arith)
deletes p w (id ∷ gone) s o =
    let left = delete_rows s.rows (id ∷ gone) in
    (
      length s.rows - length left,
      record (dropped s) { rows = left },
      delete-open p w id gone s o,
      refl,
      omega (arith, length-delete_rows-le s.rows (id ∷ gone)),
    )

-- In a loaded store, under the lock, whose rows are valid, have different ids and each have a text
-- for the time of their state, the reaper and `pruneQueue` agree: what a reap leaves in the table
-- reads back as what `pruneQueue` keeps of the items that were there, and it returns how many rows
-- it removed.
pub reap-prune :
    (p : Platform) (w : World) (now : ℕ) (s : Store)
    → IsOpen s
    → Distinct (row_ids s.rows)
    → All (Fits p) s.rows
    → All (λ row. truthy row.state_changed_at ≡ true) s.rows
    → (items : List QueueItem) × (n : ℕ) × (t : Store) × (rows_to_items p s.rows ≡ ok items)
      × (reap_expired_queue_items p w now s ≡ (ok n, t))
      × (rows_to_items p t.rows ≡ ok (prune_queue p items now))
      × (n + length t.rows ≡ length s.rows)
unfolding reap_expired_queue_items reap with_queue_lock ensure_queue_table ensure_loaded
reap-prune p w now s o d f t =
    let (items, all_read, kept_read) = keep-prune p now s.rows f t in
    let (n, after, done, rows, count) = deletes p w (expired_ids p now s.rows) s o in
    let left : after.rows ≡ keep (active p now) s.rows = rows ∙ delete-expired p now s.rows d in
    (
      items,
      n,
      after,
      all_read,
      simp (o.is_locked, o.is_ready, o.is_initialized, done),
      ap (rows_to_items p) left ∙ kept_read,
      count,
    )
