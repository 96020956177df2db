-- ===== src/Bus/Publish/Laws.antt =====
-- Publication: exactly one row and one event for a new id, nothing for a replay, and an error for a
-- collision (src/jobs/item-bus.ts, publishItem).
use bfrost.Prelude.{
  String, true, false, Option, none, some, [], ◌∷◌, ◌++◌, ◌≡◌, ◌⊎◌, refl, arith, ok, err, Distinct,
  ◌↔◌, Option-cases, if◌then◌else◌, ap, inl, eq_iff, Bool-cases, inr, ◌∙◌,
}
use bfrost.Platform.{Platform}
use bfrost.Queue.Item.{QueueItem, item_fits, parse_item, normalize_queue_item, id_collision}
use bfrost.Queue.Table.{QueueRow, row_ids, row_at, row_to_queue_item, item_params, next_order}
use bfrost.Queue.Store.Laws.{IsStore}
use bfrost.Queue.Table.Frame.{row_item, row_at-reads}
use bfrost.Queue.Store.{Store, World, with_queue_lock}
use bfrost.Queue.Store.Writers.{IsOpen, dropped, insert_new, insert_existing}
use bfrost.Bus.Publish.{
  PublishItemInput, build_item_draft, publish_item, same_owner, is_text, event_of,
  create_queue_item, check_owner, emit,
}

-- A store that is ready, and whose lock is free to take.
pub record IsIdle (w : World) (s : Store) : Type 0 where
  pub is_ready : s.ready ≡ true
  pub is_initialized : s.initialized ≡ true
  pub is_free : s.lock_held ≡ false
  pub is_granted : w.lock_granted ≡ true

-- The item that the input describes.
abbrev pub drafted : Platform → PublishItemInput → String → QueueItem
drafted p input now_iso = normalize_queue_item p (build_item_draft input now_iso)

abbrev locked : Store → Store
locked s = record s { lock_held = true }

-- The stored item belongs to the publisher: its owner and its type are the input's.
abbrev pub Owned : QueueItem → PublishItemInput → Type 0
Owned item input =
    (item.producer_worker_id ≡ some input.producer_worker_id)
    × (item.item_type ≡ some input.item_type)

is_text_iff : (o : Option String) (s : String) → (is_text o s ≡ true) ↔ (o ≡ some s)
unfolding is_text
is_text_iff none s = (λ h. cc, λ h. cc)
is_text_iff (some t) s = (λ h. ap some ((eq_iff t s).0 h), λ h. (eq_iff t s).1 (ground arith))

same_owner_iff :
    (item : QueueItem) (input : PublishItemInput)
    → (same_owner item input ≡ true) ↔ Owned item input
unfolding same_owner
same_owner_iff item input =
    let owner = is_text_iff item.producer_worker_id input.producer_worker_id in
    let kind = is_text_iff item.item_type input.item_type in
    (
      λ h. (owner.0 (ground arith), kind.0 (ground arith)),
      λ h. ground (arith, owner.1 h.0, kind.1 h.1),
    )

-- The store after a publication that wrote nothing.
abbrev pub untouched : Store → Store
untouched s = record (dropped s) { lock_held = false }

idle-IsOpen : (w : World) (s : Store) → IsIdle w s → IsOpen (locked s)
idle-IsOpen w s idle = record {
  is_ready = idle.is_ready;
  is_initialized = idle.is_initialized;
  is_locked = refl;
}

publish_new :
    (p : Platform) (w : World) (input : PublishItemInput) (now_iso : String) (s : Store)
    → IsIdle w s
    → Distinct (row_ids s.rows)
    → item_fits p (drafted p input now_iso) ≡ true
    → row_at s.rows (drafted p input now_iso).id ≡ none
    → publish_item p w input now_iso s ≡ (
      ok (
        drafted p input now_iso,
        record {
          item_type = input.item_type;
          producer_worker_id = input.producer_worker_id;
          state = (drafted p input now_iso).state;
        }
            ∷ [],
      ),
      record (untouched s) {
        rows = s.rows ++ item_params (drafted p input now_iso) (next_order s.rows) ∷ [];
      },
    )
unfolding publish_item with_queue_lock parse_item event_of
publish_new p w input now_iso s idle d fit absent =
    let inserted =
      insert_new p w (drafted p input now_iso) (locked s) (idle-IsOpen w s idle) d fit absent in
    simp (idle.is_free, idle.is_granted, create_queue_item, fit, inserted, check_owner, emit)

publish_replay :
    (p : Platform) (w : World) (input : PublishItemInput) (now_iso : String) (s : Store)
    (row : QueueRow) (found : QueueItem)
    → IsIdle w s
    → Distinct (row_ids s.rows)
    → item_fits p (drafted p input now_iso) ≡ true
    → row_at s.rows (drafted p input now_iso).id ≡ some row
    → row_to_queue_item p row ≡ ok found
    → publish_item p w input now_iso s
      ≡ (if same_owner found input then ok (found, []) else err id_collision, untouched s)
unfolding publish_item with_queue_lock parse_item
publish_replay p w input now_iso s row found idle d fit there read =
    let refused =
      insert_existing p w (drafted p input now_iso) (locked s) row (idle-IsOpen w s idle) d there in
    elim (Bool-cases (same_owner found input)) [
      | inl e ↦ simp (
        idle.is_free, idle.is_granted, create_queue_item, fit, refused, read, check_owner, emit, e,
      )
      | inr e ↦ simp (
        idle.is_free, idle.is_granted, create_queue_item, fit, refused, read, check_owner, emit, e,
      )
    ]

-- A publication of an item that fits the schema, into a loaded store whose rows are valid, by a
-- caller that does not hold the lock and is granted it, has three outcomes, told apart by the row
-- with its id. No such row: the item is stored behind all others, and one event is emitted, with
-- its type, producer and state. A row of the same producer and type: the stored item is returned,
-- the rows stay, and no event is emitted. A row of another producer or type: the call throws, and
-- the rows stay.
pub publish_cases :
    (p : Platform) (w : World) (input : PublishItemInput) (now_iso : String) (s : Store)
    → IsIdle w s
    → IsStore p s
    → item_fits p (drafted p input now_iso) ≡ true
    → let item = drafted p input now_iso in
      ((row_at s.rows item.id ≡ none)
        × (publish_item p w input now_iso s ≡ (
          ok (
            item,
            record {
              item_type = input.item_type;
              producer_worker_id = input.producer_worker_id;
              state = item.state;
            }
                ∷ [],
          ),
          record (untouched s) { rows = s.rows ++ item_params item (next_order s.rows) ∷ [] },
        )))
      ⊎ ((row : QueueRow) × (row_at s.rows item.id ≡ some row)
          × ((Owned (row_item row) input
                × (publish_item p w input now_iso s ≡ (ok (row_item row, []), untouched s)))
              ⊎ ((¬ Owned (row_item row) input)
                  × (publish_item p w input now_iso s ≡ (err id_collision, untouched s)))))
publish_cases p w input now_iso s idle v fit =
    elim (Option-cases (row_at s.rows (drafted p input now_iso).id)) [
      | inl absent ↦ inl (absent, publish_new p w input now_iso s idle v.distinct fit absent)
      | inr (row, there) ↦
          let read = row_at-reads p s.rows (drafted p input now_iso).id row v.fits there in
          let outcome =
            publish_replay p w input now_iso s row (row_item row) idle v.distinct fit there read in
          elim (Bool-cases (same_owner (row_item row) input)) [
            | inl e ↦
                inr
                  (row, there, inl ((same_owner_iff (row_item row) input).0 e, outcome ∙ rw e refl))
            | inr e ↦ inr (
              row,
              there,
              inr (λ o. cc (e, (same_owner_iff (row_item row) input).1 o), outcome ∙ rw e refl),
            )
          ]
    ]
