-- ===== src/Locks/Execution/Laws.antt =====
-- A command runs once for each of its slots (src/scheduler-locks.ts).
use bfrost.Prelude.{
  ℕ, String, Bool, true, false, not, List, [], ◌∷◌, ◌++◌, ◌≡◌, inl, inr, refl, arith, ap, ◌∙◌, keep,
  find, str_eq, eq_iff, is_some, Bool-cases, ◌&&◌, ◌||◌,
}
use bfrost.Platform.{Platform}
use bfrost.Locks.Execution.{
  LockRow, lock_row, SchedulerExecutionLockInput, acquire_scheduler_execution_lock,
  insert_or_ignore, prune_scheduler_execution_locks, scheduler_execution_lock_key, cutoff_at,
}

-- Some row has a key and a slot.
abbrev pub holds_lock : String → String → List LockRow → Bool
holds_lock key slot [] = false
holds_lock key slot (row ∷ rows) =
    (str_eq row.lock_key key && str_eq row.scheduled_at slot) || holds_lock key slot rows

holds_lock-append :
    (key slot : String) (rows more : List LockRow)
    → holds_lock key slot (rows ++ more) ≡ (holds_lock key slot rows || holds_lock key slot more)
holds_lock-append key slot [] more = refl
holds_lock-append key slot (row ∷ rows) more = ground (arith, holds_lock-append key slot rows more)

holds_lock-find :
    (key slot : String) (rows : List LockRow)
    → holds_lock key slot rows ≡ true
    → is_some (find (λ old. str_eq old.lock_key key) rows) ≡ true
holds_lock-find key slot [] h = cc
holds_lock-find key slot (row ∷ rows) h = ground (arith, holds_lock-find key slot rows)

holds_lock-keep :
    (key slot : String) (late : String → Bool) (rows : List LockRow)
    → late slot ≡ false
    → holds_lock key slot rows ≡ true
    → holds_lock key slot (keep (λ row. not (late row.scheduled_at)) rows) ≡ true
holds_lock-keep key slot late [] l h = cc
holds_lock-keep key slot late (row ∷ rows) l h = elim (Bool-cases (str_eq row.scheduled_at slot)) [
  | inl e ↦
      let same : late row.scheduled_at ≡ false = ap late ((eq_iff row.scheduled_at slot).0 e) ∙ l in
      ground (arith, same, holds_lock-keep key slot late rows l, e)
  | inr e ↦ ground (arith, e, holds_lock-keep key slot late rows l)
]

insert_or_ignore-holds :
    (row : LockRow) (rows : List LockRow)
    → (insert_or_ignore row rows).0 ≡ true
    → holds_lock row.lock_key row.scheduled_at (insert_or_ignore row rows).1 ≡ true
unfolding insert_or_ignore
insert_or_ignore-holds row rows h =
    elim (Bool-cases (is_some (find (λ old. str_eq old.lock_key row.lock_key) rows))) [
      | inl e ↦
          let refused : (insert_or_ignore row rows).0 ≡ false = rw (insert_or_ignore, e) refl in cc
      | inr e ↦
          rw (insert_or_ignore, e)
            (holds_lock-append row.lock_key row.scheduled_at rows (row ∷ [])
              ∙ ground (
                arith,
                eq_iff row.lock_key row.lock_key,
                eq_iff row.scheduled_at row.scheduled_at,
              ))
    ]

insert_or_ignore-refuses :
    (row : LockRow) (rows : List LockRow) (slot : String)
    → holds_lock row.lock_key slot rows ≡ true
    → insert_or_ignore row rows ≡ (false, rows)
unfolding insert_or_ignore
insert_or_ignore-refuses row rows slot h =
    let found = holds_lock-find row.lock_key slot rows h in rw (insert_or_ignore, found) refl

-- After a call that took the lock of a command and a slot, a call for the same two is refused, by
-- whichever process and at whichever time at which the slot is not yet older than the retention.
pub acquire-once :
    (p : Platform) (text_lt : String → String → Bool) (first second : String) (pid other_pid : ℕ)
    (input : SchedulerExecutionLockInput) (rows : List LockRow)
    → (acquire_scheduler_execution_lock p text_lt first pid input rows).0 ≡ true
    → text_lt input.scheduled_at (cutoff_at p second) ≡ false
    → (acquire_scheduler_execution_lock p text_lt second other_pid input
        (acquire_scheduler_execution_lock p text_lt first pid input rows).1).0
      ≡ false
unfolding acquire_scheduler_execution_lock prune_scheduler_execution_locks
acquire-once p text_lt first second pid other_pid input rows h l =
    let key = scheduler_execution_lock_key input.command_key input.scheduled_at in
    let after = (acquire_scheduler_execution_lock p text_lt first pid input rows).1 in
    let held : holds_lock key input.scheduled_at after ≡ true =
      insert_or_ignore-holds (lock_row first pid input)
        (prune_scheduler_execution_locks p text_lt first rows) h in
    let stays =
      holds_lock-keep key input.scheduled_at (λ slot. text_lt slot (cutoff_at p second)) after l
        held in
    ap (λ taken. taken.0)
      (insert_or_ignore-refuses (lock_row second other_pid input)
        (prune_scheduler_execution_locks p text_lt second after) input.scheduled_at stays)
