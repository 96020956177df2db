-- ===== src/Locks/Execution.antt =====
-- The execution locks of the scheduler (src/scheduler-locks.ts). The table is the list of its rows, and
-- `<` on its texts is the order of SQLite's, a parameter; a time is an argument as the source's ISO text.
pub mod Laws
use bfrost.Prelude.{
  ℕ, ◌-◌, String, Bool, true, false, not, Option, none, some, List, [], ◌∷◌, ◌++◌, keep, find,
  str_eq, concat_texts, is_some, if◌then◌else◌, get_or_else,
}
use bfrost.Platform.{Platform}

abbrev pub lock_retention_ms : ℕ
lock_retention_ms = 1209600000

pub record SchedulerExecutionLockInput : Type 0 where
  pub command_key : String
  pub scheduled_at : String

pub record LockRow : Type 0 where
  pub lock_key : String
  pub command_key : String
  pub scheduled_at : String
  pub acquired_at : String
  pub owner_pid : ℕ

pub scheduler_execution_lock_key : String → String → String
scheduler_execution_lock_key command_key scheduled_at =
    concat_texts (command_key ∷ "@" ∷ scheduled_at ∷ [])

-- `new Date(Date.parse(nowIso) - LOCK_RETENTION_MS).toISOString()`, at a time that parses.
pub cutoff_at : Platform → String → String
cutoff_at p now_iso = p.to_iso (get_or_else (p.date_parse now_iso) 0 - lock_retention_ms)

unfoldable pub prune_scheduler_execution_locks :
    Platform → (String → String → Bool) → String → List LockRow → List LockRow
unfolding cutoff_at
prune_scheduler_execution_locks p text_lt now_iso rows =
    keep (λ row. not (text_lt row.scheduled_at (cutoff_at p now_iso))) rows

-- `INSERT OR IGNORE`: does it insert, and the rows after it.
unfoldable pub insert_or_ignore : LockRow → List LockRow → Bool × List LockRow
insert_or_ignore row rows =
    if is_some (find (λ old. str_eq old.lock_key row.lock_key) rows)
    then (false, rows)
    else (true, rows ++ row ∷ [])

-- The row of a call.
abbrev pub lock_row : String → ℕ → SchedulerExecutionLockInput → LockRow
lock_row now_iso pid input = record {
  lock_key = scheduler_execution_lock_key input.command_key input.scheduled_at;
  command_key = input.command_key;
  scheduled_at = input.scheduled_at;
  acquired_at = now_iso;
  owner_pid = pid;
}

unfoldable pub acquire_scheduler_execution_lock :
    Platform
    → (String → String → Bool)
    → String
    → ℕ
    → SchedulerExecutionLockInput
    → List LockRow
    → Bool × List LockRow
unfolding scheduler_execution_lock_key prune_scheduler_execution_locks insert_or_ignore
acquire_scheduler_execution_lock p text_lt now_iso pid input rows =
    insert_or_ignore (lock_row now_iso pid input)
      (prune_scheduler_execution_locks p text_lt now_iso rows)
