-- ===== src/Locks/Tests.antt =====
-- The laws of the locks at an empty table, and at one that a dead process left.
use bfrost.Prelude.{String, Bool, true, false, some, [], ◌≡◌, ◌⊎◌, refl, str_eq, ◌&&◌}
use bfrost.Examples.{clock}
use bfrost.Locks.Execution.{
  SchedulerExecutionLockInput, acquire_scheduler_execution_lock, insert_or_ignore,
  prune_scheduler_execution_locks,
}
use bfrost.Locks.Execution.Laws.{acquire-once}
use bfrost.Locks.Runtime.{Process, RuntimeLockRow, Others, inserting, acquire_runtime_lock}
use bfrost.Locks.Runtime.Laws.{
  Start, IsTaken, IsOvertaken, IsFree, IsRefused, acquire_runtime_lock-cases,
}

abbrev slot : SchedulerExecutionLockInput
slot = record { command_key = "digest"; scheduled_at = "2026-01-02" }

-- The order of the few texts in use.
abbrev text_lt : String → String → Bool
text_lt a b = str_eq a "2026-01-01" && str_eq b "2026-01-02"

first_taken : (acquire_scheduler_execution_lock clock text_lt "2026-01-02" 7 slot []).0 ≡ true
unfolding acquire_scheduler_execution_lock insert_or_ignore prune_scheduler_execution_locks
first_taken = refl

once_example :
    (acquire_scheduler_execution_lock clock text_lt "2026-01-03" 8 slot
      (acquire_scheduler_execution_lock clock text_lt "2026-01-02" 7 slot []).1).0
    ≡ false
once_example = acquire-once clock text_lt "2026-01-02" "2026-01-03" 7 8 slot [] first_taken refl

abbrev backend : Process
backend = record {
  pid = 8;
  host = "h";
  cwd = "/";
  command = "node";
  owns_runtime_lock = false;
  heartbeat = false;
}

abbrev left_row : RuntimeLockRow
left_row = record {
  owner_pid = 7;
  acquired_at = "2026-01-01";
  heartbeat_at = "2026-01-01";
  host = "h";
  cwd = "/";
  command = "node";
}

-- A process with the id 9 starts while this one deletes the row of a dead process.
abbrev rival : Others
rival inserting _ = some (record left_row { owner_pid = 9 })
rival _ table = table

abbrev start : Start
start =
    acquire_runtime_lock (λ pid. false) rival (λ statement. "2026-01-02") backend (some left_row)

runtime_example :
    ((IsTaken rival backend (some left_row) start ⊎ IsOvertaken rival backend (some left_row) start)
      × IsFree (λ pid. false) rival backend (some left_row))
    ⊎ IsRefused (λ pid. false) rival backend (some left_row) start
runtime_example =
    acquire_runtime_lock-cases (λ pid. false) rival (λ statement. "2026-01-02") backend
      (some left_row)
