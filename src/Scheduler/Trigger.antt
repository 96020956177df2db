-- ===== src/Scheduler/Trigger.antt =====
-- The triggers of a job (src/scheduler.ts), up to the place where its execution is handed to the pool.
-- What the rest of the program does to the state while a trigger waits is an argument, as is the answer
-- of the worker's `hasWork`; the execution locks are those of src/scheduler-locks.ts.
pub mod Laws
mod Tests
use bfrost.Prelude.{
  ℕ, String, Bool, true, false, not, ◌||◌, Option, none, some, List, [], ◌∷◌, ◌++◌, get_or_else,
  concat_texts, if◌then◌else◌, ◌&&◌,
}
use bfrost.Platform.{Platform}
use bfrost.Locks.Execution.{LockRow, acquire_scheduler_execution_lock}
use bfrost.Runs.{RunTrigger, schedule, manual}
use bfrost.Scheduler.Runtime.{
  Job, JobRuntime, SchedulerState, JobEvent, build_job_state, mark_job_queued, record_event,
  record_no_work_skipped_run, record_busy_skipped_run,
}

-- What `hasWork` answers: the worker declares none, or it says whether work is ready, or it throws.
pub data WorkCheck : Type 0 where
  no_check ready not_ready check_failed : WorkCheck

-- How a trigger ends: another process has the slot, there is no work, the job is in the pool's queue,
-- or an error is thrown because it is queued or running already, or its worker is disabled.
pub data TriggerEnd : Type 0 where
  duplicate no_work_ready accepted busy disabled : TriggerEnd

-- A call of `runJob`, with what it reads and what happens while it waits.
pub record Call : Type 0 where
  pub known : List String
  pub platform : Platform
  pub text_lt : String → String → Bool
  pub pid : ℕ
  pub job : Job
  pub trigger : RunTrigger
  pub scheduled_at : Option String
  pub lock_already_acquired : Bool
  pub slot : String
  pub now : String
  pub run_id : Option String
  pub worker_enabled : Bool
  pub check : WorkCheck
  pub while_locking : SchedulerState → SchedulerState
  pub while_checking : SchedulerState → SchedulerState

pub is_schedule : RunTrigger → Bool
is_schedule schedule = true
is_schedule _ = false

is_manual : RunTrigger → Bool
is_manual manual = true
is_manual _ = false

unfoldable pub in_flight : String → SchedulerState → Bool
unfolding build_job_state
in_flight name st = let current = build_job_state name st in current.queued || current.running

pub scheduler_command_key : String → String
scheduler_command_key name = concat_texts ("job:" ∷ name ∷ [])

abbrev pub has_work_failed : Call → JobEvent
has_work_failed c = record {
  category = "scheduler";
  action = "has_work_failed";
  severity = some "warning";
  summary = concat_texts (c.job.label ∷ " eligibility check failed; running anyway." ∷ []);
  job = c.job.name;
}

pub should_run_job : Call → SchedulerState → Bool × SchedulerState
unfolding is_schedule
should_run_job c st = elim c.check [
  | no_check ↦ (true, st)
  | ready ↦ (true, c.while_checking st)
  | check_failed ↦ (true, record_event (has_work_failed c) (c.while_checking st))
  | not_ready ↦ (
    false,
    if is_schedule c.trigger
        then record_no_work_skipped_run c.known c.platform c.job c.now c.run_id
            (c.while_checking st)
        else c.while_checking st,
  )
]

-- A slot that finds its job in flight is recorded, and the trigger throws.
pub coalesce : Call → SchedulerState → TriggerEnd × SchedulerState
unfolding is_schedule
coalesce c st = (
  busy,
  if is_schedule c.trigger
      then record_busy_skipped_run c.platform c.job c.scheduled_at c.now c.run_id st
      else st,
)

-- The state is read again before the place in the queue is claimed.
pub claim : Call → SchedulerState → TriggerEnd × SchedulerState
unfolding in_flight coalesce
claim c st = if in_flight c.job.name st then coalesce c st else (
  accepted,
  mark_job_queued c.known c.job (build_job_state c.job.name st) c.trigger c.now st,
)

pub run_unlocked : Call → SchedulerState → TriggerEnd × SchedulerState
unfolding in_flight coalesce should_run_job claim is_manual
run_unlocked c st =
    if in_flight c.job.name st
    then coalesce c st
    else if not c.worker_enabled
    then (disabled, st)
    else if is_manual c.trigger
    then claim c st
    else let checked = should_run_job c st in
      if checked.0 then claim c checked.1 else (no_work_ready, checked.1)

-- The end of the trigger, the state, and the rows of the execution locks.
abbrev with_rows :
    List LockRow → TriggerEnd × SchedulerState → TriggerEnd × SchedulerState × List LockRow
with_rows rows r = (r.0, r.1, rows)

abbrev pub lock_slot : Call → List LockRow → Bool × List LockRow
lock_slot c rows =
    acquire_scheduler_execution_lock c.platform c.text_lt c.now c.pid
      (record {
        command_key = scheduler_command_key c.job.name;
        scheduled_at = get_or_else c.scheduled_at c.slot;
      })
      rows

abbrev pub needs_lock : Call → Bool
needs_lock c = is_schedule c.trigger && not c.lock_already_acquired

pub run_job : Call → SchedulerState → List LockRow → TriggerEnd × SchedulerState × List LockRow
unfolding run_unlocked
run_job c st rows =
    let lock = lock_slot c rows in
    if not (needs_lock c)
    then with_rows rows (run_unlocked c (c.while_locking st))
    else if lock.0
    then with_rows lock.1 (run_unlocked c (c.while_locking st))
    else (duplicate, st, lock.1)

-- The trigger of the dashboard and of the chat: neither a lock nor a look for work.
pub trigger_job_now : Call → SchedulerState → TriggerEnd × SchedulerState
unfolding in_flight
trigger_job_now c st =
    let read = c.while_locking st in
    if in_flight c.job.name read
    then (busy, read)
    else if not c.worker_enabled
    then (disabled, read)
    else (
      accepted,
      mark_job_queued c.known c.job (build_job_state c.job.name read) manual c.now read,
    )
