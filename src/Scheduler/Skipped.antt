-- ===== src/Scheduler/Skipped.antt =====
-- The slots that node-cron reports as missed or as overlapping (src/scheduler.ts). An instant is a
-- number of milliseconds; the slot that was missed and the next match of the schedule are arguments, as
-- is what happens while the settings are loaded.
mod Tests
pub mod Flags
pub mod Stuck
use bfrost.Prelude.{
  ℕ, ◌+◌, ◌-◌, ◌/◌, ◌%◌, String, Bool, true, false, not, ◌&&◌, Option, none, some, List, [], ◌∷◌,
  ltb, get_or_else, is_some, concat_texts, decimal, if◌then◌else◌,
}
use bfrost.Platform.{Platform}
use bfrost.Locks.Execution.{LockRow, acquire_scheduler_execution_lock}
use bfrost.Runs.{
  RunRecord, schedule, FinishStatus, SkipReason, overlap, record_missed_scheduled_run,
}
use bfrost.Scheduler.Windows.{is_recoverable_slot_age}
use bfrost.Scheduler.Runtime.{
  Job, JobRuntime, SchedulerState, LastStatus, build_job_state, set_runtime, persist_runtime,
  record_event, job_event, start_scheduler_run_safe, finish_scheduler_run_safe,
}
use bfrost.Scheduler.Trigger.{scheduler_command_key}

pub data Reason : Type 0 where
  missed overlapped : Reason

pub record SkippedCall : Type 0 where
  pub known : List String
  pub platform : Platform
  pub text_lt : String → String → Bool
  pub pid : ℕ
  pub job : Job
  pub reason : Reason
  pub context_date : ℕ
  pub missed_slot : Option ℕ
  pub now : ℕ
  pub run_id : Option String
  pub automatic_missed_run_recovery : Bool
  pub next_match : ℕ → Option ℕ
  pub while_loading : SchedulerState → SchedulerState

-- An event in the future is ignored, another process has the slot, a run is started in its place, or the
-- slot is recorded.
pub data SkipEnd : Type 0 where
  ignored duplicate catching_up recorded : SkipEnd

abbrev pub is_missed : Reason → Bool
is_missed missed = true
is_missed overlapped = false

-- The gap to the next slot, none where the schedule has none or it is not positive.
pub slot_interval_ms_for : (ℕ → Option ℕ) → ℕ → Option ℕ
slot_interval_ms_for next_match slot = elim (next_match slot) [
  | none ↦ none
  | some next ↦ if ltb slot next then some (next - slot) else none
]

-- `setSeconds(0, 0)`: every offset of a time zone is a number of whole minutes.
pub scheduler_slot_iso : Platform → ℕ → String
scheduler_slot_iso p date = p.to_iso (date - date % 60000)

pub slot_time : SkippedCall → ℕ
slot_time c =
    if is_missed c.reason then get_or_else c.missed_slot c.context_date else c.context_date

pub slot_age_ms : SkippedCall → ℕ
unfolding slot_time
slot_age_ms c = if is_missed c.reason then c.now - slot_time c else 0

pub skip_message : SkippedCall → String
unfolding slot_age_ms
skip_message c = concat_texts (
    c.job.label
    ∷ " "
    ∷ (if is_missed c.reason
        then concat_texts (
            "missed its scheduled execution because "
            ∷ (if ltb 90000 (slot_age_ms c)
                then concat_texts (
                    "BFrost was offline or the machine was asleep (slot is "
                    ∷ decimal ((slot_age_ms c + 30000) / 60000)
                    ∷ " min old)"
                    ∷ [])
                else "the Node event loop was briefly unavailable")
            ∷ [])
        else "was skipped because a previous execution was still running")
    ∷ "."
    ∷ [])

-- The flags are those that `buildJobState` derives.
pub skipped_runtime : SkippedCall → String → SchedulerState → JobRuntime
unfolding build_job_state
skipped_runtime c scheduled_at st = record (build_job_state c.job.name st) {
  last_started_at = some scheduled_at;
  last_finished_at = some (c.platform.to_iso c.now);
  last_status = LastStatus.skipped;
  last_summary = none;
  last_error = some (skip_message c);
  last_trigger = some schedule;
}

pub record_missed_scheduled_run_safe : SkippedCall → String → SchedulerState → SchedulerState
record_missed_scheduled_run_safe c scheduled_at st = elim c.run_id [
  | none ↦ st
  | some id ↦ record st {
    runs =
        (record_missed_scheduled_run c.platform st.runs id (record {
          job = c.job.name;
          label = c.job.label;
          model_alias = c.job.model_alias;
          scheduled_at = scheduled_at;
          recorded_at = c.platform.to_iso c.now;
          error = skip_message c;
        })).1;
  }
]

pub record_overlapped_run : SkippedCall → String → SchedulerState → SchedulerState
unfolding start_scheduler_run_safe finish_scheduler_run_safe
record_overlapped_run c scheduled_at st =
    finish_scheduler_run_safe c.platform c.run_id
      (record {
        finished_at = c.platform.to_iso c.now;
        status = FinishStatus.skipped;
        summary = none;
        error = some (skip_message c);
        item_count = none;
        skip_reason = some overlap;
      })
      (start_scheduler_run_safe c.platform c.run_id c.job schedule scheduled_at st)

pub record_slot : SkippedCall → String → SchedulerState → SchedulerState
unfolding skipped_runtime record_missed_scheduled_run_safe record_overlapped_run persist_runtime
record_slot c scheduled_at st =
    let marked = set_runtime c.job.name (skipped_runtime c scheduled_at st) st in
    persist_runtime c.known (
      if is_missed c.reason
      then record_missed_scheduled_run_safe c scheduled_at marked
      else record_overlapped_run c scheduled_at marked)

abbrev pub is_future : SkippedCall → Bool
is_future c = is_missed c.reason && (not (is_some c.missed_slot) && ltb c.now c.context_date)

abbrev pub recovers : SkippedCall → Bool
recovers c =
    is_missed c.reason
    && (c.automatic_missed_run_recovery
        && is_recoverable_slot_age (slot_age_ms c)
            (slot_interval_ms_for c.next_match (slot_time c)))

abbrev pub log_skip : SkippedCall → SchedulerState → SchedulerState
log_skip c = record_event (
    job_event c.job (if is_missed c.reason then "missed" else "overlap_skipped") (some "warning")
      (skip_message c ∷ []))

pub record_skipped_schedule_execution :
    SkippedCall → SchedulerState → List LockRow → SkipEnd × SchedulerState × List LockRow
unfolding record_slot slot_interval_ms_for scheduler_slot_iso slot_time skip_message
record_skipped_schedule_execution c st rows =
    let scheduled_at = scheduler_slot_iso c.platform (slot_time c) in
    let lock =
      acquire_scheduler_execution_lock c.platform c.text_lt (c.platform.to_iso c.now) c.pid
        (record { command_key = scheduler_command_key c.job.name; scheduled_at = scheduled_at })
        rows in
    let logged = c.while_loading (log_skip c st) in
    if is_future c
    then (ignored, st, rows)
    else if not lock.0
    then (duplicate, st, lock.1)
    else if recovers c
    then (catching_up, logged, lock.1)
    else (recorded, record_slot c scheduled_at logged, lock.1)
