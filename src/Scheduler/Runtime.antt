-- ===== src/Scheduler/Runtime.antt =====
-- The state that the scheduler keeps of each job (src/scheduler.ts): `runtimeCache`, `abandonedJobRuns`,
-- the stored copy of the cache, the run store and the event log. Of a job's state only the fields that
-- the cache carries from one run to the next are here; the others come from the settings and the worker.
-- A time and a random id are arguments; an id is none where storing the start of a run failed, and the
-- later writes to the run store succeed.
pub mod Laws
pub mod Events
pub mod Flags
mod Tests
use bfrost.Prelude.{
  ℕ, String, Bool, true, false, not, ◌||◌, Option, none, some, List, [], ◌∷◌, ◌++◌, includes,
  get_or_else, or_else, lookup, insert, keep, str_eq, concat_texts, is_some, truthy, if◌then◌else◌,
}
use bfrost.Platform.{Platform}
use bfrost.Runs.{
  RunTrigger, schedule, manual, pipeline, RunRecord, FinishStatus, SkipReason, no_work, overlap,
  start_scheduler_run, finish_scheduler_run, FinishInput,
}

pub data LastStatus : Type 0 where
  idle success error skipped : LastStatus

pub record JobRuntime : Type 0 where
  pub queued : Bool
  pub queued_at : Option String
  pub running : Bool
  pub last_started_at : Option String
  pub last_finished_at : Option String
  pub last_status : LastStatus
  pub last_summary : Option String
  pub last_error : Option String
  pub last_trigger : Option RunTrigger

-- What `recordEvent` is given; the metadata has only the job here.
pub record JobEvent : Type 0 where
  pub category : String
  pub action : String
  pub severity : Option String
  pub summary : String
  pub job : String

pub record SchedulerState : Type 0 where
  pub runtime_cache : List (String × JobRuntime)
  pub abandoned_job_runs : List String
  pub persisted : List (String × JobRuntime)
  pub runs : List RunRecord
  pub events : List JobEvent

-- A registered job with its settings.
pub record Job : Type 0 where
  pub name : String
  pub label : String
  pub model_alias : String

-- The fallbacks for a job with no saved state.
abbrev pub no_runtime : JobRuntime
no_runtime = record {
  queued = false;
  queued_at = none;
  running = false;
  last_started_at = none;
  last_finished_at = none;
  last_status = idle;
  last_summary = none;
  last_error = none;
  last_trigger = none;
}

unfoldable pub has_abandoned_run : String → SchedulerState → Bool
has_abandoned_run name st = includes st.abandoned_job_runs name

unfoldable pub build_job_state : String → SchedulerState → JobRuntime
unfolding has_abandoned_run
build_job_state name st =
    let saved = get_or_else (lookup name st.runtime_cache) no_runtime in
    record saved { running = saved.running || has_abandoned_run name st }

abbrev pub set_runtime : String → JobRuntime → SchedulerState → SchedulerState
set_runtime name runtime st = record st { runtime_cache = insert name runtime st.runtime_cache }

-- `payload.jobs[name] = …` for the known jobs in turn.
pub persisted_jobs :
    List String
    → List (String × JobRuntime)
    → List (String × JobRuntime)
    → List (String × JobRuntime)
persisted_jobs [] cache payload = payload
persisted_jobs (name ∷ known) cache payload =
    persisted_jobs known cache
      (elim (lookup name cache) [ none ↦ payload | some current ↦ insert name current payload ])

unfoldable pub persist_runtime : List String → SchedulerState → SchedulerState
unfolding persisted_jobs
persist_runtime known st = record st { persisted = persisted_jobs known st.runtime_cache [] }

-- A saved job comes back neither queued nor running.
pub hydrated : JobRuntime → JobRuntime
hydrated saved = record saved { queued = false; queued_at = none; running = false }

pub hydrated_jobs :
    List String
    → List (String × JobRuntime)
    → List (String × JobRuntime)
    → List (String × JobRuntime)
unfolding hydrated
hydrated_jobs [] parsed cache = cache
hydrated_jobs (name ∷ known) parsed cache =
    hydrated_jobs known parsed
      (elim (lookup name parsed) [ none ↦ cache | some saved ↦ insert name (hydrated saved) cache ])

pub hydrate_runtime_from_state :
    List String → List (String × JobRuntime) → SchedulerState → SchedulerState
unfolding hydrated_jobs
hydrate_runtime_from_state known parsed st = record st {
  runtime_cache = hydrated_jobs known parsed st.runtime_cache;
}

abbrev pub record_event : JobEvent → SchedulerState → SchedulerState
record_event event st = record st { events = st.events ++ event ∷ [] }

abbrev pub job_event : Job → String → Option String → List String → JobEvent
job_event job action severity parts = record {
  category = "job";
  action = action;
  severity = severity;
  summary = concat_texts parts;
  job = job.name;
}

-- `${trigger}`.
pub trigger_text : RunTrigger → String
trigger_text RunTrigger.schedule = "schedule"
trigger_text RunTrigger.manual = "manual"
trigger_text RunTrigger.pipeline = "pipeline"
trigger_text RunTrigger.event = "event"

pub mark_job_queued :
    List String → Job → JobRuntime → RunTrigger → String → SchedulerState → SchedulerState
unfolding persist_runtime trigger_text
mark_job_queued known job current trigger queued_at st =
    let queued_job : JobRuntime = record current {
      queued = true;
      queued_at = some queued_at;
      running = false;
      last_error = none;
    } in
    record_event
      (job_event job "queued" none (job.label ∷ " queued by " ∷ trigger_text trigger ∷ "." ∷ []))
      (persist_runtime known (set_runtime job.name queued_job st))

unfoldable pub start_scheduler_run_safe :
    Platform → Option String → Job → RunTrigger → String → SchedulerState → SchedulerState
start_scheduler_run_safe p none job trigger started_at st = st
start_scheduler_run_safe p (some id) job trigger started_at st = record st {
  runs =
      (start_scheduler_run p st.runs id (record {
        job = job.name;
        label = job.label;
        trigger = trigger;
        model_alias = job.model_alias;
        started_at = started_at;
      })).1;
}

unfoldable pub finish_scheduler_run_safe :
    Platform → Option String → FinishInput → SchedulerState → SchedulerState
finish_scheduler_run_safe p none input st = st
finish_scheduler_run_safe p (some id) input st = record st {
  runs = (finish_scheduler_run p st.runs id input).1;
}

-- The part before the handler starts.
unfoldable pub begin_job :
    List String
    → Platform
    → Job
    → RunTrigger
    → String
    → Option String
    → SchedulerState
    → SchedulerState
unfolding build_job_state persist_runtime start_scheduler_run_safe trigger_text
begin_job known p job trigger started_at run_id st =
    let running_job : JobRuntime = record (build_job_state job.name st) {
      queued = false;
      queued_at = none;
      running = true;
      last_started_at = some started_at;
      last_error = none;
      last_trigger = some trigger;
    } in
    record_event
      (job_event job "started" none (job.label ∷ " started by " ∷ trigger_text trigger ∷ "." ∷ []))
      (start_scheduler_run_safe p run_id job trigger started_at
        (persist_runtime known (set_runtime job.name running_job st)))

-- The record of a slot that was not run, as both kinds of skip finish it.
abbrev pub skip_input : String → String → SkipReason → FinishInput
skip_input now message reason = record {
  finished_at = now;
  status = FinishStatus.skipped;
  summary = none;
  error = some message;
  item_count = some 0;
  skip_reason = some reason;
}

pub record_no_work_skipped_run :
    List String → Platform → Job → String → Option String → SchedulerState → SchedulerState
unfolding build_job_state persist_runtime start_scheduler_run_safe finish_scheduler_run_safe
record_no_work_skipped_run known p job now run_id st =
    let message =
      concat_texts (job.label ∷ " skipped because no worker-declared work is ready." ∷ []) in
    let idle_job : JobRuntime = record (build_job_state job.name st) {
      running = false;
      last_started_at = some now;
      last_finished_at = some now;
      last_status = LastStatus.skipped;
      last_summary = none;
      last_error = some message;
      last_trigger = some schedule;
    } in
    record_event (job_event job "skipped" none (message ∷ [])) (
      persist_runtime known (
        finish_scheduler_run_safe p run_id (skip_input now message no_work)
          (start_scheduler_run_safe p run_id job schedule now (set_runtime job.name idle_job st))))

pub record_busy_skipped_run :
    Platform → Job → Option String → String → Option String → SchedulerState → SchedulerState
unfolding has_abandoned_run start_scheduler_run_safe finish_scheduler_run_safe
record_busy_skipped_run p job scheduled_at now run_id st =
    let message = concat_texts (
      job.label
      ∷ (if has_abandoned_run job.name st
          then " skipped its scheduled slot: the previous run outran its time budget and its handler is still executing."
          else " skipped its scheduled slot because the previous execution was still running.")
      ∷ []) in
    record_event (job_event job "overlap_skipped" (some "warning") (message ∷ [])) (
      finish_scheduler_run_safe p run_id (skip_input now message overlap)
        (start_scheduler_run_safe p run_id job schedule (get_or_else scheduled_at now) st))
