-- ===== src/Scheduler/Work.antt =====
-- One run of a job (src/scheduler.ts): the attempts at its handler, until one succeeds, is skipped or
-- fails for the last time, and what is recorded of them. What a handler does, and what the rest of the
-- program does to the state meanwhile, are arguments: an attempt says how it ended.
pub mod Ending
pub mod Flags
pub mod Rounds
pub mod Laws
pub mod Recorded
mod Tests
use bfrost.Prelude.{
  ℕ, zero, suc, ◌+◌, ◌/◌, String, Bool, true, false, ◌||◌, Option, none, some, List, [], ◌∷◌, ◌++◌,
  includes, get_or_else, lookup, insert, is_some, some_truthy, ltb, leb, decimal, concat_texts,
  text_includes, if◌then◌else◌, keep, not, str_eq,
}
use bfrost.Platform.{Platform}
use bfrost.Runs.{
  RunTrigger, AttemptStatus, FinishStatus, FinishInput, RunAttempt, record_scheduler_run_attempt,
}
use bfrost.Scheduler.Windows.{RetryPolicy, retry_delay_ms}
use bfrost.Scheduler.Runtime.{
  JobRuntime, SchedulerState, Job, LastStatus, no_runtime, build_job_state, set_runtime,
  persist_runtime, record_event, job_event, finish_scheduler_run_safe, begin_job,
}

-- How the race of a handler and its deadline ends.
pub data Outcome : Type 0 where
  returned : String → Option ℕ → Outcome
  threw : String → Outcome
  timed_out : Outcome

pub record Attempt : Type 0 where
  pub started_at : String
  pub finished_at : String
  pub outcome : Outcome
  pub jitter : ℕ → ℕ
  pub meanwhile : SchedulerState → SchedulerState

-- The places where the source waits once an attempt has ended, with the attempt's number.
pub data Wait : Type 0 where
  storing_attempt announcing_retry delaying announcing_end storing_end : ℕ → Wait
  storing_states : Wait

-- What `runJobWork` is called with, what it reads of the configuration, and what the rest of the program
-- does to the state at each of these places.
pub record Work : Type 0 where
  pub known : List String
  pub platform : Platform
  pub job : Job
  pub trigger : RunTrigger
  pub started_at : String
  pub run_id : Option String
  pub retry_policy : RetryPolicy
  pub job_timeout_ms : ℕ
  pub notify_on_completion : Bool
  pub while_waiting : Wait → SchedulerState → SchedulerState

-- `JobTimeoutError`.
pub timeout_message : Work → String
timeout_message w = concat_texts (
    w.job.label
    ∷ " exceeded its "
    ∷ decimal ((w.job_timeout_ms + 500) / 1000)
    ∷ "s time budget and was abandoned by the scheduler."
    ∷ [])

-- `abandonedJobRuns.add(name)`, a set.
pub abandon_job : String → SchedulerState → SchedulerState
abandon_job name st =
    if includes st.abandoned_job_runs name
    then st
    else record st { abandoned_job_runs = st.abandoned_job_runs ++ name ∷ [] }

-- `forget`, once the handler has settled.
unfoldable pub forget_job : String → SchedulerState → SchedulerState
forget_job name st = record st {
  abandoned_job_runs = keep (λ job. not (str_eq job name)) st.abandoned_job_runs;
}

pub record_scheduler_run_attempt_safe : Work → RunAttempt → SchedulerState → SchedulerState
record_scheduler_run_attempt_safe w attempt st = elim w.run_id [
  | none ↦ st
  | some id ↦ record st { runs = (record_scheduler_run_attempt w.platform st.runs id attempt).1 }
]

-- The state of the job once its run has ended.
pub ended_runtime :
    Work → String → LastStatus → Option String → Option String → SchedulerState → JobRuntime
unfolding build_job_state
ended_runtime w finished_at status summary error st = record (build_job_state w.job.name st) {
  running = false;
  last_started_at = some w.started_at;
  last_finished_at = some finished_at;
  last_status = status;
  last_summary = summary;
  last_error = error;
  last_trigger = some w.trigger;
}

pub succeeded_attempt : ℕ → Attempt → String → Option ℕ → RunAttempt
succeeded_attempt number a summary item_count = record {
  attempt = number;
  started_at = a.started_at;
  finished_at = a.finished_at;
  status = AttemptStatus.success;
  summary = some summary;
  error = none;
  item_count = item_count;
  next_delay_ms = none;
}

abbrev pub success_input : Attempt → String → Option ℕ → FinishInput
success_input a summary item_count = record {
  finished_at = a.finished_at;
  status = FinishStatus.success;
  summary = some summary;
  error = none;
  item_count = item_count;
  skip_reason = none;
}

pub succeed : Work → ℕ → Attempt → String → Option ℕ → SchedulerState → SchedulerState
unfolding record_scheduler_run_attempt_safe succeeded_attempt ended_runtime
    finish_scheduler_run_safe
succeed w number a summary item_count st =
    let recorded =
      w.while_waiting (storing_attempt number)
        (record_scheduler_run_attempt_safe w (succeeded_attempt number a summary item_count) st) in
    let ended = ended_runtime w a.finished_at LastStatus.success (some summary) none recorded in
    let announced = w.while_waiting (announcing_end number) (
      record_event
        (job_event w.job "succeeded" none (w.job.label ∷ " completed successfully." ∷ []))
        (set_runtime w.job.name ended recorded)) in
    w.while_waiting (storing_end number)
      (finish_scheduler_run_safe w.platform w.run_id (success_input a summary item_count) announced)

pub failed_attempt : ℕ → Attempt → Bool → String → Option ℕ → RunAttempt
failed_attempt number a skipped message next_delay_ms = record {
  attempt = number;
  started_at = a.started_at;
  finished_at = a.finished_at;
  status = if skipped then AttemptStatus.skipped else AttemptStatus.error;
  summary = none;
  error = some message;
  item_count = none;
  next_delay_ms = next_delay_ms;
}

pub retry_later : Work → ℕ → Attempt → String → SchedulerState → SchedulerState
unfolding record_scheduler_run_attempt_safe failed_attempt retry_delay_ms
retry_later w number a message st =
    let next_delay_ms = retry_delay_ms number w.retry_policy a.jitter in
    let announced =
      record_event
        (job_event w.job "retrying" (some "warning") (
          w.job.label
          ∷ " failed on attempt "
          ∷ decimal number
          ∷ "; retrying in "
          ∷ decimal ((next_delay_ms + 500) / 1000)
          ∷ "s."
          ∷ []))
        (w.while_waiting (storing_attempt number) (
          record_scheduler_run_attempt_safe w
            (failed_attempt number a false message (some next_delay_ms)) st)) in
    w.while_waiting (delaying number) (w.while_waiting (announcing_retry number) announced)

abbrev pub failure_input : Attempt → Bool → String → FinishInput
failure_input a skipped message = record {
  finished_at = a.finished_at;
  status = if skipped then FinishStatus.skipped else FinishStatus.error;
  summary = none;
  error = some message;
  item_count = none;
  skip_reason = none;
}

pub fail : Work → ℕ → Attempt → Bool → String → SchedulerState → SchedulerState
unfolding record_scheduler_run_attempt_safe failed_attempt ended_runtime finish_scheduler_run_safe
fail w number a skipped message st =
    let recorded =
      w.while_waiting (storing_attempt number)
        (record_scheduler_run_attempt_safe w (failed_attempt number a skipped message none) st) in
    let ended =
      ended_runtime w a.finished_at (if skipped then LastStatus.skipped else LastStatus.error) none
        (some message) recorded in
    let announced = w.while_waiting (announcing_end number) (
      record_event
        (job_event w.job (if skipped then "skipped" else "failed")
          (some (if skipped then "warning" else "error"))
          (w.job.label ∷ " " ∷ (if skipped then "was skipped" else "failed") ∷ "." ∷ []))
        (set_runtime w.job.name ended recorded)) in
    w.while_waiting (storing_end number)
      (finish_scheduler_run_safe w.platform w.run_id (failure_input a skipped message) announced)

pub is_lock_failure : String → Bool
is_lock_failure message = text_includes message "Could not acquire queue lock"

-- The loop from one attempt on, with the rounds that are left: is a tick kicked, and the state.
pub run_attempts : Work → (ℕ → Attempt) → ℕ → ℕ → SchedulerState → Bool × SchedulerState
unfolding timeout_message abandon_job succeed is_lock_failure retry_later fail
run_attempts w attempt_at zero number st = (false, st)
run_attempts w attempt_at (suc rounds) number st =
    let a = attempt_at number in
    let settled = a.meanwhile st in
    let rest = λ (message : String).
      run_attempts w attempt_at rounds (suc number) (retry_later w number a message settled) in
    elim a.outcome [
      | returned summary item_count ↦
          (ltb 0 (get_or_else item_count 0), succeed w number a summary item_count settled)
      | threw message ↦
          if is_lock_failure message
          then (false, fail w number a true message settled)
          else if leb (w.retry_policy.max_retries + 1) number
          then (false, fail w number a false message settled)
          else rest message
      | timed_out ↦ (
        false,
        fail w number a (is_lock_failure (timeout_message w)) (timeout_message w)
            (abandon_job w.job.name settled),
      )
    ]

-- What the run leaves: is a tick kicked, the text for the operator's channels, and the state.
pub record WorkEnd : Type 0 where
  pub kick : Bool
  pub notice : Option String
  pub state : SchedulerState

pub status_text : LastStatus → String
status_text LastStatus.idle = "idle"
status_text LastStatus.success = "success"
status_text LastStatus.error = "error"
status_text LastStatus.skipped = "skipped"

is_success : LastStatus → Bool
is_success LastStatus.success = true
is_success _ = false

-- `finalState?.lastStatus ?? 'finished'` where there is a final state or none.
pub completion_text : Job → Option JobRuntime → String
unfolding is_success status_text
completion_text job none = concat_texts (job.label ∷ " finished: no output" ∷ [])
completion_text job (some final) =
    if is_success final.last_status
    then if some_truthy final.last_summary
      then get_or_else final.last_summary ""
      else concat_texts (job.label ∷ " success: " ∷ get_or_else final.last_error "no output" ∷ [])
    else concat_texts (
        job.label
        ∷ " "
        ∷ status_text final.last_status
        ∷ ": "
        ∷ get_or_else final.last_error "no output"
        ∷ [])

-- Afterwards the source schedules a pending bus wake of the job.
pub run_job_work : Work → (ℕ → Attempt) → SchedulerState → WorkEnd
unfolding run_attempts completion_text persist_runtime
run_job_work w attempt_at st =
    let (kick, ended) = run_attempts w attempt_at (w.retry_policy.max_retries + 1) 1 st in
    let stored = w.while_waiting storing_states (persist_runtime w.known ended) in
    record {
      kick = kick;
      notice =
          if w.notify_on_completion
          then some (completion_text w.job (lookup w.job.name stored.runtime_cache))
          else none;
      state = stored;
    }

pub execute_queued_job : Work → (ℕ → Attempt) → SchedulerState → WorkEnd
unfolding begin_job run_job_work
execute_queued_job w attempt_at st =
    run_job_work w attempt_at
      (begin_job w.known w.platform w.job w.trigger w.started_at w.run_id st)
