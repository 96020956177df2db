-- ===== src/Scheduler/Work/Ending.antt =====
-- What the last attempt of a run leaves in the state of its job (src/scheduler.ts).
use bfrost.Prelude.{
  ℕ, ◌+◌, ◌≤◌, ◌<◌, String, Bool, true, false, ◌||◌, Option, none, some, ◌≡◌, refl, lookup, leb,
  lookup-insert_same, if◌then◌else◌, ◌∙◌, ap,
}
use bfrost.Platform.{Platform}
use bfrost.Runs.{FinishInput}
use bfrost.Scheduler.Runtime.{
  JobRuntime, SchedulerState, LastStatus, finish_scheduler_run_safe, JobEvent, record_event,
  set_runtime,
}
use bfrost.Scheduler.Work.{
  Work, Attempt, Outcome, returned, threw, timed_out, timeout_message, is_lock_failure, succeed,
  fail, ended_runtime, record_scheduler_run_attempt_safe, succeeded_attempt, failed_attempt,
  announcing_end, storing_end, storing_attempt, storing_states,
}

-- Is an attempt with this number the last one?
abbrev pub is_decisive : Work → ℕ → Outcome → Bool
is_decisive w number (returned summary item_count) = true
is_decisive w number (threw message) =
    is_lock_failure message || leb (w.retry_policy.max_retries + 1) number
is_decisive w number timed_out = true

-- The first attempt that is the last one, among those that the policy allows from a number on.
pub record IsDeciding (w : Work) (attempt_at : ℕ → Attempt) (start number : ℕ) : Type 0 where
  pub from_start : start ≤ number
  pub allowed : number ≤ w.retry_policy.max_retries + 1
  pub last : is_decisive w number (attempt_at number).outcome ≡ true
  pub earlier : (m : ℕ) → start ≤ m → m < number → is_decisive w m (attempt_at m).outcome ≡ false

abbrev pub status_of_message : String → LastStatus
status_of_message message = if is_lock_failure message then LastStatus.skipped else LastStatus.error

abbrev pub status_of : Work → Outcome → LastStatus
status_of w (returned summary item_count) = LastStatus.success
status_of w (threw message) = status_of_message message
status_of w timed_out = status_of_message (timeout_message w)

abbrev pub summary_of : Outcome → Option String
summary_of (returned summary item_count) = some summary
summary_of _ = none

abbrev pub error_of : Work → Outcome → Option String
error_of w (returned summary item_count) = none
error_of w (threw message) = some message
error_of w timed_out = some (timeout_message w)

-- The state of a job that says how one attempt of its run ended.
pub record IsEnded (w : Work) (a : Attempt) (runtime : JobRuntime) : Type 0 where
  pub stopped : runtime.running ≡ false
  pub started : runtime.last_started_at ≡ some w.started_at
  pub finished : runtime.last_finished_at ≡ some a.finished_at
  pub status : runtime.last_status ≡ status_of w a.outcome
  pub summary : runtime.last_summary ≡ summary_of a.outcome
  pub error : runtime.last_error ≡ error_of w a.outcome
  pub trigger : runtime.last_trigger ≡ some w.trigger

abbrev pub EndsAt : Work → Attempt → SchedulerState → Type 0
EndsAt w a st =
    (runtime : JobRuntime) × ((lookup w.job.name st.runtime_cache ≡ some runtime)
      × IsEnded w a runtime)

-- What happens while the end of a run is written leaves the state of the job as it is.
pub record LeavesEnd (w : Work) : Type 0 where
  pub announcing :
      (number : ℕ) (st : SchedulerState)
      → lookup w.job.name (w.while_waiting (announcing_end number) st).runtime_cache
        ≡ lookup w.job.name st.runtime_cache
  pub storing :
      (number : ℕ) (st : SchedulerState)
      → lookup w.job.name (w.while_waiting (storing_end number) st).runtime_cache
        ≡ lookup w.job.name st.runtime_cache
  pub saving :
      (st : SchedulerState)
      → lookup w.job.name (w.while_waiting storing_states st).runtime_cache
        ≡ lookup w.job.name st.runtime_cache

pub finish_cache :
    (p : Platform) (id : Option String) (input : FinishInput) (st : SchedulerState)
    → (finish_scheduler_run_safe p id input st).runtime_cache ≡ st.runtime_cache
unfolding finish_scheduler_run_safe
finish_cache p none input st = refl
finish_cache p (some id) input st = refl

-- Both ends of a run write the state of the job in the same way.
written-EndsAt :
    (w : Work) (number : ℕ) (a : Attempt) (status : LastStatus) (summary error : Option String)
    (before st : SchedulerState) (event : JobEvent) (input : FinishInput)
    → LeavesEnd w
    → status ≡ status_of w a.outcome
    → summary ≡ summary_of a.outcome
    → error ≡ error_of w a.outcome
    → EndsAt w a (
        w.while_waiting (storing_end number) (
          finish_scheduler_run_safe w.platform w.run_id input (
            w.while_waiting (announcing_end number) (
              record_event event (
                set_runtime w.job.name
                  (ended_runtime w a.finished_at status summary error before)
                  st)))))
unfolding ended_runtime
written-EndsAt w number a status summary error before st event input leaves hs hm he = (
  ended_runtime w a.finished_at status summary error before,
  (
    leaves.storing number _
        ∙ ap (lookup w.job.name) (finish_cache w.platform w.run_id input _)
        ∙ leaves.announcing number _
        ∙ lookup-insert_same w.job.name _ _,
    record {
      stopped = refl;
      started = refl;
      finished = refl;
      status = hs;
      summary = hm;
      error = he;
      trigger = refl;
    },
  ),
)

pub succeed-EndsAt :
    (w : Work) (number : ℕ) (a : Attempt) (summary : String) (item_count : Option ℕ)
    (st : SchedulerState)
    → LeavesEnd w
    → a.outcome ≡ returned summary item_count
    → EndsAt w a (succeed w number a summary item_count st)
unfolding succeed
succeed-EndsAt w number a summary item_count st leaves e =
    let recorded =
      w.while_waiting (storing_attempt number)
        (record_scheduler_run_attempt_safe w (succeeded_attempt number a summary item_count) st) in
    written-EndsAt w number a LastStatus.success (some summary) none recorded recorded _ _ leaves
      (rw e refl) (rw e refl) (rw e refl)

pub fail-EndsAt :
    (w : Work) (number : ℕ) (a : Attempt) (skipped : Bool) (message : String) (st : SchedulerState)
    → LeavesEnd w
    → (if skipped then LastStatus.skipped else LastStatus.error) ≡ status_of w a.outcome
    → none ≡ summary_of a.outcome
    → some message ≡ error_of w a.outcome
    → EndsAt w a (fail w number a skipped message st)
unfolding fail
fail-EndsAt w number a skipped message st leaves hs hm he =
    let recorded =
      w.while_waiting (storing_attempt number)
        (record_scheduler_run_attempt_safe w (failed_attempt number a skipped message none) st) in
    written-EndsAt w number a _ none (some message) recorded recorded _ _ leaves hs hm he
