-- ===== src/Scheduler/Work/Flags.antt =====
-- What the steps of a run do to the state of its job (src/scheduler.ts).
use bfrost.Prelude.{
  ℕ, String, Bool, true, none, [], ◌∷◌, ◌≡◌, refl, includes-append, Option-cases, inl, inr, arith,
  eq_iff, ◌∙◌,
}
use bfrost.Runs.{RunAttempt}
use bfrost.Scheduler.Runtime.{SchedulerState, has_abandoned_run}
use bfrost.Scheduler.Runtime.Flags.{KeepsJobs, finish-KeepsJobs}
use bfrost.Scheduler.Work.{
  Work, Attempt, fail, retry_later, abandon_job, record_scheduler_run_attempt_safe, failed_attempt,
  failure_input,
}

-- The run where nothing else happens while its end is written.
abbrev pub alone : Work → Work
alone w = record w { while_waiting = λ wait st. st }

record_attempt-KeepsJobs :
    (w : Work) (attempt : RunAttempt) (st : SchedulerState)
    → KeepsJobs st (record_scheduler_run_attempt_safe w attempt st)
unfolding record_scheduler_run_attempt_safe
record_attempt-KeepsJobs w attempt st = elim (Option-cases w.run_id) [
  | inl e ↦ rw (record_scheduler_run_attempt_safe, e) (refl, refl)
  | inr (id, e) ↦ rw (record_scheduler_run_attempt_safe, e) (refl, refl)
]

pub retry_later-KeepsJobs :
    (w : Work) (number : ℕ) (a : Attempt) (message : String) (st : SchedulerState)
    → KeepsJobs st (retry_later (alone w) number a message st)
unfolding retry_later
retry_later-KeepsJobs w number a message st = record_attempt-KeepsJobs (alone w) _ st

-- A run that fails, while nothing else happens, leaves its job not running, and the abandoned handlers.
pub fail-abandoned :
    (w : Work) (number : ℕ) (a : Attempt) (skipped : Bool) (message : String) (st : SchedulerState)
    → (fail (alone w) number a skipped message st).abandoned_job_runs ≡ st.abandoned_job_runs
unfolding fail
fail-abandoned w number a skipped message st =
    let attempt = failed_attempt number a skipped message none in
    (finish-KeepsJobs w.platform w.run_id (failure_input a skipped message) _).1
    ∙ (record_attempt-KeepsJobs (alone w) attempt st).1

pub abandon_job-has :
    (name : String) (st : SchedulerState) → has_abandoned_run name (abandon_job name st) ≡ true
unfolding abandon_job has_abandoned_run
abandon_job-has name st =
    ground (arith, includes-append st.abandoned_job_runs (name ∷ []) name, eq_iff name name)

pub abandon_job-cache :
    (name : String) (st : SchedulerState) → (abandon_job name st).runtime_cache ≡ st.runtime_cache
unfolding abandon_job
abandon_job-cache name st = ground arith
