-- ===== src/Scheduler/Runtime/Flags.antt =====
-- What the scheduler's writes do to the state of a job: is it queued, is it running, and is a handler of
-- it abandoned (src/scheduler.ts).
use bfrost.Prelude.{
  String, Bool, true, false, Option, none, some, List, ◌≡◌, refl, get_or_else, lookup,
  lookup-insert_same, arith,
}
use bfrost.Platform.{Platform}
use bfrost.Runs.{RunTrigger, FinishInput}
use bfrost.Scheduler.Runtime.{
  Job, JobRuntime, SchedulerState, no_runtime, build_job_state, mark_job_queued, begin_job,
  persist_runtime, record_no_work_skipped_run, record_busy_skipped_run, start_scheduler_run_safe,
  finish_scheduler_run_safe,
}

-- The state that is saved of a job.
abbrev pub saved_of : String → SchedulerState → JobRuntime
saved_of name st = get_or_else (lookup name st.runtime_cache) no_runtime

pub derived_running :
    (name : String) (st : SchedulerState)
    → (saved_of name st).running ≡ true
    → (build_job_state name st).running ≡ true
unfolding build_job_state
derived_running name st e = ground (arith, e)

-- The two states have the same cache and the same abandoned handlers.
abbrev pub KeepsJobs : SchedulerState → SchedulerState → Type 0
KeepsJobs st after =
    (after.runtime_cache ≡ st.runtime_cache) × (after.abandoned_job_runs ≡ st.abandoned_job_runs)

-- The flags of a job after a write that leaves the abandoned handlers.
abbrev pub Flagged : String → Bool → Bool → SchedulerState → SchedulerState → Type 0
Flagged name queued running st after =
    ((saved_of name after).queued ≡ queued)
    × ((saved_of name after).running ≡ running)
    × (after.abandoned_job_runs ≡ st.abandoned_job_runs)

pub start-KeepsJobs :
    (p : Platform) (id : Option String) (job : Job) (trigger : RunTrigger) (at : String)
    (st : SchedulerState)
    → KeepsJobs st (start_scheduler_run_safe p id job trigger at st)
unfolding start_scheduler_run_safe
start-KeepsJobs p none job trigger at st = (refl, refl)
start-KeepsJobs p (some id) job trigger at st = (refl, refl)

pub finish-KeepsJobs :
    (p : Platform) (id : Option String) (input : FinishInput) (st : SchedulerState)
    → KeepsJobs st (finish_scheduler_run_safe p id input st)
unfolding finish_scheduler_run_safe
finish-KeepsJobs p none input st = (refl, refl)
finish-KeepsJobs p (some id) input st = (refl, refl)

pub record_busy-KeepsJobs :
    (p : Platform) (job : Job) (scheduled_at : Option String) (now : String) (id : Option String)
    (st : SchedulerState)
    → KeepsJobs st (record_busy_skipped_run p job scheduled_at now id st)
unfolding record_busy_skipped_run
record_busy-KeepsJobs p job scheduled_at now none st = (refl, refl)
record_busy-KeepsJobs p job scheduled_at now (some id) st = (refl, refl)

pub mark_job_queued-Flagged :
    (known : List String) (job : Job) (current : JobRuntime) (trigger : RunTrigger) (at : String)
    (st : SchedulerState)
    → Flagged job.name true false st (mark_job_queued known job current trigger at st)
unfolding mark_job_queued persist_runtime
mark_job_queued-Flagged known job current trigger at st = rw lookup-insert_same (refl, refl, refl)

pub begin_job-Flagged :
    (known : List String) (p : Platform) (job : Job) (trigger : RunTrigger) (at : String)
    (id : Option String) (st : SchedulerState)
    → Flagged job.name false true st (begin_job known p job trigger at id st)
unfolding begin_job persist_runtime start_scheduler_run_safe
begin_job-Flagged known p job trigger at none st = rw lookup-insert_same (refl, refl, refl)
begin_job-Flagged known p job trigger at (some id) st = rw lookup-insert_same (refl, refl, refl)

pub record_no_work-Flagged :
    (known : List String) (p : Platform) (job : Job) (now : String) (id : Option String)
    (st : SchedulerState)
    → Flagged job.name
        (saved_of job.name st).queued
        false
        st
        (record_no_work_skipped_run known p job now id st)
unfolding record_no_work_skipped_run persist_runtime start_scheduler_run_safe
    finish_scheduler_run_safe build_job_state
record_no_work-Flagged known p job now none st = rw lookup-insert_same (refl, refl, refl)
record_no_work-Flagged known p job now (some id) st = rw lookup-insert_same (refl, refl, refl)
