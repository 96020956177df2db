-- ===== src/Scheduler/Work/Laws.antt =====
-- How a run ends (src/scheduler.ts).
use bfrost.Prelude.{ℕ, ◌∙◌}
use bfrost.Scheduler.Runtime.{SchedulerState, persist_runtime}
use bfrost.Scheduler.Work.{Work, Attempt, run_job_work}
use bfrost.Scheduler.Work.Ending.{LeavesEnd, EndsAt, fail-EndsAt, succeed-EndsAt}
use bfrost.Scheduler.Work.Rounds.{EndsFrom, run_attempts-EndsFrom_first}

-- A run of a job ends at the first of its attempts that returns, is timed out, cannot take the queue's
-- lock, or is the last that the retry policy allows; there is always such an attempt. Whatever the rest
-- of the program does until the end of the run is written to the state of the job: where nothing else
-- writes that state while the end is announced and stored, the job is then not running, and its state
-- tells how and when that attempt ended.
pub run_job_work-EndsFrom :
    (w : Work) (attempt_at : ℕ → Attempt) (st : SchedulerState)
    → LeavesEnd w
    → EndsFrom w attempt_at (EndsAt w) 1 (run_job_work w attempt_at st).state
unfolding run_job_work persist_runtime
run_job_work-EndsFrom w attempt_at st leaves =
    let (number, (deciding, (runtime, (found, ended)))) =
      run_attempts-EndsFrom_first w attempt_at (λ _. Unit {0}) (EndsAt w) st
        (record {
          kept = λ number state i. tt;
          retried = λ number a message state i. tt;
          abandoned = λ state i. tt;
          succeeds = λ number a summary item_count state i.
              succeed-EndsAt w number a summary item_count state leaves;
          fails = λ number a skipped message state i.
              fail-EndsAt w number a skipped message state leaves;
        })
        tt in
    (number, (deciding, (runtime, (leaves.saving _ ∙ found, ended))))
