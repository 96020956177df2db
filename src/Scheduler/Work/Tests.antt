-- ===== src/Scheduler/Work/Tests.antt =====
-- The theorems on the run of a job, at a run of two attempts, where a handler of another job goes on
-- after its deadline meanwhile.
use bfrost.Prelude.{refl, arith, lookup, insert, ◌≡◌, lookup-insert}
use bfrost.Scheduler.Samples.{digest_work, second_try, boot_state}
use bfrost.Scheduler.Work.{Work, run_job_work, set_runtime, SchedulerState, no_runtime}
use bfrost.Scheduler.Work.Ending.{LeavesEnd, EndsAt}
use bfrost.Scheduler.Work.Rounds.{EndsFrom}
use bfrost.Scheduler.Work.Laws.{run_job_work-EndsFrom}
use bfrost.Scheduler.Work.Recorded.{LeavesRun, RecordEnds, run_job_work-RecordEnds, All-IsIn}

abbrev busy_work : Work
busy_work = record digest_work { while_waiting = λ wait st. set_runtime "sync" no_runtime st }

sync_apart :
    (st : SchedulerState)
    → lookup "digest" (insert "sync" no_runtime st.runtime_cache) ≡ lookup "digest" st.runtime_cache
sync_apart st = lookup-insert "sync" "digest" no_runtime st.runtime_cache

leaves_end : LeavesEnd busy_work
leaves_end = record {
  announcing = λ number st. sync_apart st;
  storing = λ number st. sync_apart st;
  saving = λ st. sync_apart st;
}

leaves_run : LeavesRun busy_work "r1"
leaves_run = record {
  bounded = λ wait st h. h;
  storing = λ number st. All-IsIn "r1" st.runs;
  saving = λ st. All-IsIn "r1" st.runs;
}

run_job_work-EndsFrom_example :
    EndsFrom busy_work second_try
      (EndsAt busy_work)
      1
      (run_job_work busy_work second_try boot_state).state
run_job_work-EndsFrom_example = run_job_work-EndsFrom busy_work second_try boot_state leaves_end

run_job_work-RecordEnds_example :
    EndsFrom busy_work second_try
      (RecordEnds busy_work "r1")
      1
      (run_job_work busy_work second_try boot_state).state
run_job_work-RecordEnds_example =
    run_job_work-RecordEnds busy_work "r1" second_try boot_state refl (omega arith)
      (λ number state h. h) leaves_run
