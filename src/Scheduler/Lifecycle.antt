-- ===== src/Scheduler/Lifecycle.antt =====
-- The life of one job in the scheduler, as the steps between the places where the source waits
-- (src/scheduler.ts): triggers claim it, the pool starts it, its handler settles or outruns its deadline.
-- Each step changes the state by the function that the source calls there.
pub mod Laws
pub mod Overlap
mod Tests
use bfrost.Prelude.{ℕ, zero, suc, ◌+◌, String, Bool, true, false, Option, ◌≡◌, lookup}
use bfrost.Runs.{RunTrigger}
use bfrost.Scheduler.Runtime.{
  Job, SchedulerState, build_job_state, mark_job_queued, begin_job, record_busy_skipped_run,
  record_no_work_skipped_run, has_abandoned_run,
}
use bfrost.Scheduler.Work.{Work, Attempt, succeed, fail, retry_later, abandon_job, forget_job}
use bfrost.Scheduler.Work.Flags.{alone}
use bfrost.Scheduler.Trigger.{in_flight}
use bfrost.Scheduler.Skipped.{SkippedCall, record_slot}

-- The scheduler's state, and how many executions of the job wait in the pool, have a handler that is
-- waited for, write the end of a run that timed out, and how many handlers go on after their deadline.
pub record Life : Type 0 where
  pub state : SchedulerState
  pub waiting : ℕ
  pub attending : ℕ
  pub closing : ℕ
  pub orphans : ℕ

-- A run of this job. What else happens while its end is written is in other steps.
abbrev pub of_job : Job → Work → Work
of_job job w = alone (record w { job = job })

-- One step. The flag says whether another trigger may claim the job while `hasWork` is waited for. The
-- pool starts no execution of a worker before the one that it started is over. Whatever concerns other
-- jobs leaves the state of this one.
pub data Step (may_interleave : Bool) (job : Job) : Life → Life → Type 0 where
  claim :
      (l : Life) (w : Work) (trigger : RunTrigger) (now : String)
      → in_flight job.name l.state ≡ false
      → Step may_interleave job l (record l {
        state = mark_job_queued w.known job (build_job_state job.name l.state) trigger now l.state;
        waiting = l.waiting + 1;
      })
  start :
      (l : Life) (w : Work) (n : ℕ)
      → l.waiting ≡ suc n
      → l.attending ≡ 0
      → l.closing ≡ 0
      → Step may_interleave job l (record l {
        state = begin_job w.known w.platform job w.trigger w.started_at w.run_id l.state;
        waiting = n;
        attending = 1;
      })
  retry :
      (l : Life) (w : Work) (number : ℕ) (a : Attempt) (message : String) (n : ℕ)
      → l.attending ≡ suc n
      → Step may_interleave job l
          (record l { state = retry_later (of_job job w) number a message l.state })
  success :
      (l : Life) (w : Work) (number : ℕ) (a : Attempt) (summary : String) (item_count : Option ℕ)
      (n : ℕ)
      → l.attending ≡ suc n
      → Step may_interleave job l (record l {
        state = succeed (of_job job w) number a summary item_count l.state;
        attending = n;
      })
  failure :
      (l : Life) (w : Work) (number : ℕ) (a : Attempt) (skipped : Bool) (message : String) (n : ℕ)
      → l.attending ≡ suc n
      → Step may_interleave job l
          (record l { state = fail (of_job job w) number a skipped message l.state; attending = n })
  expire :
      (l : Life) (n : ℕ)
      → l.attending ≡ suc n
      → Step may_interleave job l (record l {
        state = abandon_job job.name l.state;
        attending = n;
        closing = l.closing + 1;
        orphans = l.orphans + 1;
      })
  close :
      (l : Life) (w : Work) (number : ℕ) (a : Attempt) (skipped : Bool) (message : String) (n : ℕ)
      → l.closing ≡ suc n
      → Step may_interleave job l
          (record l { state = fail (of_job job w) number a skipped message l.state; closing = n })
  settle :
      (l : Life) (n : ℕ)
      → l.orphans ≡ suc n
      → Step may_interleave job l (record l { state = forget_job job.name l.state; orphans = n })
  overlap :
      (l : Life) (w : Work) (scheduled_at : Option String) (now : String)
      → Step may_interleave job l (record l {
        state = record_busy_skipped_run w.platform job scheduled_at now w.run_id l.state;
      })
  -- The record of a slot that node-cron reports as missed or as overlapping.
  skip :
      (l : Life) (c : SkippedCall) (scheduled_at : String)
      → Step may_interleave job l
          (record l { state = record_slot (record c { job = job }) scheduled_at l.state })
  no_work :
      (l : Life) (w : Work) (now : String)
      → (may_interleave ≡ false → in_flight job.name l.state ≡ false)
      → Step may_interleave job l (record l {
        state = record_no_work_skipped_run w.known w.platform job now w.run_id l.state;
      })
  elsewhere :
      (l : Life) (st : SchedulerState)
      → lookup job.name st.runtime_cache ≡ lookup job.name l.state.runtime_cache
      → has_abandoned_run job.name st ≡ has_abandoned_run job.name l.state
      → Step may_interleave job l (record l { state = st })

pub data Steps (may_interleave : Bool) (job : Job) : Life → Life → Type 0 where
  done : (l : Life) → Steps may_interleave job l l
  next :
      (l middle after : Life)
      → Step may_interleave job l middle
      → Steps may_interleave job middle after
      → Steps may_interleave job l after
