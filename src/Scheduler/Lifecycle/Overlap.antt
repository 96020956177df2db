-- ===== src/Scheduler/Lifecycle/Overlap.antt =====
-- A schedule that finds no work, after another trigger has started the same job (src/scheduler.ts).
use bfrost.Prelude.{◌+◌, String, true, false, ◌≡◌, refl, arith, ap, ◌∙◌, includes}
use bfrost.Runs.{manual}
use bfrost.Scheduler.Runtime.{
  Job, SchedulerState, build_job_state, has_abandoned_run, mark_job_queued, begin_job,
  record_no_work_skipped_run,
}
use bfrost.Scheduler.Runtime.Flags.{
  saved_of, mark_job_queued-Flagged, begin_job-Flagged, record_no_work-Flagged,
}
use bfrost.Scheduler.Work.{Work, Attempt, timeout_message, fail, abandon_job}
use bfrost.Scheduler.Trigger.{in_flight}
use bfrost.Scheduler.Lifecycle.{
  Life, Steps, done, next, claim, start, expire, close, no_work, of_job,
}

abbrev pub at_rest : SchedulerState → Life
at_rest st = record { state = st; waiting = 0; attending = 0; closing = 0; orphans = 0 }

idle_of_flags :
    (name : String) (st : SchedulerState)
    → (saved_of name st).queued ≡ false
    → (saved_of name st).running ≡ false
    → has_abandoned_run name st ≡ false
    → in_flight name st ≡ false
unfolding in_flight build_job_state
idle_of_flags name st hq hr ha = rw (hq, hr, ha) refl

not_abandoned :
    (name : String) (st : SchedulerState)
    → in_flight name st ≡ false
    → has_abandoned_run name st ≡ false
unfolding in_flight build_job_state
not_abandoned name st e = ground (arith, e)

module _ (job : Job) (w : Work) (now : String) (st : SchedulerState) where
  abbrev queue : SchedulerState → SchedulerState
  queue s = mark_job_queued w.known job (build_job_state job.name s) manual now s

  abbrev begin : SchedulerState → SchedulerState
  begin s = begin_job w.known w.platform job w.trigger w.started_at w.run_id s

  abbrev skip : SchedulerState → SchedulerState
  skip s = record_no_work_skipped_run w.known w.platform job now w.run_id s

  -- The state after a schedule's skip that comes after the start of the run.
  abbrev skipped : SchedulerState
  skipped = skip (begin (queue st))

  -- The running job looks idle.
  looks_idle : in_flight job.name st ≡ false → in_flight job.name skipped ≡ false
  unfolding has_abandoned_run
  looks_idle e =
      let queued =
        mark_job_queued-Flagged w.known job (build_job_state job.name st) manual now st in
      let began =
        begin_job-Flagged w.known w.platform job w.trigger w.started_at w.run_id (queue st) in
      let left = record_no_work-Flagged w.known w.platform job now w.run_id (begin (queue st)) in
      idle_of_flags job.name skipped (left.0 ∙ began.0) left.1 (
        ap (λ names. includes names job.name) (left.2 ∙ (began.2 ∙ queued.2))
        ∙ not_abandoned job.name st e)

  abbrev expired : SchedulerState
  expired = abandon_job job.name (queue skipped)

  abbrev closed : Attempt → SchedulerState
  closed a = fail (of_job job w) 1 a false (timeout_message w) expired

-- A job that is not in flight, for which a schedule waits for the worker's answer while another trigger
-- starts it: if the answer is that there is no work, the record of the skipped slot takes the mark of the
-- run in flight away. A further trigger then claims the job, and after the deadline of the first run its
-- handler and that of the second go on side by side.
pub two_handlers :
    (job : Job) (w : Work) (a : Attempt) (now : String) (st : SchedulerState)
    → in_flight job.name st ≡ false
    → (after : Life) × (Steps true job (at_rest st) after) × (after.attending + after.orphans ≡ 2)
two_handlers job w a now st e = (
  record {
    state = begin job w now st (closed job w now st a);
    waiting = 0;
    attending = 1;
    closing = 0;
    orphans = 1;
  },
  next _ _ _ (claim (at_rest st) w manual now e) (
      next _ _ _ (start _ w 0 refl refl refl) (
        next _ _ _ (no_work _ w now (λ never. cc)) (
          next _ _ _ (claim _ w manual now (looks_idle job w now st e)) (
            next _ _ _ (expire _ 0 refl) (
              next _ _ _ (close _ w 1 a false (timeout_message w) 0 refl)
                (next _ _ _ (start _ w 0 refl refl refl) (done _))))))),
  refl,
)
