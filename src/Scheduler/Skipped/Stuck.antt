-- ===== src/Scheduler/Skipped/Stuck.antt =====
-- A slot that is recorded while a handler goes on after its deadline (src/scheduler.ts).
use bfrost.Prelude.{
  String, Bool, true, false, List, ◌≡◌, refl, ◌∙◌, if◌then◌else◌, arith, not, ℕ, ◌+◌, suc, lookup,
  ap,
}
use bfrost.Locks.Execution.{LockRow, acquire_scheduler_execution_lock}
use bfrost.Scheduler.Runtime.{
  SchedulerState, build_job_state, has_abandoned_run, Job, record_busy_skipped_run,
}
use bfrost.Scheduler.Runtime.Flags.{saved_of, derived_running, record_busy-KeepsJobs}
use bfrost.Scheduler.Work.{forget_job}
use bfrost.Scheduler.Lifecycle.{
  Life, Step, Steps, done, next, claim, start, retry, success, failure, expire, close, settle,
  overlap, skip, no_work, elsewhere,
}
use bfrost.Scheduler.Lifecycle.Overlap.{at_rest}
use bfrost.Scheduler.Skipped.Flags.{record_slot-Flagged}
use bfrost.Scheduler.Trigger.{in_flight}
use bfrost.Scheduler.Skipped.{
  SkippedCall, SkipEnd, ignored, duplicate, catching_up, recorded, record_slot,
  record_skipped_schedule_execution, is_future, recovers, log_skip, slot_time, scheduler_slot_iso,
  scheduler_command_key,
}

running_in_flight :
    (name : String) (st : SchedulerState)
    → (saved_of name st).running ≡ true
    → in_flight name st ≡ true
unfolding in_flight build_job_state
running_in_flight name st e = ground (arith, e)

abandoned_running :
    (name : String) (st : SchedulerState)
    → has_abandoned_run name st ≡ true
    → (build_job_state name st).running ≡ true
unfolding build_job_state
abandoned_running name st e = ground (arith, e)

abbrev choice :
    Bool
    → Bool
    → Bool
    → SchedulerState
    → SchedulerState
    → SchedulerState
    → List LockRow
    → List LockRow
    → SkipEnd × SchedulerState × List LockRow
choice future not_locked again st logged marked before after =
    if future
    then (ignored, st, before)
    else if not_locked
    then (duplicate, st, after)
    else if again
    then (catching_up, logged, after)
    else (recorded, marked, after)

recorded_state :
    (future not_locked again : Bool) (st logged marked : SchedulerState)
    (before after : List LockRow)
    → (choice future not_locked again st logged marked before after).0 ≡ recorded
    → (choice future not_locked again st logged marked before after).1 ≡ marked
recorded_state true l a w x y z s e = ground (arith, e)
recorded_state false true a w x y z s e = ground (arith, e)
recorded_state false false true w x y z s e = ground (arith, e)
recorded_state false false false w x y z s e = refl

-- No execution of the job is there or waits, and its state says that one is running.
record IsStuck (job : Job) (l : Life) : Type 0 where
  none_there : l.waiting + l.attending + l.closing ≡ 0
  flag : (saved_of job.name l.state).running ≡ true

nothing : (n m : ℕ) → n ≡ 0 → n ≡ suc m → ⊥
nothing n m e h = omega (arith, e, h)

none_of :
    (job : Job) (l : Life) → IsStuck job l → (l.waiting ≡ 0) × (l.attending ≡ 0) × (l.closing ≡ 0)
none_of job l g =
    (omega (arith, g.none_there), omega (arith, g.none_there), omega (arith, g.none_there))

-- Nothing that can be claimed, started or ended.
no_claim : (job : Job) (l : Life) → IsStuck job l → in_flight job.name l.state ≡ false → ⊥
no_claim job l g e = let busy = running_in_flight job.name l.state g.flag in cc

with_cache :
    (job : Job) (l : Life) (st : SchedulerState)
    → lookup job.name st.runtime_cache ≡ lookup job.name l.state.runtime_cache
    → IsStuck job l
    → IsStuck job (record l { state = st })
with_cache job l st e g = record { none_there = g.none_there; flag = rw e g.flag }

step-IsStuck :
    (job : Job) (l after : Life) → Step false job l after → IsStuck job l → IsStuck job after
unfolding forget_job
step-IsStuck job _ _ (claim l w trigger now e) g = elim (no_claim job l g e) [ ]
step-IsStuck job _ _ (start l w n hw ha hc) g =
    elim (nothing l.waiting n (none_of job l g).0 hw) [ ]
step-IsStuck job _ _ (retry l w number a message n h) g =
    elim (nothing l.attending n (none_of job l g).1 h) [ ]
step-IsStuck job _ _ (success l w number a summary item_count n h) g =
    elim (nothing l.attending n (none_of job l g).1 h) [ ]
step-IsStuck job _ _ (failure l w number a skipped message n h) g =
    elim (nothing l.attending n (none_of job l g).1 h) [ ]
step-IsStuck job _ _ (expire l n h) g = elim (nothing l.attending n (none_of job l g).1 h) [ ]
step-IsStuck job _ _ (close l w number a skipped message n h) g =
    elim (nothing l.closing n (none_of job l g).2 h) [ ]
step-IsStuck job _ _ (settle l n h) g = record { none_there = g.none_there; flag = g.flag }
step-IsStuck job _ _ (overlap l w scheduled_at now) g =
    with_cache job l (record_busy_skipped_run w.platform job scheduled_at now w.run_id l.state)
      (ap (lookup job.name)
        (record_busy-KeepsJobs w.platform job scheduled_at now w.run_id l.state).0)
      g
step-IsStuck job _ _ (skip l c scheduled_at) g = record {
  none_there = g.none_there;
  flag =
      (record_slot-Flagged (record c { job = job }) scheduled_at l.state).1
      ∙ derived_running job.name l.state g.flag;
}
step-IsStuck job _ _ (no_work l w now e) g = elim (no_claim job l g (e refl)) [ ]
step-IsStuck job _ _ (elsewhere l st hc ha) g = with_cache job l st hc g

Steps-IsStuck :
    (job : Job) (l after : Life) → Steps false job l after → IsStuck job l → IsStuck job after
Steps-IsStuck job _ _ (done l) g = g
Steps-IsStuck job _ _ (next l middle after s rest) g =
    Steps-IsStuck job middle after rest (step-IsStuck job l middle s g)

-- A slot that is reported as missed or as overlapping while a handler of its job goes on after its
-- deadline, and that is recorded: the mark of the abandoned handler is stored as if a run were going on.
-- From the state that is left once this handler has settled, where no execution of the job waits, is
-- attended or is being closed and no schedule of it waits for the answer that there is no work, no step of
-- the job's life leads to another execution: in every state that can be reached the job counts as in
-- flight, and nothing of it is there.
pub skipped_stays_in_flight :
    (c : SkippedCall) (st : SchedulerState) (rows : List LockRow) (after : Life)
    → (record_skipped_schedule_execution c st rows).0 ≡ recorded
    → has_abandoned_run c.job.name (c.while_loading (log_skip c st)) ≡ true
    → Steps false c.job
        (at_rest (forget_job c.job.name (record_skipped_schedule_execution c st rows).1))
        after
    → (in_flight c.job.name after.state ≡ true)
      × (after.waiting + after.attending + after.closing ≡ 0)
unfolding record_skipped_schedule_execution forget_job
skipped_stays_in_flight c st rows after e h steps =
    let scheduled_at = scheduler_slot_iso c.platform (slot_time c) in
    let logged = c.while_loading (log_skip c st) in
    let lock =
      acquire_scheduler_execution_lock c.platform c.text_lt (c.platform.to_iso c.now) c.pid
        (record { command_key = scheduler_command_key c.job.name; scheduled_at = scheduled_at })
        rows in
    let marked = record_slot c scheduled_at logged in
    let state : (record_skipped_schedule_execution c st rows).1 ≡ marked =
      recorded_state (is_future c) (not lock.0) (recovers c) st logged marked rows lock.1 e in
    let flagged =
      (record_slot-Flagged c scheduled_at logged).1 ∙ abandoned_running c.job.name logged h in
    let stuck = Steps-IsStuck c.job _ after steps (record {
      none_there = refl;
      flag = ap (λ s. (saved_of c.job.name s).running) state ∙ flagged;
    }) in
    (running_in_flight c.job.name after.state stuck.flag, stuck.none_there)
