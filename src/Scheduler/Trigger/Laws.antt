-- ===== src/Scheduler/Trigger/Laws.antt =====
-- The trace of a slot (src/scheduler.ts).
use bfrost.Prelude.{
  Bool, true, false, List, ◌≡◌, refl, Bool-cases, inl, inr, arith, if◌then◌else◌, subst, sym,
}
use bfrost.Runs.{schedule}
use bfrost.Scheduler.Runtime.{
  Job, SchedulerState, record_no_work_skipped_run, build_job_state, record_event,
}
use bfrost.Scheduler.Runtime.Events.{
  Adds, Extends, Adds-Extends, Extends-trans, mark_job_queued-Adds, record_busy-Adds,
  record_no_work-Adds,
}
use bfrost.Scheduler.Trigger.{
  Call, TriggerEnd, WorkCheck, duplicate, no_work_ready, accepted, busy, disabled, no_check, ready,
  not_ready, check_failed, in_flight, should_run_job, coalesce, claim, run_unlocked, run_job,
  is_manual, LockRow, lock_slot, has_work_failed, is_schedule,
}

-- What the end of a schedule's trigger adds to the log.
abbrev pub Traced : Job → TriggerEnd → SchedulerState → SchedulerState → Type 0
Traced job accepted st after = Adds job "queued" st after
Traced job busy st after = Adds job "overlap_skipped" st after
Traced job no_work_ready st after = Adds job "skipped" st after
Traced job _ st after = ⊥

abbrev pub KeepsLog : (SchedulerState → SchedulerState) → Type 0
KeepsLog f = (st : SchedulerState) → Extends st (f st)

Traced-Extends :
    (job : Job) (end : TriggerEnd) (st middle after : SchedulerState)
    → Extends st middle
    → Traced job end middle after
    → Traced job end st after
Traced-Extends job accepted st middle after = Adds-Extends job "queued" st middle after
Traced-Extends job busy st middle after = Adds-Extends job "overlap_skipped" st middle after
Traced-Extends job no_work_ready st middle after = Adds-Extends job "skipped" st middle after
Traced-Extends job duplicate st middle after = λ x t. t
Traced-Extends job disabled st middle after = λ x t. t

module _ (c : Call) (scheduled : c.trigger ≡ schedule) (enabled : c.worker_enabled ≡ true)
    (checking : KeepsLog c.while_checking) where
  coalesce-Traced : (st : SchedulerState) → Traced c.job (coalesce c st).0 st (coalesce c st).1
  unfolding coalesce
  coalesce-Traced st =
      rw (coalesce, scheduled) (record_busy-Adds c.platform c.job c.scheduled_at c.now c.run_id st)

  claim-Traced : (st : SchedulerState) → Traced c.job (claim c st).0 st (claim c st).1
  unfolding claim
  claim-Traced st = elim (Bool-cases (in_flight c.job.name st)) [
    | inl e ↦ rw (claim, e) (coalesce-Traced st)
    | inr e ↦
        rw (claim, e)
          (mark_job_queued-Adds c.known c.job (build_job_state c.job.name st) c.trigger c.now st)
  ]

  -- The last part of a trigger that found its job idle.
  abbrev checked : Bool × SchedulerState → TriggerEnd × SchedulerState
  checked r = if r.0 then claim c r.1 else (no_work_ready, r.1)

  abbrev TracedCheck : SchedulerState → Bool × SchedulerState → Type 0
  TracedCheck st r = Traced c.job (checked r).0 st (checked r).1

  claimed : (st middle : SchedulerState) → Extends st middle → TracedCheck st (true, middle)
  claimed st middle h =
      Traced-Extends c.job (claim c middle).0 st middle (claim c middle).1 h (claim-Traced middle)

  checked-Traced :
      (check : WorkCheck) (st : SchedulerState)
      → c.check ≡ check
      → TracedCheck st (should_run_job c st)
  unfolding should_run_job
  checked-Traced no_check st e =
      let answer : should_run_job c st ≡ (true, st) = rw (should_run_job, e) refl in
      subst (TracedCheck st) (sym answer) (claim-Traced st)
  checked-Traced ready st e =
      let answer : should_run_job c st ≡ (true, c.while_checking st) =
        rw (should_run_job, e) refl in
      subst (TracedCheck st) (sym answer) (claimed st (c.while_checking st) (checking st))
  checked-Traced check_failed st e =
      let waited = c.while_checking st in
      let logged = record_event (has_work_failed c) waited in
      let answer : should_run_job c st ≡ (true, logged) = rw (should_run_job, e) refl in
      subst (TracedCheck st) (sym answer)
        (claimed st logged (Extends-trans st waited logged (checking st) (_, refl)))
  checked-Traced not_ready st e =
      let waited = c.while_checking st in
      let skipped = record_no_work_skipped_run c.known c.platform c.job c.now c.run_id waited in
      let answer : should_run_job c st ≡ (false, skipped) =
        rw (should_run_job, e, is_schedule, scheduled) refl in
      subst (TracedCheck st) (sym answer) (
        Adds-Extends c.job "skipped" st waited skipped (checking st)
          (record_no_work-Adds c.known c.platform c.job c.now c.run_id waited))

  run_unlocked-Traced :
      (st : SchedulerState) → Traced c.job (run_unlocked c st).0 st (run_unlocked c st).1
  unfolding run_unlocked
  run_unlocked-Traced st = elim (Bool-cases (in_flight c.job.name st)) [
    | inl e ↦ rw (run_unlocked, e) (coalesce-Traced st)
    | inr e ↦
        let idle : run_unlocked c st ≡ checked (should_run_job c st) =
          rw (run_unlocked, e, enabled, is_manual, scheduled) refl in
        subst (λ r. Traced c.job r.0 st r.1) (sym idle) (checked-Traced c.check st refl)
  ]

-- A schedule that is triggered without a lock taken before, whose slot's lock is free, and whose worker
-- is enabled: whatever happens while it waits, as long as nothing is taken from the log, the slot leaves
-- an event of its own about the job. The job is queued, or the slot is skipped for want of work, or as
-- an overlap with a run in flight.
pub run_job-Traced :
    (c : Call) (st : SchedulerState) (rows : List LockRow)
    → c.trigger ≡ schedule
    → c.lock_already_acquired ≡ false
    → (lock_slot c rows).0 ≡ true
    → c.worker_enabled ≡ true
    → KeepsLog c.while_locking
    → KeepsLog c.while_checking
    → Traced c.job (run_job c st rows).0 st (run_job c st rows).1
unfolding run_job
run_job-Traced c st rows scheduled unlocked free enabled locking checking =
    let waited = c.while_locking st in
    let run = run_unlocked c waited in
    let taken : run_job c st rows ≡ (run.0, run.1, (lock_slot c rows).1) =
      ground (arith, scheduled, unlocked, free) in
    subst (λ r. Traced c.job r.0 st r.1) (sym taken)
      (Traced-Extends c.job run.0 st waited run.1 (locking st)
        (run_unlocked-Traced c scheduled enabled checking waited))
