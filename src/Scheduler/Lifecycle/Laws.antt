-- ===== src/Scheduler/Lifecycle/Laws.antt =====
-- At most one handler of a job (src/scheduler.ts).
use bfrost.Prelude.{
  ℕ, suc, ◌+◌, ◌≤◌, String, true, false, ◌≡◌, refl, lookup, get_or_else, arith, ap, ◌∙◌, includes,
}
use bfrost.Scheduler.Runtime.{Job, SchedulerState, build_job_state, has_abandoned_run, no_runtime}
use bfrost.Scheduler.Runtime.Flags.{
  KeepsJobs, saved_of, derived_running, record_busy-KeepsJobs, mark_job_queued-Flagged,
  begin_job-Flagged,
}
use bfrost.Scheduler.Work.Flags.{
  retry_later-KeepsJobs, fail-abandoned, abandon_job-has, abandon_job-cache,
}
use bfrost.Scheduler.Work.{forget_job}
use bfrost.Scheduler.Trigger.{in_flight}
use bfrost.Scheduler.Skipped.Flags.{record_slot-Flagged}
use bfrost.Scheduler.Lifecycle.{
  Life, Step, Steps, done, next, claim, start, retry, success, failure, expire, close, settle,
  overlap, skip, no_work, elsewhere, of_job, retry_later, succeed, fail, record_busy_skipped_run,
  record_no_work_skipped_run,
}

-- The executions of a job exclude each other, and its state tells of each of them.
pub record IsGuarded (job : Job) (l : Life) : Type 0 where
  pub one_handler : l.waiting + l.attending + l.orphans ≤ 1
  pub one_run : l.waiting + l.attending + l.closing ≤ 1
  pub queued : 1 ≤ l.waiting → (saved_of job.name l.state).queued ≡ true
  pub running : 1 ≤ l.attending + l.closing → (saved_of job.name l.state).running ≡ true
  pub orphaned : 1 ≤ l.orphans → has_abandoned_run job.name l.state ≡ true

idle_flags :
    (name : String) (st : SchedulerState)
    → in_flight name st ≡ false
    → ((saved_of name st).queued ≡ false)
      × ((saved_of name st).running ≡ false)
      × (has_abandoned_run name st ≡ false)
unfolding in_flight build_job_state
idle_flags name st e = (ground (arith, e), ground (arith, e), ground (arith, e))

-- No execution at all, where the job's state tells of none.
pub record Idle (l : Life) : Type 0 where
  pub waiting : l.waiting ≡ 0
  pub attending : l.attending ≡ 0
  pub closing : l.closing ≡ 0
  pub orphans : l.orphans ≡ 0

Idle-guard : (job : Job) (l : Life) → IsGuarded job l → in_flight job.name l.state ≡ false → Idle l
Idle-guard job l g e =
    let flags = idle_flags job.name l.state e in
    record {
      waiting = ground (arith, g.queued, flags.0);
      attending = ground (arith, g.running, flags.1);
      closing = ground (arith, g.running, flags.1);
      orphans = ground (arith, g.orphaned, flags.2);
    }

none_left : (n : ℕ) → n ≡ 0 → 1 ≤ n → ⊥
none_left n e h = omega (arith, e, h)

-- A change of the state that keeps what it tells of the job.
keeps-IsGuarded :
    (job : Job) (l : Life) (st : SchedulerState)
    → lookup job.name st.runtime_cache ≡ lookup job.name l.state.runtime_cache
    → has_abandoned_run job.name st ≡ has_abandoned_run job.name l.state
    → IsGuarded job l
    → IsGuarded job (record l { state = st })
keeps-IsGuarded job l st hc ha g = record {
  one_handler = g.one_handler;
  one_run = g.one_run;
  queued = λ h. rw hc (g.queued h);
  running = λ h. rw hc (g.running h);
  orphaned = λ h. rw ha (g.orphaned h);
}

Idle-IsGuarded : (job : Job) (l : Life) → Idle l → IsGuarded job l
Idle-IsGuarded job l idle = record {
  one_handler = omega (arith, idle.waiting, idle.attending, idle.orphans);
  one_run = omega (arith, idle.waiting, idle.attending, idle.closing);
  queued = λ h. elim (none_left l.waiting idle.waiting h) [ ];
  running = λ h.
      elim (none_left (l.attending + l.closing) (omega (arith, idle.attending, idle.closing))
        h) [ ];
  orphaned = λ h. elim (none_left l.orphans idle.orphans h) [ ];
}

KeepsJobs-IsGuarded :
    (job : Job) (l : Life) (st : SchedulerState)
    → KeepsJobs l.state st
    → IsGuarded job l
    → IsGuarded job (record l { state = st })
unfolding has_abandoned_run
KeepsJobs-IsGuarded job l st kept =
    keeps-IsGuarded job l st (ap (lookup job.name) kept.0)
      (ap (λ names. includes names job.name) kept.1)

-- The only execution, once it is over.
last_run :
    (l : Life) (st : SchedulerState) (n : ℕ)
    → l.attending ≡ suc n
    → l.waiting + l.attending + l.orphans ≤ 1
    → l.waiting + l.attending + l.closing ≤ 1
    → Idle (record l { state = st; attending = n })
last_run l st n h handler run = record {
  waiting = omega (arith, h, handler);
  attending = omega (arith, h, handler);
  closing = omega (arith, h, run);
  orphans = omega (arith, h, handler);
}

step-IsGuarded :
    (job : Job) (l after : Life) → Step false job l after → IsGuarded job l → IsGuarded job after
unfolding has_abandoned_run forget_job
step-IsGuarded job _ _ (claim l w trigger now e) g =
    let idle = Idle-guard job l g e in
    let flags =
      mark_job_queued-Flagged w.known job (build_job_state job.name l.state) trigger now l.state in
    record {
      one_handler = omega (arith, idle.waiting, idle.attending, idle.orphans);
      one_run = omega (arith, idle.waiting, idle.attending, idle.closing);
      queued = λ h. flags.0;
      running = λ h. ground (arith, h, idle.attending, idle.closing);
      orphaned = λ h. ground (arith, h, idle.orphans);
    }
step-IsGuarded job _ _ (start l w n hw ha hc) g =
    let flags = begin_job-Flagged w.known w.platform job w.trigger w.started_at w.run_id l.state in
    let room = g.one_handler in
    record {
      one_handler = omega (arith, room, hw);
      one_run = omega (arith, room, hw, hc);
      queued = λ h. elim (none_left n (omega (arith, room, hw)) h) [ ];
      running = λ h. flags.1;
      orphaned = λ h. elim (none_left l.orphans (omega (arith, room, hw)) h) [ ];
    }
step-IsGuarded job _ _ (retry l w number a message n h) g =
    KeepsJobs-IsGuarded job l (retry_later (of_job job w) number a message l.state)
      (retry_later-KeepsJobs (record w { job = job }) number a message l.state) g
step-IsGuarded job _ _ (success l w number a summary item_count n h) g =
    let ended = succeed (of_job job w) number a summary item_count l.state in
    Idle-IsGuarded job (record l { state = ended; attending = n })
      (last_run l ended n h g.one_handler g.one_run)
step-IsGuarded job _ _ (failure l w number a skipped message n h) g =
    let ended = fail (of_job job w) number a skipped message l.state in
    Idle-IsGuarded job (record l { state = ended; attending = n })
      (last_run l ended n h g.one_handler g.one_run)
step-IsGuarded job _ _ (expire l n h) g =
    let idle = last_run l l.state n h g.one_handler g.one_run in
    record {
      one_handler = omega (arith, idle.waiting, idle.attending, idle.orphans);
      one_run = omega (arith, idle.waiting, idle.attending, idle.closing);
      queued = λ waits. elim (none_left l.waiting idle.waiting waits) [ ];
      running = λ runs.
          ap (λ cache. (get_or_else (lookup job.name cache) no_runtime).running)
            (abandon_job-cache job.name l.state)
          ∙ g.running (omega (arith, h));
      orphaned = λ left. abandon_job-has job.name l.state;
    }
step-IsGuarded job _ _ (close l w number a skipped message n h) g = record {
  one_handler = g.one_handler;
  one_run = omega (arith, g.one_run, h);
  queued = λ waits. elim (none_left l.waiting (omega (arith, g.one_run, h)) waits) [ ];
  running = λ runs. elim (none_left (l.attending + n) (omega (arith, g.one_run, h)) runs) [ ];
  orphaned = λ left.
      ap (λ names. includes names job.name)
        (fail-abandoned (record w { job = job }) number a skipped message l.state)
      ∙ g.orphaned left;
}
step-IsGuarded job _ _ (settle l n h) g = record {
  one_handler = omega (arith, g.one_handler, h);
  one_run = g.one_run;
  queued = λ waits. elim (none_left l.waiting (omega (arith, g.one_handler, h)) waits) [ ];
  running = λ runs. g.running runs;
  orphaned = λ left. elim (none_left n (omega (arith, g.one_handler, h)) left) [ ];
}
step-IsGuarded job _ _ (overlap l w scheduled_at now) g =
    KeepsJobs-IsGuarded job l
      (record_busy_skipped_run w.platform job scheduled_at now w.run_id l.state)
      (record_busy-KeepsJobs w.platform job scheduled_at now w.run_id l.state) g
step-IsGuarded job _ _ (skip l c scheduled_at) g =
    let flags = record_slot-Flagged (record c { job = job }) scheduled_at l.state in
    record {
      one_handler = g.one_handler;
      one_run = g.one_run;
      queued = λ h. flags.0 ∙ g.queued h;
      running = λ h. flags.1 ∙ derived_running job.name l.state (g.running h);
      orphaned = λ h. ap (λ names. includes names job.name) flags.2 ∙ g.orphaned h;
    }
step-IsGuarded job _ _ (no_work l w now e) g =
    let idle = Idle-guard job l g (e refl) in
    Idle-IsGuarded job
      (record l { state = record_no_work_skipped_run w.known w.platform job now w.run_id l.state })
      (record {
        waiting = idle.waiting;
        attending = idle.attending;
        closing = idle.closing;
        orphans = idle.orphans;
      })
step-IsGuarded job _ _ (elsewhere l st hc ha) g = keeps-IsGuarded job l st hc ha g

-- From a state in which the executions of a job exclude each other, and its state tells of each of them:
-- as long as no other trigger claims the job while a schedule waits for the answer that there is no work,
-- every sequence of claims, starts, retries, ends, deadlines, late settlements, skips and slots that are missed leaves it so. Of
-- the handler that is waited for and the handlers that went on after their deadline there is at most one.
pub Steps-IsGuarded :
    (job : Job) (l after : Life) → Steps false job l after → IsGuarded job l → IsGuarded job after
Steps-IsGuarded job _ _ (done l) g = g
Steps-IsGuarded job _ _ (next l middle after s rest) g =
    Steps-IsGuarded job middle after rest (step-IsGuarded job l middle s g)
