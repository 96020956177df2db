-- ===== src/Scheduler/Lifecycle/Tests.antt =====
-- The theorems on the life of a job, at a job that is claimed and started.
use bfrost.Prelude.{refl, ◌≡◌, true, false, ◌+◌, arith}
use bfrost.Runs.{manual}
use bfrost.Scheduler.Samples.{digest_job, digest_work, second_try, boot_state}
use bfrost.Scheduler.Runtime.{build_job_state, mark_job_queued, begin_job}
use bfrost.Scheduler.Trigger.{in_flight}
use bfrost.Scheduler.Lifecycle.{Life, Steps, claim, start, next, done}
use bfrost.Scheduler.Lifecycle.Laws.{IsGuarded, Steps-IsGuarded}
use bfrost.Scheduler.Lifecycle.Overlap.{at_rest, two_handlers}

boot_idle : in_flight "digest" boot_state ≡ false
unfolding in_flight build_job_state
boot_idle = refl

abbrev started : Life
started = record {
  state =
      begin_job digest_work.known digest_work.platform digest_job digest_work.trigger
        digest_work.started_at digest_work.run_id
        (mark_job_queued digest_work.known digest_job (build_job_state "digest" boot_state) manual
          "2026-01-02" boot_state);
  waiting = 0;
  attending = 1;
  closing = 0;
  orphans = 0;
}

boot-IsGuarded : IsGuarded digest_job (at_rest boot_state)
boot-IsGuarded = record {
  one_handler = omega arith;
  one_run = omega arith;
  queued = λ h. ground (arith, h);
  running = λ h. ground (arith, h);
  orphaned = λ h. ground (arith, h);
}

Steps-IsGuarded_example : IsGuarded digest_job started
Steps-IsGuarded_example =
    Steps-IsGuarded digest_job (at_rest boot_state) started
      (next _ _ _ (claim (at_rest boot_state) digest_work manual "2026-01-02" boot_idle)
        (next _ _ _ (start _ digest_work 0 refl refl refl) (done _)))
      boot-IsGuarded

two_handlers_example :
    (after : Life) × (Steps true digest_job (at_rest boot_state) after)
    × (after.attending + after.orphans ≡ 2)
two_handlers_example =
    two_handlers digest_job digest_work (second_try 1) "2026-01-02" boot_state boot_idle
