-- ===== src/Scheduler/Skipped/Tests.antt =====
-- The theorem on recorded slots, at a slot that is missed while a handler goes on after its deadline.
use bfrost.Prelude.{true, false, some, [], ◌∷◌, ◌+◌, ◌≡◌, refl, ◌+◌}
use bfrost.Examples.{clock}
use bfrost.Scheduler.Runtime.{SchedulerState, has_abandoned_run, record_busy_skipped_run}
use bfrost.Scheduler.Work.{forget_job}
use bfrost.Scheduler.Trigger.{in_flight}
use bfrost.Scheduler.Samples.{digest_job, digest_work, boot_state}
use bfrost.Scheduler.Lifecycle.{Life, next, done, overlap}
use bfrost.Scheduler.Lifecycle.Overlap.{at_rest}
use bfrost.Scheduler.Skipped.{
  SkippedCall, missed, recorded, record_skipped_schedule_execution, log_skip,
}
use bfrost.Scheduler.Skipped.Stuck.{skipped_stays_in_flight}

abbrev late_call : SkippedCall
late_call = record {
  known = "digest" ∷ "sync" ∷ [];
  platform = clock;
  text_lt = λ a b. false;
  pid = 7;
  job = digest_job;
  reason = missed;
  context_date = 120000;
  missed_slot = some 60000;
  now = 120500;
  run_id = some "r3";
  automatic_missed_run_recovery = false;
  next_match = λ slot. some (slot + 60000);
  while_loading = λ st. st;
}

abbrev timed_out : SchedulerState
timed_out = record boot_state { abandoned_job_runs = "digest" ∷ [] }

late-recorded : (record_skipped_schedule_execution late_call timed_out []).0 ≡ recorded
unfolding record_skipped_schedule_execution bfrost.Locks.Execution.acquire_scheduler_execution_lock
late-recorded = refl

late-abandoned :
    has_abandoned_run "digest" (late_call.while_loading (log_skip late_call timed_out)) ≡ true
unfolding has_abandoned_run
late-abandoned = refl

-- The settled job after a further slot that finds it in flight.
abbrev settled : Life
settled = at_rest (forget_job "digest" (record_skipped_schedule_execution late_call timed_out []).1)

abbrev refused : Life
refused = record settled {
  state =
      record_busy_skipped_run digest_work.platform digest_job (some "2026-01-03") "2026-01-03"
        digest_work.run_id settled.state;
}

skipped_stays_in_flight_example :
    (in_flight "digest" refused.state ≡ true)
    × (refused.waiting + refused.attending + refused.closing ≡ 0)
skipped_stays_in_flight_example =
    skipped_stays_in_flight late_call timed_out [] refused late-recorded late-abandoned
      (next _ _ _ (overlap settled digest_work (some "2026-01-03") "2026-01-03") (done _))
