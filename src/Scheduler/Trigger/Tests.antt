-- ===== src/Scheduler/Trigger/Tests.antt =====
-- The theorem on the trace of a slot, at a slot without work.
use bfrost.Prelude.{refl, [], true, ◌≡◌}
use bfrost.Scheduler.Samples.{slot_call, boot_state}
use bfrost.Scheduler.Trigger.{run_job, lock_slot}
use bfrost.Locks.Execution.{
  acquire_scheduler_execution_lock, prune_scheduler_execution_locks, insert_or_ignore,
}
use bfrost.Scheduler.Trigger.Laws.{Traced, run_job-Traced}
use bfrost.Scheduler.Runtime.Events.{Extends-refl}

slot_free : (lock_slot slot_call []).0 ≡ true
unfolding acquire_scheduler_execution_lock prune_scheduler_execution_locks insert_or_ignore
slot_free = refl

run_job-Traced_example :
    Traced slot_call.job
      (run_job slot_call boot_state []).0
      boot_state
      (run_job slot_call boot_state []).1
run_job-Traced_example =
    run_job-Traced slot_call boot_state [] refl refl slot_free refl Extends-refl Extends-refl
