-- ===== src/Scheduler/Samples.antt =====
-- A job, a run of it and a state of the scheduler, at which the theorems are applied.
use bfrost.Prelude.{ℕ, true, false, none, some, [], ◌∷◌, ◌==◌, if◌then◌else◌}
use bfrost.Examples.{clock}
use bfrost.Runs.{manual, schedule}
use bfrost.Scheduler.Runtime.{Job, SchedulerState}
use bfrost.Scheduler.Work.{Work, Attempt, returned, threw}
use bfrost.Scheduler.Trigger.{Call, not_ready}

abbrev pub digest_job : Job
digest_job = record { name = "digest"; label = "Digest"; model_alias = "local" }

abbrev pub boot_state : SchedulerState
boot_state = record {
  runtime_cache = [];
  abandoned_job_runs = [];
  persisted = [];
  runs = [];
  events = [];
}

abbrev pub digest_work : Work
digest_work = record {
  known = "digest" ∷ "sync" ∷ [];
  platform = clock;
  job = digest_job;
  trigger = manual;
  started_at = "2026-01-02";
  run_id = some "r1";
  retry_policy = record { max_retries = 2; initial_backoff_ms = 1000; max_backoff_ms = 30000 };
  job_timeout_ms = 900000;
  notify_on_completion = true;
  while_waiting = λ wait st. st;
}

-- The first attempt throws, and the others return.
abbrev pub second_try : ℕ → Attempt
second_try number = record {
  started_at = "2026-01-02";
  finished_at = "2026-01-03";
  outcome = if number == 1 then threw "no answer" else returned "three items" (some 3);
  jitter = λ base. base;
  meanwhile = λ st. st;
}

-- A slot of the job's schedule, for which the worker has no work.
abbrev pub slot_call : Call
slot_call = record {
  known = "digest" ∷ "sync" ∷ [];
  platform = clock;
  text_lt = λ a b. false;
  pid = 7;
  job = digest_job;
  trigger = schedule;
  scheduled_at = none;
  lock_already_acquired = false;
  slot = "2026-01-02";
  now = "2026-01-02";
  run_id = some "r2";
  worker_enabled = true;
  check = not_ready;
  while_locking = λ st. st;
  while_checking = λ st. st;
}
