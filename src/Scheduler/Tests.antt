-- ===== src/Scheduler/Tests.antt =====
-- The laws of the scheduler at a pool that one run holds, at the slots of an hourly schedule, and at
-- a few runs.
use bfrost.Prelude.{
  ℕ, ◌+◌, ◌*◌, ◌/◌, ◌%◌, Bool, Option, none, some, [], ◌∷◌, ◌≡◌, refl, arith, lookup, ◌==◌, ◌-◌,
}
use bfrost.Scheduler.Pool.{Pool, empty_pool}
use bfrost.Scheduler.Pool.Steps.{
  System, IsSound, start, arrive, request, done, next, after_arrival, after_request,
}
use bfrost.Scheduler.Pool.Sound.{pool-IsSound}
use bfrost.Scheduler.Pool.Fifo.{release_all, acquire_all, release_all-acquire_all}
use bfrost.Scheduler.Cron.{get_previous_cron_match, default_lookback_ms}
use bfrost.Scheduler.Cron.Laws.{Matches, IsLast, get_previous_cron_match-IsLast}
use bfrost.Scheduler.Streaks.{compute_consecutive_errors}
use bfrost.Scheduler.Streaks.Laws.{finished_of, with_streak, compute_consecutive_errors-streak}
use bfrost.Runs.{RunRecord, RunStatus, RunTrigger}

abbrev both_arrived : System
both_arrived = after_arrival "blog" 2 (after_arrival "blog" 1 start)

pool_example : IsSound 1 (after_request 1 3 both_arrived)
pool_example = pool-IsSound 1 (after_request 1 3 both_arrived) (
    next (arrive "blog" 1 start) (
      next (arrive "blog" 2 (after_arrival "blog" 1 start))
        (next (request 3 both_arrived) (done (after_request 1 3 both_arrived)))))

abbrev held : Pool
held = record empty_pool { busy_workers = "blog" ∷ [] }

fifo_example :
    release_all "blog" (2 ∷ 3 ∷ []) (acquire_all "blog" (2 ∷ 3 ∷ []) held) ≡ some 2 ∷ some 3 ∷ []
fifo_example = release_all-acquire_all "blog" (2 ∷ 3 ∷ []) held refl refl

abbrev hour : ℕ
hour = 3600000

abbrev on_the_hour : ℕ → Bool
on_the_hour t = t % hour == 0

abbrev next_hour : ℕ → Option ℕ
next_hour t = some ((t / hour + 1) * hour)

hourly : Matches on_the_hour next_hour
hourly = record {
  next = λ t. ((t / hour + 1) * hour, refl, omega arith, ground arith);
  nearest = λ t n k e s h. ground (arith, e);
  spaced = λ a b s r h. ground (arith);
}

cron_example :
    IsLast on_the_hour
      (1000000000000 - default_lookback_ms)
      1000000000000
      (get_previous_cron_match (some next_hour) 1000000000000 none none)
cron_example =
    get_previous_cron_match-IsLast on_the_hour next_hour hourly 1000000000000 (omega arith)

abbrev failed_run : RunRecord
failed_run = record {
  id = "r1";
  job = "digest";
  label = "Digest";
  trigger = RunTrigger.schedule;
  model_alias = "small";
  started_at = "2026-01-03";
  finished_at = some "2026-01-03";
  status = RunStatus.error;
  summary = none;
  error = some "timeout";
  item_count = none;
  skip_reason = none;
  missed_slot_count = none;
  attempts = [];
}

streak_example :
    lookup "digest" (
      compute_consecutive_errors
        (failed_run ∷ failed_run ∷ record failed_run { status = RunStatus.success } ∷ []))
    ≡ with_streak none (
        finished_of "digest"
          (failed_run ∷ failed_run ∷ record failed_run { status = RunStatus.success } ∷ []))
streak_example =
    compute_consecutive_errors-streak
      (failed_run ∷ failed_run ∷ record failed_run { status = RunStatus.success } ∷ []) "digest"
