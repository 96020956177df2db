-- ===== src/Runs/Tests.antt =====
-- The laws of the run store at two missed runs of a job and a run that was left running.
use bfrost.Prelude.{
  String, none, some, List, [], ◌∷◌, ◌≡◌, refl, arith, Distinct, subst, sym, ap, ◌∙◌,
}
use bfrost.Examples.{clock}
use bfrost.Runs.{
  RunRecord, RunAttempt, RunStatus, AttemptStatus, MissedInput, running, missed, schedule,
  load_scheduler_runs, run_retention, missed_of, record_missed_scheduled_run, with_attempt, run_ids,
  newest_first, is_recoverable_missed_run, later, insert_by_start, is_schedule, clamp_limit,
  is_skipped, is_missed,
}
use bfrost.Runs.Calls.{miss, abandon_all, IsLog, after_run_calls, after_run_calls-IsLog}
use bfrost.Runs.Fold.{IsFolded}
use bfrost.Runs.Missed.{record_missed-folds}
use bfrost.Runs.Attempts.{IsRecorded, with_attempt-IsRecorded}

abbrev first_try : RunAttempt
first_try = record {
  attempt = 1;
  started_at = "2026-01-01";
  finished_at = "2026-01-01";
  status = AttemptStatus.error;
  summary = none;
  error = some "timeout";
  item_count = none;
  next_delay_ms = some 1000;
}

abbrev second_try : RunAttempt
second_try = record first_try { attempt = 2; status = AttemptStatus.success; next_delay_ms = none }

abbrev left_running : RunRecord
left_running = record {
  id = "r1";
  job = "digest";
  label = "Digest";
  trigger = schedule;
  model_alias = "small";
  started_at = "2026-01-03";
  finished_at = none;
  status = running;
  summary = none;
  error = none;
  item_count = none;
  skip_reason = none;
  missed_slot_count = none;
  attempts = first_try ∷ [];
}

abbrev missed_run : String → String → RunRecord
missed_run id started_at = record left_running {
  id = id;
  started_at = started_at;
  finished_at = some started_at;
  status = RunStatus.skipped;
  skip_reason = some missed;
  attempts = [];
}

abbrev stored : List RunRecord
stored = left_running ∷ missed_run "m2" "2026-01-02" ∷ missed_run "m1" "2026-01-01" ∷ []

abbrev new_miss : MissedInput
new_miss = record {
  job = "digest";
  label = "Digest";
  model_alias = "small";
  scheduled_at = "2026-01-04";
  recorded_at = "2026-01-04";
  error = "The machine slept.";
}

loaded : load_scheduler_runs clock stored run_retention ≡ stored
unfolding load_scheduler_runs newest_first insert_by_start later clamp_limit
loaded = refl

two_missed :
    missed_of "digest" stored ≡ missed_run "m2" "2026-01-02" ∷ missed_run "m1" "2026-01-01" ∷ []
unfolding missed_of is_recoverable_missed_run is_schedule is_skipped is_missed
two_missed = refl

stored-IsLog : IsLog clock stored
unfolding later
stored-IsLog = (
  ((1172800000, refl), ((1086400000, refl), ((1000000000, refl), tt))),
  record { bounded = omega arith; sorted = ((refl, (refl, tt)), ((refl, tt), (tt, tt))) },
)

record_missed_example :
    (one : RunRecord) × (missed_of "digest"
        (record_missed_scheduled_run clock stored "m3" new_miss).1
      ≡ one ∷ [])
    × IsFolded clock new_miss (missed_run "m2" "2026-01-02") (missed_run "m1" "2026-01-01" ∷ []) one
record_missed_example =
    record_missed-folds clock stored "m3" new_miss (missed_run "m2" "2026-01-02")
      (missed_run "m1" "2026-01-01" ∷ [])
      (subst (λ runs. Distinct (run_ids runs)) (sym loaded) (refl, (refl, (refl, tt))))
      (ap (missed_of "digest") loaded ∙ two_missed)

after_run_calls_example :
    IsLog clock (
      after_run_calls clock
        (miss "m3" new_miss ∷ abandon_all "2026-01-04" "Restarted." ∷ [])
        stored)
after_run_calls_example =
    after_run_calls-IsLog clock (miss "m3" new_miss ∷ abandon_all "2026-01-04" "Restarted." ∷ [])
      stored ((1259200000, refl), (tt, tt)) stored-IsLog

with_attempt_example :
    IsRecorded second_try (first_try ∷ []) (with_attempt second_try left_running).attempts
with_attempt_example = with_attempt-IsRecorded second_try left_running (tt, tt)
