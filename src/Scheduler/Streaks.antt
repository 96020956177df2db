-- ===== src/Scheduler/Streaks.antt =====
-- The failures in a row of each job (`computeConsecutiveErrors` of src/scheduler.ts). A record of the
-- source is an association list; a job's name is none of the names that every object has.
pub mod Laws
use bfrost.Prelude.{
  ℕ, ◌+◌, String, Bool, true, false, not, Option, none, some, List, [], ◌∷◌, lookup, insert,
  includes, get_or_else, is_some, if◌then◌else◌,
}
use bfrost.Runs.{RunRecord, RunStatus}

-- The counts, and the jobs that are settled.
pub record Tally : Type 0 where
  pub counts : List (String × ℕ)
  pub settled : List String

pub is_error : RunStatus → Bool
is_error RunStatus.error = true
is_error _ = false

pub tally_run : RunRecord → Tally → Tally
unfolding is_error
tally_run run tally =
    if not (is_some run.finished_at)
    then tally
    else if includes tally.settled run.job
    then tally
    else if is_error run.status
    then record tally {
      counts = insert run.job (get_or_else (lookup run.job tally.counts) 0 + 1) tally.counts;
    }
    else record {
      counts =
          if is_some (lookup run.job tally.counts)
          then tally.counts
          else insert run.job 0 tally.counts;
      settled = run.job ∷ tally.settled;
    }

pub tally_runs : List RunRecord → Tally → Tally
unfolding tally_run
tally_runs [] tally = tally
tally_runs (run ∷ runs) tally = tally_runs runs (tally_run run tally)

pub compute_consecutive_errors : List RunRecord → List (String × ℕ)
unfolding tally_runs
compute_consecutive_errors runs = (tally_runs runs (record { counts = []; settled = [] })).counts
