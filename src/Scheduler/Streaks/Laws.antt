-- ===== src/Scheduler/Streaks/Laws.antt =====
-- The count of a job is its failures in a row (src/scheduler.ts).
use bfrost.Prelude.{
  ℕ, ◌+◌, String, true, false, ◌&&◌, Option, none, some, List, [], ◌∷◌, ◌≡◌, refl, arith, lookup,
  insert, lookup-insert, includes, get_or_else, is_some, keep, str_eq, eq_iff, Bool-cases, inl, inr,
  if◌then◌else◌, ◌∙◌, ap, sym,
}
use bfrost.Runs.{RunRecord}
use bfrost.Scheduler.Streaks.{Tally, is_error, tally_run, tally_runs, compute_consecutive_errors}

-- The finished runs of a job.
abbrev pub finished_of : String → List RunRecord → List RunRecord
finished_of job runs = keep (λ run. is_some run.finished_at && str_eq run.job job) runs

-- The failures before the first run that did not fail.
pub leading_errors : List RunRecord → ℕ
leading_errors [] = 0
leading_errors (run ∷ runs) =
    let rest = leading_errors runs in if is_error run.status then 1 + rest else 0

-- A count with the failures of more finished runs, if there are any.
abbrev pub with_streak : Option ℕ → List RunRecord → Option ℕ
with_streak count [] = count
with_streak count (run ∷ runs) = some (get_or_else count 0 + leading_errors (run ∷ runs))

-- What is to be added after one run.
abbrev pub streak_from : String → List RunRecord → Tally → Option ℕ
streak_from job runs tally =
    if includes tally.settled job
    then lookup job tally.counts
    else with_streak (lookup job tally.counts) (finished_of job runs)

with_streak-error :
    (count : Option ℕ) (run : RunRecord) (runs : List RunRecord)
    → is_error run.status ≡ true
    → with_streak (some (get_or_else count 0 + 1)) runs ≡ with_streak count (run ∷ runs)
unfolding leading_errors
with_streak-error count run [] bad = ap some (ground (arith, bad))
with_streak-error count run (x ∷ runs) bad = ap some (ground (arith, bad))

-- After a failure of a job that is not settled.
tally_error-streak :
    (job : String) (run : RunRecord) (runs : List RunRecord) (tally : Tally)
    → is_some run.finished_at ≡ true
    → includes tally.settled run.job ≡ false
    → is_error run.status ≡ true
    → (if includes tally.settled job
        then lookup job
            (insert run.job (get_or_else (lookup run.job tally.counts) 0 + 1) tally.counts)
        else with_streak
            (lookup job
              (insert run.job (get_or_else (lookup run.job tally.counts) 0 + 1) tally.counts))
            (finished_of job runs))
      ≡ streak_from job (run ∷ runs) tally
tally_error-streak job run runs tally e s bad =
    let added =
      lookup-insert run.job job (get_or_else (lookup run.job tally.counts) 0 + 1) tally.counts in
    elim (Bool-cases (str_eq run.job job)) [
      | inr other ↦ ground (arith, added, other, e)
      | inl same ↦
          let is_job : run.job ≡ job = (eq_iff run.job job).0 same in
          let s_job : includes tally.settled job ≡ false =
            ap (includes tally.settled) (sym is_job) ∙ s in
          let c = ap (λ j. some (get_or_else (lookup j tally.counts) 0 + 1)) is_job in
          let step = with_streak-error (lookup job tally.counts) run (finished_of job runs) bad in
          rw (added, same, s_job, e)
            (ap (λ count. with_streak count (finished_of job runs)) c ∙ step)
    ]

-- After a run of a job that is not settled and did not fail.
tally_good-streak :
    (job : String) (run : RunRecord) (runs : List RunRecord) (tally : Tally)
    → is_some run.finished_at ≡ true
    → includes tally.settled run.job ≡ false
    → is_error run.status ≡ false
    → streak_from job runs record {
      counts =
          if is_some (lookup run.job tally.counts)
          then tally.counts
          else insert run.job 0 tally.counts;
      settled = run.job ∷ tally.settled;
    }
      ≡ streak_from job (run ∷ runs) tally
unfolding leading_errors
tally_good-streak job run runs tally e s good =
    let added = lookup-insert run.job job 0 tally.counts in
    elim (Bool-cases (str_eq run.job job)) [
      | inr other ↦ ground (arith, added, other, e)
      | inl same ↦
          let is_job : run.job ≡ job = (eq_iff run.job job).0 same in
          ground (arith, added, same, e, is_job, s, good)
    ]

tally_run-streak :
    (job : String) (run : RunRecord) (runs : List RunRecord) (tally : Tally)
    → streak_from job runs (tally_run run tally) ≡ streak_from job (run ∷ runs) tally
unfolding tally_run leading_errors
tally_run-streak job run runs tally = elim (Bool-cases (is_some run.finished_at)) [
  | inr e ↦ rw (tally_run, e) (ground (arith, e))
  | inl e ↦ elim (Bool-cases (includes tally.settled run.job)) [
    | inl s ↦ rw (tally_run, e, s) (ground (arith, e, s, eq_iff run.job job))
    | inr s ↦ elim (Bool-cases (is_error run.status)) [
      | inl bad ↦
          let ran : tally_run run tally ≡ record tally {
            counts = insert run.job (get_or_else (lookup run.job tally.counts) 0 + 1) tally.counts;
          } =
            rw (tally_run, e, s, bad) refl in
          ap (streak_from job runs) ran ∙ tally_error-streak job run runs tally e s bad
      | inr good ↦
          let ran : tally_run run tally ≡ record {
            counts =
                if is_some (lookup run.job tally.counts)
                then tally.counts
                else insert run.job 0 tally.counts;
            settled = run.job ∷ tally.settled;
          } =
            rw (tally_run, e, s, good) refl in
          ap (streak_from job runs) ran ∙ tally_good-streak job run runs tally e s good
    ]
  ]
]

tally_runs-streak :
    (job : String) (runs : List RunRecord) (tally : Tally)
    → lookup job (tally_runs runs tally).counts ≡ (
        if includes tally.settled job
        then lookup job tally.counts
        else with_streak (lookup job tally.counts) (finished_of job runs))
unfolding tally_runs
tally_runs-streak job [] tally = ground arith
tally_runs-streak job (run ∷ runs) tally =
    tally_runs-streak job runs (tally_run run tally) ∙ tally_run-streak job run runs tally

-- For every job, the count is none where no run of the job is finished, and otherwise the number of
-- its finished runs before the first that did not fail.
pub compute_consecutive_errors-streak :
    (runs : List RunRecord) (job : String)
    → lookup job (compute_consecutive_errors runs) ≡ with_streak none (finished_of job runs)
unfolding compute_consecutive_errors
compute_consecutive_errors-streak runs job =
    tally_runs-streak job runs (record { counts = []; settled = [] })
