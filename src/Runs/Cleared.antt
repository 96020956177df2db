-- ===== src/Runs/Cleared.antt =====
-- What the operations that clear runs leave behind (src/scheduler-runs.ts).
use bfrost.Prelude.{
  String, Bool, false, not, List, [], ◌∷◌, ◌≡◌, refl, All, Bool-cases, inl, inr, keep, sym,
  keep-here, ◌∙◌, keep-skip,
}
use bfrost.Platform.{Platform}
use bfrost.Runs.{
  RunRecord, save_runs, load_scheduler_runs, run_retention, dismiss_skipped_scheduled_runs_for_jobs,
  abandon_running_scheduler_runs, update_where, abandon, is_abandoned, save_unless_empty,
  dismisses_job,
}
use bfrost.Runs.Laws.{All-take, All-newest_first}
use bfrost.Runs.Calls.{All-load}

None-keep-not :
    (test : RunRecord → Bool) (runs : List RunRecord)
    → All (λ run. test run ≡ false) (keep (λ run. not (test run)) runs)
None-keep-not test [] = tt
None-keep-not test (x ∷ runs) = elim (Bool-cases (test x)) [
  | inl e ↦ rw e (None-keep-not test runs)
  | inr e ↦ rw e (e, None-keep-not test runs)
]

None-keep :
    (test : RunRecord → Bool) (runs : List RunRecord)
    → keep test runs ≡ []
    → All (λ run. test run ≡ false) runs
None-keep test [] h = tt
None-keep test (x ∷ runs) h = elim (Bool-cases (test x)) [
  | inl e ↦ let absurd = sym (keep-here test x runs e) ∙ h in cc
  | inr e ↦ (e, None-keep test runs (sym (keep-skip test x runs e) ∙ h))
]

None-update :
    (test : RunRecord → Bool) (f : RunRecord → RunRecord)
    → ((x : RunRecord) → test (f x) ≡ false)
    → (runs : List RunRecord) → All (λ run. test run ≡ false) (update_where test f runs)
unfolding update_where
None-update test f h [] = tt
None-update test f h (x ∷ runs) = elim (Bool-cases (test x)) [
  | inl e ↦ rw e (h x, None-update test f h runs)
  | inr e ↦ rw e (e, None-update test f h runs)
]

-- A write of `next` because something was taken leaves no run that the test takes.
save_unless_empty-none :
    (p : Platform) (test : RunRecord → Bool) (stored next found : List RunRecord)
    → found ≡ keep test (load_scheduler_runs p stored run_retention)
    → All (λ run. test run ≡ false) next
    → All
        (λ run. test run ≡ false)
        (load_scheduler_runs p (save_unless_empty p found stored next) run_retention)
unfolding save_unless_empty save_runs
save_unless_empty-none p test stored next [] e n = None-keep test _ (sym e)
save_unless_empty-none p test stored next (x ∷ found) e n =
    All-load _ p _ _ (All-take _ run_retention _ (All-newest_first _ p next n))

-- After the missed runs of some jobs are dismissed, no run that is loaded is a recoverable missed run
-- of one of these jobs.
pub dismiss_jobs-none :
    (p : Platform) (stored : List RunRecord) (job : String) (jobs : List String)
    → All
        (λ run. dismisses_job (job ∷ jobs) run ≡ false)
        (load_scheduler_runs p
          (dismiss_skipped_scheduled_runs_for_jobs p stored (job ∷ jobs)).1
          run_retention)
unfolding dismiss_skipped_scheduled_runs_for_jobs
dismiss_jobs-none p stored job jobs =
    save_unless_empty-none p (dismisses_job (job ∷ jobs)) stored _ _ refl
      (None-keep-not (dismisses_job (job ∷ jobs)) (load_scheduler_runs p stored run_retention))

-- After the runs that were left running are abandoned, no run that is loaded is running without an end.
pub abandon-none :
    (p : Platform) (stored : List RunRecord) (finished_at message : String)
    → All
        (λ run. is_abandoned run ≡ false)
        (load_scheduler_runs p
          (abandon_running_scheduler_runs p stored finished_at message).1
          run_retention)
unfolding abandon_running_scheduler_runs abandon is_abandoned
abandon-none p stored finished_at message = save_unless_empty-none p is_abandoned stored _ _ refl (
    None-update is_abandoned (abandon finished_at message) (λ x. refl)
      (load_scheduler_runs p stored run_retention))
