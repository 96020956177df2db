-- ===== src/Runs/Calls.antt =====
-- The writes of the run store, one after the other (src/scheduler-runs.ts).
use bfrost.Prelude.{
  not, includes, ℕ, String, Bool, List, [], ◌∷◌, ◌≡◌, All, Bool-cases, inl, inr, keep, All-keep,
  some, Option-cases, str_eq,
}
use bfrost.Platform.{Platform}
use bfrost.Runs.{
  run_ids, RunRecord, RunAttempt, StartInput, FinishInput, MissedInput, save_runs,
  load_scheduler_runs, run_retention, start_scheduler_run, record_scheduler_run_attempt,
  finish_scheduler_run, record_missed_scheduled_run, dismiss_skipped_scheduler_run,
  dismiss_skipped_scheduled_runs_for_jobs, abandon_running_scheduler_runs, update_run, update_where,
  with_attempt, finished, abandon, is_abandoned, save_unless_empty, record_missed_in, fold_missed,
  collapsed, new_missed, missed_of, dismisses, last_updated, is_newer_slot,
}
use bfrost.Runs.Laws.{IsRetained, Dated, All-take, All-newest_first, save_runs-IsRetained}

-- A call of one of the exported functions that write.
pub data RunCall : Type 0 where
  start : String → StartInput → RunCall
  attempt : String → RunAttempt → RunCall
  finish : String → FinishInput → RunCall
  miss : String → MissedInput → RunCall
  dismiss : String → RunCall
  dismiss_jobs : List String → RunCall
  abandon_all : String → String → RunCall

-- The runs that are stored after a call.
pub after_call : Platform → RunCall → List RunRecord → List RunRecord
after_call p (start id input) stored = (start_scheduler_run p stored id input).1
after_call p (attempt id a) stored = (record_scheduler_run_attempt p stored id a).1
after_call p (finish id input) stored = (finish_scheduler_run p stored id input).1
after_call p (miss id input) stored = (record_missed_scheduled_run p stored id input).1
after_call p (dismiss id) stored = (dismiss_skipped_scheduler_run p stored id).1
after_call p (dismiss_jobs jobs) stored = (dismiss_skipped_scheduled_runs_for_jobs p stored jobs).1
after_call p (abandon_all at message) stored =
    (abandon_running_scheduler_runs p stored at message).1

pub after_run_calls : Platform → List RunCall → List RunRecord → List RunRecord
unfolding after_call
after_run_calls p [] stored = stored
after_run_calls p (call ∷ calls) stored = after_run_calls p calls (after_call p call stored)

-- The time that a call brings into the store can be read.
abbrev pub CallDated : Platform → RunCall → Type 0
CallDated p (start id input) = (t : ℕ) × (p.date_parse input.started_at ≡ some t)
CallDated p (miss id input) = (t : ℕ) × (p.date_parse input.scheduled_at ≡ some t)
CallDated p _ = Unit {0}

-- What is known of the stored runs: their times are readable, and they are as every write leaves them.
abbrev pub IsLog : Platform → List RunRecord → Type 0
IsLog p stored = All (Dated p) stored × IsRetained p stored

pub All-load :
    (P : RunRecord → Type 0) (p : Platform) (n : ℕ) (stored : List RunRecord)
    → All P stored
    → All P (load_scheduler_runs p stored n)
unfolding load_scheduler_runs
All-load P p n stored a = All-take P _ _ (All-newest_first P p stored a)

All-update :
    (P : RunRecord → Type 0) (test : RunRecord → Bool) (f : RunRecord → RunRecord)
    → ((x : RunRecord) → P x → P (f x))
    → (runs : List RunRecord) → All P runs
    → All P (update_where test f runs)
unfolding update_where
All-update P test f h [] a = tt
All-update P test f h (x ∷ runs) a = elim (Bool-cases (test x)) [
  | inl e ↦ rw e (h x a.0, All-update P test f h runs a.1)
  | inr e ↦ rw e (a.0, All-update P test f h runs a.1)
]

save_runs-IsLog :
    (p : Platform) (runs : List RunRecord) → All (Dated p) runs → IsLog p (save_runs p runs)
unfolding save_runs
save_runs-IsLog p runs d = (
  All-take (Dated p) run_retention _ (All-newest_first (Dated p) p runs d),
  save_runs-IsRetained p runs d,
)

update_run-IsLog :
    (p : Platform) (stored : List RunRecord) (id : String) (f : RunRecord → RunRecord)
    → ((x : RunRecord) → Dated p x → Dated p (f x))
    → IsLog p stored
    → IsLog p (update_run p stored id f).1
unfolding update_run
update_run-IsLog p stored id f h l =
    let has_id = λ (run : RunRecord). str_eq run.id id in
    let runs = load_scheduler_runs p stored run_retention in
    elim (Option-cases (last_updated has_id f runs)) [
      | inl e ↦ rw (update_run, e) l
      | inr e ↦
          rw (update_run, e.1)
            (save_runs-IsLog p _
              (All-update (Dated p) has_id f h runs (All-load (Dated p) p _ stored l.0)))
    ]

save_unless_empty-IsLog :
    (p : Platform) (taken stored next : List RunRecord)
    → IsLog p stored
    → All (Dated p) next
    → IsLog p (save_unless_empty p taken stored next)
unfolding save_unless_empty
save_unless_empty-IsLog p [] stored next l d = l
save_unless_empty-IsLog p (x ∷ taken) stored next l d = save_runs-IsLog p next d

All-missed_of :
    (p : Platform) (job : String) (runs : List RunRecord)
    → All (Dated p) runs
    → All (Dated p) (missed_of job runs)
unfolding missed_of
All-missed_of p job runs a = All-keep (Dated p) _ runs a

collapsed-Dated :
    (p : Platform) (input : MissedInput) (existing : RunRecord) (surplus : List RunRecord)
    → CallDated p (miss "" input)
    → Dated p existing
    → Dated p (collapsed p input existing surplus)
unfolding collapsed
collapsed-Dated p input existing surplus c d =
    elim (Bool-cases (is_newer_slot p input.scheduled_at existing.started_at)) [
      | inl e ↦ rw e c
      | inr e ↦ rw e d
    ]

record_missed_in-IsLog :
    (p : Platform) (id : String) (input : MissedInput) (runs found : List RunRecord)
    → CallDated p (miss id input)
    → All (Dated p) runs
    → All (Dated p) found
    → IsLog p (record_missed_in p id input runs found).1
unfolding record_missed_in new_missed fold_missed
record_missed_in-IsLog p id input runs [] c d f = save_runs-IsLog p _ (c, d)
record_missed_in-IsLog p id input runs (existing ∷ surplus) c d f = save_runs-IsLog p _ (
    All-update (Dated p) (λ run. str_eq run.id existing.id)
      (λ _. collapsed p input existing surplus)
      (λ x dx. collapsed-Dated p input existing surplus c f.0)
      (keep (λ run. not (includes (run_ids surplus) run.id)) runs)
      (All-keep (Dated p) (λ run. not (includes (run_ids surplus) run.id)) runs d))

dismiss-IsLog :
    (p : Platform) (id : String) (stored : List RunRecord)
    → IsLog p stored
    → IsLog p (dismiss_skipped_scheduler_run p stored id).1
unfolding dismiss_skipped_scheduler_run
dismiss-IsLog p id stored l =
    let runs = load_scheduler_runs p stored run_retention in
    elim (Option-cases (last_updated (dismisses id) (λ run. run) runs)) [
      | inl e ↦ rw (dismiss_skipped_scheduler_run, e) l
      | inr e ↦
          rw (dismiss_skipped_scheduler_run, e.1)
            (save_runs-IsLog p _ (All-keep (Dated p) _ runs (All-load (Dated p) p _ stored l.0)))
    ]

after_call-IsLog :
    (p : Platform) (call : RunCall) (stored : List RunRecord)
    → CallDated p call
    → IsLog p stored
    → IsLog p (after_call p call stored)
unfolding after_call start_scheduler_run record_scheduler_run_attempt finish_scheduler_run
    record_missed_scheduled_run dismiss_skipped_scheduler_run
    dismiss_skipped_scheduled_runs_for_jobs abandon_running_scheduler_runs with_attempt finished
    abandon
after_call-IsLog p (start id input) stored c l =
    save_runs-IsLog p _ (c, All-load (Dated p) p _ stored l.0)
after_call-IsLog p (attempt id a) stored c l = update_run-IsLog p stored id _ (λ x d. d) l
after_call-IsLog p (finish id input) stored c l = update_run-IsLog p stored id _ (λ x d. d) l
after_call-IsLog p (miss id input) stored c l =
    let d = All-load (Dated p) p run_retention stored l.0 in
    record_missed_in-IsLog p id input _ _ c d (All-missed_of p input.job _ d)
after_call-IsLog p (dismiss id) stored c l = dismiss-IsLog p id stored l
after_call-IsLog p (dismiss_jobs []) stored c l = l
after_call-IsLog p (dismiss_jobs (job ∷ jobs)) stored c l =
    save_unless_empty-IsLog p _ stored _ l
      (All-keep (Dated p) _ _ (All-load (Dated p) p _ stored l.0))
after_call-IsLog p (abandon_all at message) stored c l = save_unless_empty-IsLog p _ stored _ l (
    All-update (Dated p) is_abandoned (abandon at message) (λ x d. d)
      (load_scheduler_runs p stored run_retention) (All-load (Dated p) p run_retention stored l.0))

-- Whatever calls are made on a store whose runs are readable in time, at most as many runs stay stored
-- as are retained, none stands before one that started later, and every start time stays readable, if
-- the start times that the calls bring can be read.
pub after_run_calls-IsLog :
    (p : Platform) (calls : List RunCall) (stored : List RunRecord)
    → All (CallDated p) calls
    → IsLog p stored
    → IsLog p (after_run_calls p calls stored)
unfolding after_run_calls
after_run_calls-IsLog p [] stored c l = l
after_run_calls-IsLog p (call ∷ calls) stored c l =
    after_run_calls-IsLog p calls (after_call p call stored) c.1
      (after_call-IsLog p call stored c.0 l)
