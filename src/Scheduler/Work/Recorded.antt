-- ===== src/Scheduler/Work/Recorded.antt =====
-- What a run leaves of its record in the run store (src/scheduler.ts, src/scheduler-runs.ts).
use bfrost.Prelude.{
  ℕ, ◌≤◌, String, Bool, true, false, Option, none, some, ◌≡◌, [], ◌∷◌, refl, length, All,
  Option-cases, inl, inr, All-map, if◌then◌else◌, ◌∙◌, ap, arith, subst, sym, List, ◌∷◌, ◌⊎◌,
}
use bfrost.Runs.{
  RunRecord, RunStatus, RunAttempt, FinishStatus, FinishInput, run_status, run_retention,
  finish_scheduler_run,
}
use bfrost.Runs.Ended.{OfId, FinishedAs, All-finish, length-record_attempt}
use bfrost.Scheduler.Runtime.{
  SchedulerState, LastStatus, finish_scheduler_run_safe, persist_runtime, JobEvent, JobRuntime,
  record_event, set_runtime,
}
use bfrost.Scheduler.Work.{
  Work, Attempt, returned, abandon_job, succeed, fail, retry_later, run_job_work,
  record_scheduler_run_attempt_safe, succeeded_attempt, failed_attempt, success_input,
  failure_input, Wait, storing_end, storing_attempt, delaying, storing_states, announcing_end,
  announcing_retry,
}
use bfrost.Scheduler.Work.Ending.{status_of, summary_of, error_of}
use bfrost.Scheduler.Work.Rounds.{EndsFrom, run_attempts-EndsFrom_first}

-- The run store holds no more than it retains.
abbrev pub Bounded : SchedulerState → Type 0
Bounded st = length st.runs ≤ run_retention

-- The status of a run's record where the job's state has this one.
abbrev pub recorded_status : LastStatus → RunStatus
recorded_status LastStatus.success = RunStatus.success
recorded_status LastStatus.skipped = RunStatus.skipped
recorded_status _ = RunStatus.error

-- A record that says how one attempt ended its run.
abbrev pub RecordedAs : Work → Attempt → RunRecord → Type 0
RecordedAs w a run =
    (run.finished_at ≡ some a.finished_at)
    × ((run.status ≡ recorded_status (status_of w a.outcome))
        × ((run.summary ≡ summary_of a.outcome) × (run.error ≡ error_of w a.outcome)))

-- Every record that the store has of the run says so.
abbrev pub RecordEnds : Work → String → Attempt → SchedulerState → Type 0
RecordEnds w id a st = All (OfId id (RecordedAs w a)) st.runs

abbrev pub IsIn : RunRecord → List RunRecord → Type 0
IsIn x [] = ⊥
IsIn x (y ∷ runs) = (x ≡ y) ⊎ IsIn x runs

All-of :
    (Q : RunRecord → Type 0) (x : RunRecord) (runs : List RunRecord)
    → All Q runs
    → IsIn x runs
    → Q x
All-of Q x [] h is_in = elim is_in [ ]
All-of Q x (y ∷ runs) h (inl e) = subst Q (sym e) h.0
All-of Q x (y ∷ runs) h (inr later) = All-of Q x runs h.1 later

All-here :
    (P : RunRecord → Type 0) (runs : List RunRecord)
    → ((x : RunRecord) → IsIn x runs → P x)
    → All P runs
All-here P [] f = tt
All-here P (x ∷ runs) f = (f x (inl refl), All-here P runs (λ y h. f y (inr h)))

-- Nothing is written to the run store.
pub All-IsIn : (id : String) (runs : List RunRecord) → All (OfId id (λ run. IsIn run runs)) runs
All-IsIn id runs = All-here (OfId id (λ run. IsIn run runs)) runs (λ x h same. h)

-- What happens while a run is under way keeps the store within its bound, and once the end of the run is
-- stored each record of the run is one that was there before.
pub record LeavesRun (w : Work) (id : String) : Type 0 where
  pub bounded : (wait : Wait) (st : SchedulerState) → Bounded st → Bounded (w.while_waiting wait st)
  pub storing :
      (number : ℕ) (st : SchedulerState)
      → All (OfId id (λ run. IsIn run st.runs)) (w.while_waiting (storing_end number) st).runs
  pub saving :
      (st : SchedulerState)
      → All (OfId id (λ run. IsIn run st.runs)) (w.while_waiting storing_states st).runs

spared :
    (id : String) (Q : RunRecord → Type 0) (before after : List RunRecord)
    → All (OfId id (λ run. IsIn run before)) after
    → All (OfId id Q) before
    → All (OfId id Q) after
spared id Q before after old h =
    All-map (OfId id (λ run. IsIn run before)) (OfId id Q)
      (λ run was_in same. All-of (OfId id Q) run before h (was_in same) same) after old

record_attempt-Bounded :
    (w : Work) (attempt : RunAttempt) (st : SchedulerState)
    → Bounded st
    → Bounded (record_scheduler_run_attempt_safe w attempt st)
unfolding record_scheduler_run_attempt_safe
record_attempt-Bounded w attempt st h = elim (Option-cases w.run_id) [
  | inl e ↦ rw (record_scheduler_run_attempt_safe, e) h
  | inr (id, e) ↦
      rw (record_scheduler_run_attempt_safe, e)
        (length-record_attempt w.platform st.runs id attempt h)
]

status-failure :
    (skipped : Bool)
    → run_status (if skipped then FinishStatus.skipped else FinishStatus.error)
      ≡ recorded_status (if skipped then LastStatus.skipped else LastStatus.error)
unfolding run_status
status-failure true = refl
status-failure false = refl

module _ (w : Work) (id : String) (named : w.run_id ≡ some id) (leaves : LeavesRun w id) where
  written-RecordEnds :
      (number : ℕ) (a : Attempt) (input : FinishInput) (event : JobEvent) (runtime : JobRuntime)
      (st : SchedulerState)
      → Bounded st
      → input.finished_at ≡ a.finished_at
      → run_status input.status ≡ recorded_status (status_of w a.outcome)
      → input.summary ≡ summary_of a.outcome
      → input.error ≡ error_of w a.outcome
      → RecordEnds w id a (
          w.while_waiting (storing_end number) (
            finish_scheduler_run_safe w.platform w.run_id input (
              w.while_waiting
                (announcing_end number)
                (record_event event (set_runtime w.job.name runtime st)))))
  unfolding finish_scheduler_run_safe
  written-RecordEnds number a input event runtime st h hf hs hm he =
      let announced : SchedulerState =
        w.while_waiting (announcing_end number)
          (record_event event (set_runtime w.job.name runtime st)) in
      spared id (RecordedAs w a) _ _ (leaves.storing number _) (
        subst
          (λ run_id.
            RecordEnds w id a (finish_scheduler_run_safe w.platform run_id input announced))
          (sym named)
          (All-map (OfId id (FinishedAs input)) (OfId id (RecordedAs w a))
            (λ run finished same.
              let f = finished same in
              (f.0 ∙ ap (λ t. some t) hf, (f.1.0 ∙ hs, (f.1.1.0 ∙ hm, f.1.1.1 ∙ he))))
            (finish_scheduler_run w.platform announced.runs id input).1
            (All-finish w.platform announced.runs id input
              (leaves.bounded (announcing_end number) _ h))))

  succeed-RecordEnds :
      (number : ℕ) (a : Attempt) (summary : String) (item_count : Option ℕ) (st : SchedulerState)
      → Bounded st
      → a.outcome ≡ returned summary item_count
      → RecordEnds w id a (succeed w number a summary item_count st)
  unfolding succeed run_status
  succeed-RecordEnds number a summary item_count st h e =
      let attempt = succeeded_attempt number a summary item_count in
      written-RecordEnds number a (success_input a summary item_count) _ _
        (w.while_waiting (storing_attempt number) (record_scheduler_run_attempt_safe w attempt st))
        (leaves.bounded (storing_attempt number) _ (record_attempt-Bounded w attempt st h)) refl
        (rw e refl) (rw e refl) (rw e refl)

  fail-RecordEnds :
      (number : ℕ) (a : Attempt) (skipped : Bool) (message : String) (st : SchedulerState)
      → Bounded st
      → (if skipped then LastStatus.skipped else LastStatus.error) ≡ status_of w a.outcome
      → none ≡ summary_of a.outcome
      → some message ≡ error_of w a.outcome
      → RecordEnds w id a (fail w number a skipped message st)
  unfolding fail
  fail-RecordEnds number a skipped message st h hs hm he =
      let attempt = failed_attempt number a skipped message none in
      written-RecordEnds number a (failure_input a skipped message) _ _
        (w.while_waiting (storing_attempt number) (record_scheduler_run_attempt_safe w attempt st))
        (leaves.bounded (storing_attempt number) _ (record_attempt-Bounded w attempt st h)) refl
        (status-failure skipped ∙ ap recorded_status hs) hm he

retry-Bounded :
    (w : Work) (id : String) (leaves : LeavesRun w id) (number : ℕ) (a : Attempt) (message : String)
    (st : SchedulerState)
    → Bounded st
    → Bounded (retry_later w number a message st)
unfolding retry_later
retry-Bounded w id leaves number a message st h = leaves.bounded (delaying number) _ (
    leaves.bounded (announcing_retry number) _
      (leaves.bounded (storing_attempt number) _ (record_attempt-Bounded w _ st h)))

abandon-Bounded : (name : String) (st : SchedulerState) → Bounded st → Bounded (abandon_job name st)
unfolding abandon_job
abandon-Bounded name st h = ground (arith, h)

-- A run that was recorded at its start, in a store of at most the 200 records that it retains, which the
-- rest of the program keeps so, and where nothing else writes a record of the run once its end is stored:
-- whatever its attempts do, every record that the store has of the run in the end has the end, the status,
-- the summary and the error of the attempt that ended the run.
pub run_job_work-RecordEnds :
    (w : Work) (id : String) (attempt_at : ℕ → Attempt) (st : SchedulerState)
    → w.run_id ≡ some id
    → Bounded st
    → ((number : ℕ) (state : SchedulerState)
        → Bounded state
        → Bounded ((attempt_at number).meanwhile state))
    → LeavesRun w id
    → EndsFrom w attempt_at (RecordEnds w id) 1 (run_job_work w attempt_at st).state
unfolding run_job_work persist_runtime
run_job_work-RecordEnds w id attempt_at st named h kept leaves =
    let (number, (deciding, ended)) =
      run_attempts-EndsFrom_first w attempt_at Bounded (RecordEnds w id) st
        (record {
          kept = kept;
          retried = retry-Bounded w id leaves;
          abandoned = abandon-Bounded w.job.name;
          succeeds = succeed-RecordEnds w id named leaves;
          fails = fail-RecordEnds w id named leaves;
        })
        h in
    (number, (deciding, spared id (RecordedAs w (attempt_at number)) _ _ (leaves.saving _) ended))
