-- ===== src/Runs.antt =====
-- The retained run records of the scheduler (src/scheduler-runs.ts). The store is one JSON document,
-- and `withRunStore` runs the operations one after the other, so each is a function of the list that
-- is stored. An id that the source draws at random, and a time that it is given, are arguments.
pub mod Laws
pub mod Loads
pub mod Calls
pub mod Fold
pub mod Missed
pub mod Cleared
pub mod Attempts
pub mod Ended
mod Tests
use bfrost.Prelude.{
  ℕ, ◌+◌, ◌≤◌, String, Bool, true, false, not, ◌&&◌, Option, none, some, List, [], ◌∷◌, map, ltb,
  leb, ◌==◌, if◌then◌else◌, min, max, keep, find, take, includes, str_eq, get_or_else, or_else,
  is_some, length, ◌++◌,
}
use bfrost.Platform.{Platform}

pub data RunStatus : Type 0 where
  running success error skipped : RunStatus

pub data RunTrigger : Type 0 where
  schedule manual pipeline event : RunTrigger

pub data AttemptStatus : Type 0 where
  success error skipped : AttemptStatus

pub data SkipReason : Type 0 where
  missed overlap no_work : SkipReason

pub record RunAttempt : Type 0 where
  pub attempt : ℕ
  pub started_at : String
  pub finished_at : String
  pub status : AttemptStatus
  pub summary : Option String
  pub error : Option String
  pub item_count : Option ℕ
  pub next_delay_ms : Option ℕ

pub record RunRecord : Type 0 where
  pub id : String
  pub job : String
  pub label : String
  pub trigger : RunTrigger
  pub model_alias : String
  pub started_at : String
  pub finished_at : Option String
  pub status : RunStatus
  pub summary : Option String
  pub error : Option String
  pub item_count : Option ℕ
  pub skip_reason : Option SkipReason
  pub missed_slot_count : Option ℕ
  pub attempts : List RunAttempt

abbrev pub run_retention : ℕ
run_retention = 200

-- `Math.min(Math.max(Math.floor(limit), 1), RUN_RETENTION)` at a whole number.
pub clamp_limit : ℕ → ℕ
clamp_limit limit = min (max limit 1) run_retention

-- The comparator `Date.parse(b.startedAt) - Date.parse(a.startedAt)`: does `b` come before `a`? A
-- time that does not parse makes the difference NaN, which the sort reads as 0.
pub later : Platform → RunRecord → RunRecord → Bool
later p a b = elim (p.date_parse a.started_at) [
  | none ↦ false
  | some at ↦ elim (p.date_parse b.started_at) [ none ↦ false | some bt ↦ ltb at bt ]
]

-- A stable insertion, as the stable sort of the run time gives where all times parse.
insert_by_start : Platform → RunRecord → List RunRecord → List RunRecord
unfolding later
insert_by_start p run [] = run ∷ []
insert_by_start p run (x ∷ runs) =
    let rest = insert_by_start p run runs in if later p run x then x ∷ rest else run ∷ x ∷ runs

pub newest_first : Platform → List RunRecord → List RunRecord
unfolding insert_by_start
newest_first p [] = []
newest_first p (x ∷ runs) = insert_by_start p x (newest_first p runs)

pub load_scheduler_runs : Platform → List RunRecord → ℕ → List RunRecord
unfolding clamp_limit
load_scheduler_runs p stored limit = take (clamp_limit limit) (newest_first p stored)

pub save_runs : Platform → List RunRecord → List RunRecord
save_runs p runs = take run_retention (newest_first p runs)

pub record StartInput : Type 0 where
  pub job : String
  pub label : String
  pub trigger : RunTrigger
  pub model_alias : String
  pub started_at : String

pub start_scheduler_run :
    Platform → List RunRecord → String → StartInput → RunRecord × List RunRecord
start_scheduler_run p stored id input =
    let run : RunRecord = record {
      id = id;
      job = input.job;
      label = input.label;
      trigger = input.trigger;
      model_alias = input.model_alias;
      started_at = input.started_at;
      finished_at = none;
      status = running;
      summary = none;
      error = none;
      item_count = none;
      skip_reason = none;
      missed_slot_count = none;
      attempts = [];
    } in
    (run, save_runs p (run ∷ load_scheduler_runs p stored run_retention))

-- `runs.map((run) => run.id === id ? updated : run)`, with the last run that was updated.
pub update_where : (RunRecord → Bool) → (RunRecord → RunRecord) → List RunRecord → List RunRecord
update_where test f [] = []
update_where test f (x ∷ runs) = (if test x then f x else x) ∷ update_where test f runs

pub last_updated : (RunRecord → Bool) → (RunRecord → RunRecord) → List RunRecord → Option RunRecord
last_updated test f [] = none
last_updated test f (x ∷ runs) =
    or_else (last_updated test f runs) (if test x then some (f x) else none)

-- A map over the runs with an id that saves only if some run has it.
pub update_run :
    Platform → List RunRecord → String → (RunRecord → RunRecord) → Option RunRecord × List RunRecord
unfolding update_where last_updated
update_run p stored id f =
    let runs = load_scheduler_runs p stored run_retention in
    let has_id = λ (run : RunRecord). str_eq run.id id in
    elim (last_updated has_id f runs) [
      | none ↦ (none, stored)
      | some updated ↦ (some updated, save_runs p (update_where has_id f runs))
    ]

pub insert_attempt : RunAttempt → List RunAttempt → List RunAttempt
insert_attempt a [] = a ∷ []
insert_attempt a (x ∷ attempts) =
    let rest = insert_attempt a attempts in
    if ltb x.attempt a.attempt then x ∷ rest else a ∷ x ∷ attempts

pub sort_attempts : List RunAttempt → List RunAttempt
unfolding insert_attempt
sort_attempts [] = []
sort_attempts (x ∷ attempts) = insert_attempt x (sort_attempts attempts)

-- The attempt with the same number is replaced, and the attempts stay in order.
pub with_attempt : RunAttempt → RunRecord → RunRecord
unfolding sort_attempts
with_attempt attempt run =
    let others = keep (λ current. not (current.attempt == attempt.attempt)) run.attempts in
    record run { attempts = sort_attempts (others ++ attempt ∷ []) }

pub record_scheduler_run_attempt :
    Platform → List RunRecord → String → RunAttempt → Option RunRecord × List RunRecord
unfolding with_attempt update_run
record_scheduler_run_attempt p stored id attempt = update_run p stored id (with_attempt attempt)

-- The statuses of a finished run.
pub data FinishStatus : Type 0 where
  success error skipped : FinishStatus

unfoldable pub run_status : FinishStatus → RunStatus
run_status FinishStatus.success = RunStatus.success
run_status FinishStatus.error = RunStatus.error
run_status FinishStatus.skipped = RunStatus.skipped

pub record FinishInput : Type 0 where
  pub finished_at : String
  pub status : FinishStatus
  pub summary : Option String
  pub error : Option String
  pub item_count : Option ℕ
  pub skip_reason : Option SkipReason

pub finished : FinishInput → RunRecord → RunRecord
unfolding run_status
finished input run = record run {
  finished_at = some input.finished_at;
  status = run_status input.status;
  summary = input.summary;
  error = input.error;
  item_count = input.item_count;
  skip_reason = or_else input.skip_reason run.skip_reason;
}

pub finish_scheduler_run :
    Platform → List RunRecord → String → FinishInput → Option RunRecord × List RunRecord
unfolding finished update_run
finish_scheduler_run p stored id input = update_run p stored id (finished input)

pub list_scheduler_runs : Platform → List RunRecord → ℕ → List RunRecord
list_scheduler_runs p stored limit = take (clamp_limit limit) (load_scheduler_runs p stored limit)

is_schedule : RunTrigger → Bool
is_schedule schedule = true
is_schedule _ = false

is_skipped : RunStatus → Bool
is_skipped RunStatus.skipped = true
is_skipped _ = false

is_missed : Option SkipReason → Bool
is_missed none = false
is_missed (some missed) = true
is_missed (some _) = false

pub is_recoverable_missed_run : RunRecord → Bool
unfolding is_schedule is_skipped is_missed
is_recoverable_missed_run run =
    is_skipped run.status && is_schedule run.trigger && is_missed run.skip_reason

pub record MissedInput : Type 0 where
  pub job : String
  pub label : String
  pub model_alias : String
  pub scheduled_at : String
  pub recorded_at : String
  pub error : String

-- The missed runs of a job, the newest first.
pub missed_of : String → List RunRecord → List RunRecord
missed_of job runs = keep (λ run. is_recoverable_missed_run run && str_eq run.job job) runs

-- `(total, run) => total + (run.missedSlotCount ?? 1)` from 1.
pub slot_total : List RunRecord → ℕ → ℕ
slot_total [] total = total
slot_total (x ∷ runs) total = slot_total runs (total + get_or_else x.missed_slot_count 1)

pub is_newer_slot : Platform → String → String → Bool
is_newer_slot p scheduled_at started_at = elim (p.date_parse scheduled_at) [
  | none ↦ false
  | some slot ↦ elim (p.date_parse started_at) [ none ↦ false | some old ↦ ltb old slot ]
]

-- The entry that stands for the old one, its surplus copies and the new miss.
pub collapsed : Platform → MissedInput → RunRecord → List RunRecord → RunRecord
unfolding is_newer_slot slot_total
collapsed p input existing surplus =
    let newer = is_newer_slot p input.scheduled_at existing.started_at in
    record existing {
      label = input.label;
      model_alias = input.model_alias;
      started_at = if newer then input.scheduled_at else existing.started_at;
      finished_at = some input.recorded_at;
      error = if newer then some input.error else existing.error;
      missed_slot_count = some (slot_total (existing ∷ surplus) 1);
    }

pub new_missed : String → MissedInput → RunRecord
new_missed id input = record {
  id = id;
  job = input.job;
  label = input.label;
  trigger = schedule;
  model_alias = input.model_alias;
  started_at = input.scheduled_at;
  finished_at = some input.recorded_at;
  status = RunStatus.skipped;
  summary = none;
  error = some input.error;
  item_count = none;
  skip_reason = some missed;
  missed_slot_count = some 1;
  attempts = [];
}

abbrev pub run_ids : List RunRecord → List String
run_ids [] = []
run_ids (x ∷ runs) = x.id ∷ run_ids runs

-- The runs with the surplus taken out and the existing entry replaced.
pub fold_missed : RunRecord → RunRecord → List RunRecord → List RunRecord → List RunRecord
unfolding update_where
fold_missed existing merged surplus runs =
    update_where (λ run. str_eq run.id existing.id) (λ _. merged)
      (keep (λ run. not (includes (run_ids surplus) run.id)) runs)

pub record_missed_in :
    Platform → String → MissedInput → List RunRecord → List RunRecord → RunRecord × List RunRecord
unfolding collapsed new_missed fold_missed
record_missed_in p id input runs [] =
    (new_missed id input, save_runs p (new_missed id input ∷ runs))
record_missed_in p id input runs (existing ∷ surplus) =
    let merged = collapsed p input existing surplus in
    (merged, save_runs p (fold_missed existing merged surplus runs))

pub record_missed_scheduled_run :
    Platform → List RunRecord → String → MissedInput → RunRecord × List RunRecord
unfolding record_missed_in missed_of
record_missed_scheduled_run p stored id input =
    let runs = load_scheduler_runs p stored run_retention in
    record_missed_in p id input runs (missed_of input.job runs)

pub list_skipped_scheduled_runs : Platform → List RunRecord → List RunRecord
list_skipped_scheduled_runs p stored =
    keep is_recoverable_missed_run (load_scheduler_runs p stored run_retention)

pub dismisses : String → RunRecord → Bool
dismisses id run = str_eq run.id id && is_recoverable_missed_run run

pub dismiss_skipped_scheduler_run :
    Platform → List RunRecord → String → Option RunRecord × List RunRecord
unfolding dismisses last_updated
dismiss_skipped_scheduler_run p stored id =
    let runs = load_scheduler_runs p stored run_retention in
    elim (last_updated (dismisses id) (λ run. run) runs) [
      | none ↦ (none, stored)
      | some dismissed ↦ (some dismissed, save_runs p (keep (λ run. not (dismisses id run)) runs))
    ]

pub dismisses_job : List String → RunRecord → Bool
dismisses_job jobs run = is_recoverable_missed_run run && includes jobs run.job

pub save_unless_empty : Platform → List RunRecord → List RunRecord → List RunRecord → List RunRecord
save_unless_empty p [] stored next = stored
save_unless_empty p (x ∷ taken) stored next = save_runs p next

pub dismiss_skipped_scheduled_runs_for_jobs :
    Platform → List RunRecord → List String → List RunRecord × List RunRecord
unfolding dismisses_job save_unless_empty
dismiss_skipped_scheduled_runs_for_jobs p stored [] = ([], stored)
dismiss_skipped_scheduled_runs_for_jobs p stored (job ∷ jobs) =
    let runs = load_scheduler_runs p stored run_retention in
    let taken = keep (dismisses_job (job ∷ jobs)) runs in
    (
      taken,
      save_unless_empty p taken stored (keep (λ run. not (dismisses_job (job ∷ jobs) run)) runs),
    )

is_running : RunStatus → Bool
is_running running = true
is_running _ = false

pub is_abandoned : RunRecord → Bool
unfolding is_running
is_abandoned run = is_running run.status && not (is_some run.finished_at)

pub abandon : String → String → RunRecord → RunRecord
abandon finished_at message run = record run {
  finished_at = some finished_at;
  status = RunStatus.error;
  summary = none;
  error = some message;
  item_count = none;
}

-- The runs that were abandoned, as they stood, and the store.
pub abandon_running_scheduler_runs :
    Platform → List RunRecord → String → String → List RunRecord × List RunRecord
unfolding is_abandoned abandon update_where save_unless_empty
abandon_running_scheduler_runs p stored finished_at message =
    let runs = load_scheduler_runs p stored run_retention in
    let found = keep is_abandoned runs in
    (
      found,
      save_unless_empty p found stored
          (update_where is_abandoned (abandon finished_at message) runs),
    )
