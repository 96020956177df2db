-- ===== src/Scheduler/Runtime/Events.antt =====
-- What the scheduler's writes leave in the event log (src/scheduler.ts).
use bfrost.Prelude.{String, Option, none, some, List, [], ◌∷◌, ◌++◌, ◌≡◌, refl, sym, ◌∙◌}
use bfrost.Platform.{Platform}
use mathlib.Core.List.{append-nil, append_assoc}
use bfrost.Runs.{RunTrigger, FinishInput}
use bfrost.Scheduler.Runtime.{
  Job, JobEvent, JobRuntime, SchedulerState, mark_job_queued, record_no_work_skipped_run,
  record_busy_skipped_run, start_scheduler_run_safe, finish_scheduler_run_safe, persist_runtime,
}

-- The log of one state goes on from that of another.
abbrev pub Extends : SchedulerState → SchedulerState → Type 0
Extends st after = (more : List JobEvent) × (after.events ≡ st.events ++ more)

-- It does, and its last event is about the job and has this action.
abbrev pub Adds : Job → String → SchedulerState → SchedulerState → Type 0
Adds job action st after =
    (event : JobEvent) × (more : List JobEvent) × (after.events ≡ st.events ++ (more ++ event ∷ []))
    × (event.job ≡ job.name)
    × (event.action ≡ action)

pub Extends-refl : (st : SchedulerState) → Extends st st
Extends-refl st = ([], sym (append-nil st.events))

pub Adds-Extends :
    (job : Job) (action : String) (st middle after : SchedulerState)
    → Extends st middle
    → Adds job action middle after
    → Adds job action st after
Adds-Extends job action st middle after (more, e) (event, rest, h, hj, ha) =
    (event, more ++ rest, h ∙ rw (e, append_assoc, append_assoc) refl, hj, ha)

pub Extends-trans :
    (st middle after : SchedulerState) → Extends st middle → Extends middle after → Extends st after
Extends-trans st middle after (more, e) (rest, h) = (more ++ rest, h ∙ rw (e, append_assoc) refl)

start_events :
    (p : Platform) (id : Option String) (job : Job) (trigger : RunTrigger) (at : String)
    (st : SchedulerState)
    → (start_scheduler_run_safe p id job trigger at st).events ≡ st.events
unfolding start_scheduler_run_safe
start_events p none job trigger at st = refl
start_events p (some id) job trigger at st = refl

finish_events :
    (p : Platform) (id : Option String) (input : FinishInput) (st : SchedulerState)
    → (finish_scheduler_run_safe p id input st).events ≡ st.events
unfolding finish_scheduler_run_safe
finish_events p none input st = refl
finish_events p (some id) input st = refl

pub mark_job_queued-Adds :
    (known : List String) (job : Job) (current : JobRuntime) (trigger : RunTrigger) (at : String)
    (st : SchedulerState)
    → Adds job "queued" st (mark_job_queued known job current trigger at st)
unfolding mark_job_queued persist_runtime
mark_job_queued-Adds known job current trigger at st = (_, [], refl, refl, refl)

pub record_busy-Adds :
    (p : Platform) (job : Job) (scheduled_at : Option String) (now : String) (id : Option String)
    (st : SchedulerState)
    → Adds job "overlap_skipped" st (record_busy_skipped_run p job scheduled_at now id st)
unfolding record_busy_skipped_run
record_busy-Adds p job scheduled_at now id st =
    rw (finish_events, start_events) (_, [], refl, refl, refl)

pub record_no_work-Adds :
    (known : List String) (p : Platform) (job : Job) (now : String) (id : Option String)
    (st : SchedulerState)
    → Adds job "skipped" st (record_no_work_skipped_run known p job now id st)
unfolding record_no_work_skipped_run persist_runtime
record_no_work-Adds known p job now id st =
    rw (finish_events, start_events) (_, [], refl, refl, refl)
