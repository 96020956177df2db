-- ===== src/Scheduler/Skipped/Flags.antt =====
-- What the record of a skipped slot keeps of the state of its job (src/scheduler.ts).
use bfrost.Prelude.{String, refl, ◌∙◌, lookup-insert_same, Option-cases, Bool-cases, inl, inr}
use bfrost.Scheduler.Runtime.{SchedulerState, build_job_state, set_runtime, persist_runtime}
use bfrost.Scheduler.Runtime.Flags.{saved_of, Flagged, KeepsJobs, start-KeepsJobs, finish-KeepsJobs}
use bfrost.Scheduler.Skipped.{
  SkippedCall, is_missed, record_slot, skipped_runtime, record_missed_scheduled_run_safe,
  record_overlapped_run,
}

missed-KeepsJobs :
    (c : SkippedCall) (at : String) (st : SchedulerState)
    → KeepsJobs st (record_missed_scheduled_run_safe c at st)
unfolding record_missed_scheduled_run_safe
missed-KeepsJobs c at st = elim (Option-cases c.run_id) [
  | inl e ↦ rw (record_missed_scheduled_run_safe, e) (refl, refl)
  | inr (id, e) ↦ rw (record_missed_scheduled_run_safe, e) (refl, refl)
]

overlapped-KeepsJobs :
    (c : SkippedCall) (at : String) (st : SchedulerState)
    → KeepsJobs st (record_overlapped_run c at st)
unfolding record_overlapped_run
overlapped-KeepsJobs c at st =
    let started = start-KeepsJobs c.platform c.run_id c.job _ at st in
    let finished = finish-KeepsJobs c.platform c.run_id _ _ in
    (finished.0 ∙ started.0, finished.1 ∙ started.1)

-- The place in the queue stays, the flag that was derived is stored, and so do the abandoned handlers.
pub record_slot-Flagged :
    (c : SkippedCall) (at : String) (st : SchedulerState)
    → Flagged c.job.name
        (saved_of c.job.name st).queued
        (build_job_state c.job.name st).running
        st
        (record_slot c at st)
unfolding record_slot persist_runtime skipped_runtime build_job_state
record_slot-Flagged c at st = elim (Bool-cases (is_missed c.reason)) [
  | inl e ↦
      let kept = missed-KeepsJobs c at (set_runtime c.job.name (skipped_runtime c at st) st) in
      rw (record_slot, e, kept.0, lookup-insert_same) (refl, refl, kept.1)
  | inr e ↦
      let kept = overlapped-KeepsJobs c at (set_runtime c.job.name (skipped_runtime c at st) st) in
      rw (record_slot, e, kept.0, lookup-insert_same) (refl, refl, kept.1)
]
