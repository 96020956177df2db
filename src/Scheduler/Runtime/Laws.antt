-- ===== src/Scheduler/Runtime/Laws.antt =====
-- Restarting the scheduler from its stored state (src/scheduler.ts).
use bfrost.Prelude.{
  String, Option, none, some, List, [], ◌∷◌, ◌≡◌, refl, lookup, insert, lookup-insert, subst, sym,
  Bool-cases, false, or_else, includes, Option-cases, inl, inr, eq_iff, arith, if◌then◌else◌,
}
use bfrost.Scheduler.Runtime.{
  JobRuntime, SchedulerState, persisted_jobs, persist_runtime, hydrated, hydrated_jobs,
  hydrate_runtime_from_state,
}

-- What a job is restarted with, if it was saved.
abbrev restarted : Option JobRuntime → Option JobRuntime
restarted none = none
restarted (some saved) = some (hydrated saved)

lookup-persisted_jobs :
    (name : String) (known : List String) (cache payload : List (String × JobRuntime))
    → lookup name (persisted_jobs known cache payload) ≡ (
        if includes known name
        then or_else (lookup name cache) (lookup name payload)
        else lookup name payload)
unfolding persisted_jobs
lookup-persisted_jobs name [] cache payload = refl
lookup-persisted_jobs name (x ∷ known) cache payload = elim (Option-cases (lookup x cache)) [
  | inl e ↦ rw e (ground (arith, e, eq_iff x name, lookup-persisted_jobs name known cache payload))
  | inr (current, e) ↦ rw e (
      ground (
        arith,
        e,
        eq_iff x name,
        lookup-insert x name current payload,
        lookup-persisted_jobs name known cache (insert x current payload),
      ))
]

lookup-hydrated_jobs :
    (name : String) (known : List String) (parsed cache : List (String × JobRuntime))
    → lookup name (hydrated_jobs known parsed cache) ≡ (
        if includes known name
        then or_else (restarted (lookup name parsed)) (lookup name cache)
        else lookup name cache)
unfolding hydrated_jobs
lookup-hydrated_jobs name [] parsed cache = refl
lookup-hydrated_jobs name (x ∷ known) parsed cache = elim (Option-cases (lookup x parsed)) [
  | inl e ↦ rw e (ground (arith, e, eq_iff x name, lookup-hydrated_jobs name known parsed cache))
  | inr (saved, e) ↦ rw e (
      ground (
        arith,
        e,
        eq_iff x name,
        lookup-insert x name (hydrated saved) cache,
        lookup-hydrated_jobs name known parsed (insert x (hydrated saved) cache),
      ))
]

-- What a restart makes of the state of a job: neither queued nor running, and all else as it was saved.
pub record IsRestarted (saved fresh : JobRuntime) : Type 0 where
  pub not_queued : (fresh.queued ≡ false) × (fresh.queued_at ≡ none)
  pub not_running : fresh.running ≡ false
  pub same_times :
      (fresh.last_started_at ≡ saved.last_started_at)
      × (fresh.last_finished_at ≡ saved.last_finished_at)
  pub same_end :
      (fresh.last_status ≡ saved.last_status)
      × (fresh.last_summary ≡ saved.last_summary)
      × (fresh.last_error ≡ saved.last_error)
  pub same_trigger : fresh.last_trigger ≡ saved.last_trigger

-- No state where none was saved, or one that says how the saved one ended.
pub data RestartsAs : Option JobRuntime → Option JobRuntime → Type 0 where
  never_saved : RestartsAs none none
  was_saved :
      (saved fresh : JobRuntime) → IsRestarted saved fresh → RestartsAs (some saved) (some fresh)

restarted-RestartsAs : (saved : Option JobRuntime) → RestartsAs saved (restarted saved)
unfolding hydrated
restarted-RestartsAs none = never_saved
restarted-RestartsAs (some saved) = was_saved saved (hydrated saved) (record {
  not_queued = (refl, refl);
  not_running = refl;
  same_times = (refl, refl);
  same_end = (refl, refl, refl);
  same_trigger = refl;
})

lookup-hydrate_persist :
    (known : List String) (st fresh : SchedulerState) (name : String)
    → fresh.runtime_cache ≡ []
    → lookup name
        (hydrate_runtime_from_state known (persist_runtime known st).persisted fresh).runtime_cache
      ≡ (if includes known name then restarted (lookup name st.runtime_cache) else none)
unfolding hydrate_runtime_from_state persist_runtime
lookup-hydrate_persist known st fresh name h =
    let saved = lookup-persisted_jobs name known st.runtime_cache [] in
    let loaded =
      lookup-hydrated_jobs name known (persisted_jobs known st.runtime_cache [])
        fresh.runtime_cache in
    rw (loaded, saved, h)
      (elim (Option-cases (lookup name st.runtime_cache)) [
        | inl e ↦ rw e (ground (arith, e))
        | inr (s, e) ↦ rw e (ground (arith, e))
      ])

-- A start that reads back what another process stored has, for every known job that had a state, a state
-- that is neither queued nor running and whose last times, status, summary, error and trigger are those of
-- that state; it has no state for a known job that had none, and none for any other name.
pub hydrate_runtime-persist :
    (known : List String) (st fresh : SchedulerState) (name : String)
    → fresh.runtime_cache ≡ []
    → RestartsAs (if includes known name then lookup name st.runtime_cache else none) (
        lookup name
          (hydrate_runtime_from_state known
            (persist_runtime known st).persisted
            fresh).runtime_cache)
hydrate_runtime-persist known st fresh name h =
    subst (RestartsAs (if includes known name then lookup name st.runtime_cache else none))
      (sym (lookup-hydrate_persist known st fresh name h))
      (elim (Bool-cases (includes known name)) [
        | inl e ↦ rw e (restarted-RestartsAs (lookup name st.runtime_cache))
        | inr e ↦ rw e never_saved
      ])
