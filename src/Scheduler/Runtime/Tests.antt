-- ===== src/Scheduler/Runtime/Tests.antt =====
-- The theorem on a restart, at a job that was running.
use bfrost.Prelude.{refl, true, some, lookup, [], ◌∷◌}
use bfrost.Scheduler.Samples.{boot_state}
use bfrost.Scheduler.Runtime.{
  SchedulerState, no_runtime, hydrate_runtime_from_state, persist_runtime,
}
use bfrost.Scheduler.Runtime.Laws.{RestartsAs, hydrate_runtime-persist}

abbrev busy_state : SchedulerState
busy_state = record boot_state {
  runtime_cache =
      ("digest", record no_runtime { running = true; last_started_at = some "2026-01-02" }) ∷ [];
}

hydrate_runtime-persist_example :
    RestartsAs (some (record no_runtime { running = true; last_started_at = some "2026-01-02" })) (
      lookup "digest"
        (hydrate_runtime_from_state
          ("digest" ∷ [])
          (persist_runtime ("digest" ∷ []) busy_state).persisted
          boot_state).runtime_cache)
hydrate_runtime-persist_example =
    hydrate_runtime-persist ("digest" ∷ []) busy_state boot_state "digest" refl
