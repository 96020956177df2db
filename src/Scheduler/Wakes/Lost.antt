-- ===== src/Scheduler/Wakes/Lost.antt =====
-- A wake that nobody sees to after a run has timed out (src/scheduler.ts).
use bfrost.Prelude.{
  ℕ, ◌+◌, ◌<◌, Bool, true, false, List, [], ◌∷◌, ◌≡◌, refl, leb, arith, if◌then◌else◌, subst,
}
use bfrost.Scheduler.Wakes.{
  Wakes, Desk, Step, Steps, done, next, publish, fire, latch, trigger, end, settle,
  schedule_pending_bus_wake, schedule_bus_wake, fire_timer, end_run, is_in_flight,
}
use bfrost.Scheduler.Wakes.Laws.{someone}

-- A job at rest whose wakes are all handled.
abbrev pub rested : ℕ → Desk
rested version = record {
  wakes = record { requested = version; handled = version; timer = false };
  checking = [];
  delivering = [];
  runs = 0;
  orphan = false;
}

-- After one publication: the wake is asked for, and the timer set.
abbrev asked : ℕ → Bool → Wakes
asked version timer = record { requested = version + 1; handled = version; timer = timer }

publish_asked :
    (version : ℕ)
    → schedule_bus_wake (record { requested = version; handled = version; timer = false })
      ≡ asked version true
unfolding schedule_bus_wake schedule_pending_bus_wake
publish_asked version = ground arith

pending_asked : (version : ℕ) → schedule_pending_bus_wake (asked version true) ≡ asked version true
unfolding schedule_pending_bus_wake
pending_asked version = ground arith

newer : (version : ℕ) → leb (version + 1) version ≡ false
newer version = ground arith

abbrev desk : Wakes → List ℕ → ℕ → Bool → Desk
desk wakes checking runs orphan = record {
  wakes = wakes;
  checking = checking;
  delivering = [];
  runs = runs;
  orphan = orphan;
}

published :
    (version : ℕ)
    → Step true (desk (rested version).wakes [] 1 false) (desk (asked version true) [] 1 false)
published version =
    subst (λ w. Step true (desk (rested version).wakes [] 1 false) (desk w [] 1 false))
      (publish_asked version) (publish (desk (rested version).wakes [] 1 false))

timed_out_end :
    (version : ℕ)
    → Step true (desk (asked version true) [] 1 false) (desk (asked version true) [] 0 true)
unfolding end_run
timed_out_end version =
    subst (λ w. Step true (desk (asked version true) [] 1 false) (desk w [] 0 true))
      (pending_asked version) (end (desk (asked version true) [] 1 false) 0 true refl (λ never. cc))

fired :
    (version : ℕ)
    → Step true
        (desk (asked version true) [] 0 true)
        (desk (asked version false) ((version + 1) ∷ []) 0 true)
unfolding fire_timer
fired version =
    subst
      (λ b.
        Step true (desk (asked version true) [] 0 true)
          (desk (asked version false) (if b then [] else (version + 1) ∷ []) 0 true))
      (newer version) (fire (desk (asked version true) [] 0 true) refl)

-- At a job at rest, where a run may time out: an item that is published during the run leaves, after the
-- handler of the run has settled late, a wake that is not handled, with neither a timer nor a call nor a
-- run that will see to it.
pub lost_wake :
    (version : ℕ)
    → (after : Desk) × (Steps true (rested version) after)
      × (after.wakes.handled < after.wakes.requested)
      × (someone after ≡ 0)
      × (is_in_flight after ≡ false)
unfolding is_in_flight
lost_wake version = (
  desk (asked version false) [] 0 false,
  next _ _ _ (trigger (rested version) refl) (
      next _ _ _ (published version) (
        next _ _ _ (timed_out_end version) (
          next _ _ _ (fired version) (
            next _ _ _
              (latch (desk (asked version false) ((version + 1) ∷ []) 0 true) [] (version + 1) []
                refl refl)
              (next _ _ _ (settle (desk (asked version false) [] 0 true) refl) (done _)))))),
  omega arith,
  refl,
  refl,
)
