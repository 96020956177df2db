-- ===== src/Scheduler/Wakes/Tests.antt =====
-- The theorems on the wakes of a job, at an item that is published while the job rests.
use bfrost.Prelude.{refl, ◌≡◌, true, false, ◌<◌, arith}
use bfrost.Scheduler.Wakes.{Desk, Steps, publish, next, done, schedule_bus_wake, is_in_flight}
use bfrost.Scheduler.Wakes.Laws.{IsLatched, someone, Steps-IsLatched}
use bfrost.Scheduler.Wakes.Delivery.{Handles, wake-Handles}
use bfrost.Scheduler.Wakes.Lost.{rested, lost_wake}

abbrev woken : Desk
woken = record (rested 4) { wakes = schedule_bus_wake (rested 4).wakes }

rested-IsLatched : IsLatched (rested 4)
rested-IsLatched = record { seen = λ h. ground (arith, h); no_orphan = refl }

Steps-IsLatched_example : IsLatched woken
Steps-IsLatched_example =
    Steps-IsLatched (rested 4) woken (next _ _ _ (publish (rested 4)) (done _)) rested-IsLatched

wake-Handles_example : Handles woken
wake-Handles_example =
    wake-Handles woken
      (Steps-IsLatched (rested 4) woken (next _ _ _ (publish (rested 4)) (done _)) rested-IsLatched)

lost_wake_example :
    (after : Desk) × (Steps true (rested 4) after)
    × (after.wakes.handled < after.wakes.requested)
    × (someone after ≡ 0)
    × (is_in_flight after ≡ false)
lost_wake_example = lost_wake 4
