-- ===== src/Scheduler/Wakes/Laws.antt =====
-- No wake is lost (src/scheduler.ts).
use bfrost.Prelude.{ℕ, ◌+◌, ◌≤◌, ◌<◌, true, false, ◌≡◌, refl, length, arith, if◌then◌else◌}
use bfrost.Scheduler.Wakes.{
  Wakes, Desk, Step, Steps, done, next, publish, fire, latch, accept, refuse, throw, trigger, end,
  deliver, settle, schedule_pending_bus_wake, schedule_bus_wake, handle_version, fire_timer,
  end_run, delivered, is_in_flight,
}

-- The timer is set, or a call of `runBusWake` goes on, or a run is in the pool.
abbrev pub someone : Desk → ℕ
someone d = (if d.wakes.timer then 1 else 0) + length d.checking + length d.delivering + d.runs

-- A wake that is not handled has someone who will see to it, and no handler goes on after its deadline.
pub record IsLatched (d : Desk) : Type 0 where
  pub seen : d.wakes.handled < d.wakes.requested → 1 ≤ someone d
  pub no_orphan : d.orphan ≡ false

pub pending_timer :
    (w : Wakes)
    → (schedule_pending_bus_wake w).handled < (schedule_pending_bus_wake w).requested
    → (schedule_pending_bus_wake w).timer ≡ true
unfolding schedule_pending_bus_wake
pending_timer w h = ground (arith, h)

step-IsLatched : (d after : Desk) → Step false d after → IsLatched d → IsLatched after
unfolding schedule_bus_wake end_run delivered fire_timer is_in_flight
step-IsLatched _ _ (publish d) g = record {
  seen =
      λ h. ground (arith, pending_timer (record d.wakes { requested = d.wakes.requested + 1 }) h);
  no_orphan = g.no_orphan;
}
step-IsLatched _ _ (fire d e) g = record { seen = λ h. ground (arith, h); no_orphan = g.no_orphan }
step-IsLatched _ _ (latch d front version back e busy) g = record {
  seen = λ h. ground (arith, busy, g.no_orphan);
  no_orphan = g.no_orphan;
}
step-IsLatched _ _ (accept d front version back e free) g = record {
  seen = λ h. omega arith;
  no_orphan = g.no_orphan;
}
step-IsLatched _ _ (refuse d front version back e) g = record {
  seen = λ h. ground (arith, pending_timer (handle_version version d.wakes) h);
  no_orphan = g.no_orphan;
}
step-IsLatched _ _ (throw d front version back e) g = record {
  seen = λ h. ground (arith, pending_timer d.wakes h);
  no_orphan = g.no_orphan;
}
step-IsLatched _ _ (trigger d free) g = record { seen = λ h. omega arith; no_orphan = g.no_orphan }
step-IsLatched _ _ (end d left timed_out e never) g = record {
  seen = λ h. ground (arith, pending_timer d.wakes h);
  no_orphan = rw (g.no_orphan, never refl) refl;
}
step-IsLatched _ _ (deliver d front version back e) g = record {
  seen = λ h. ground (arith, pending_timer (handle_version version d.wakes) h);
  no_orphan = g.no_orphan;
}
step-IsLatched _ _ (settle d e) g = record { seen = g.seen; no_orphan = refl }

-- From a state in which a wake that is not handled has a timer, a call of `runBusWake` or a run in the
-- pool that will see to it, and no handler goes on after its deadline: as long as no run times out, every
-- sequence of publications, timers, triggers, runs and calls leaves it so.
pub Steps-IsLatched : (d after : Desk) → Steps false d after → IsLatched d → IsLatched after
Steps-IsLatched _ _ (done d) g = g
Steps-IsLatched _ _ (next d middle after s rest) g =
    Steps-IsLatched middle after rest (step-IsLatched d middle s g)
