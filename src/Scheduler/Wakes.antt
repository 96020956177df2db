-- ===== src/Scheduler/Wakes.antt =====
-- The wakes of one job by the items that are published (src/scheduler.ts): its entries in
-- `busWakeRequestedVersion`, `busWakeHandledVersion` and `busWakeTimers`, where a missing version is 0.
-- Then the steps between the places where the source waits. The reads of the settings and of the
-- workers' state that `runBusWake` waits for succeed.
pub mod Laws
pub mod Delivery
pub mod Lost
mod Tests
use bfrost.Prelude.{
  ℕ, zero, suc, ◌+◌, ◌≤◌, String, Bool, true, false, ◌||◌, Option, none, some, List, [], ◌∷◌, ◌++◌,
  ◌≡◌, leb, ltb, includes, keep, if◌then◌else◌,
}

pub record Wakes : Type 0 where
  pub requested : ℕ
  pub handled : ℕ
  pub timer : Bool

-- A job with the types of the items that wake it.
pub record WakingJob : Type 0 where
  pub name : String
  pub wake_on : List String

names_of : List WakingJob → List String
names_of [] = []
names_of (job ∷ jobs) = job.name ∷ names_of jobs

pub jobs_waking_on : List WakingJob → String → List String
unfolding names_of
jobs_waking_on known item_type = names_of (keep (λ job. includes job.wake_on item_type) known)

pub schedule_pending_bus_wake : Wakes → Wakes
schedule_pending_bus_wake w =
    if leb w.requested w.handled then w else if w.timer then w else record w { timer = true }

pub schedule_bus_wake : Wakes → Wakes
unfolding schedule_pending_bus_wake
schedule_bus_wake w = schedule_pending_bus_wake (record w { requested = w.requested + 1 })

abbrev pub handle_version : ℕ → Wakes → Wakes
handle_version version w = record w { handled = version }

-- The job with its wakes: the versions that the calls of `runBusWake` have read that look at the job's
-- state now, and those of the calls that wait for the run they started; the runs that are in the pool,
-- and whether a handler goes on after its deadline.
pub record Desk : Type 0 where
  pub wakes : Wakes
  pub checking : List ℕ
  pub delivering : List ℕ
  pub runs : ℕ
  pub orphan : Bool

pub is_in_flight : Desk → Bool
is_in_flight d = ltb 0 d.runs || d.orphan

-- The timer: the start of `runBusWake`, up to where it first waits.
pub fire_timer : Desk → Desk
fire_timer d = record d {
  wakes = record d.wakes { timer = false };
  checking =
      if leb d.wakes.requested d.wakes.handled then d.checking else d.wakes.requested ∷ d.checking;
}

-- The end of a run in the pool, where `schedulePendingBusWake` is called.
pub end_run : ℕ → Bool → Desk → Desk
unfolding schedule_pending_bus_wake
end_run left timed_out d = record d {
  wakes = schedule_pending_bus_wake d.wakes;
  runs = left;
  orphan = d.orphan || timed_out;
}

-- The end of a call that marks its version as handled.
pub delivered : ℕ → Desk → Desk
unfolding schedule_pending_bus_wake
delivered version d = record d {
  wakes = schedule_pending_bus_wake (handle_version version d.wakes);
}

-- One step of an enabled job of an enabled worker. The flag says whether a run may time out.
pub data Step (may_time_out : Bool) : Desk → Desk → Type 0 where
  publish : (d : Desk) → Step may_time_out d (record d { wakes = schedule_bus_wake d.wakes })
  fire : (d : Desk) → d.wakes.timer ≡ true → Step may_time_out d (fire_timer d)
  -- `runBusWake` finds the job in flight and leaves its version unhandled.
  latch :
      (d : Desk) (front : List ℕ) (version : ℕ) (back : List ℕ)
      → d.checking ≡ front ++ version ∷ back
      → is_in_flight d ≡ true
      → Step may_time_out d (record d { checking = front ++ back })
  -- `runJob` queues the job.
  accept :
      (d : Desk) (front : List ℕ) (version : ℕ) (back : List ℕ)
      → d.checking ≡ front ++ version ∷ back
      → is_in_flight d ≡ false
      → Step may_time_out d (record d {
        checking = front ++ back;
        delivering = version ∷ d.delivering;
        runs = d.runs + 1;
      })
  -- `runJob` finds no work.
  refuse :
      (d : Desk) (front : List ℕ) (version : ℕ) (back : List ℕ)
      → d.checking ≡ front ++ version ∷ back
      → Step may_time_out d (delivered version (record d { checking = front ++ back }))
  -- `runJob` throws: the job has been queued meanwhile, or the worker is disabled.
  throw :
      (d : Desk) (front : List ℕ) (version : ℕ) (back : List ℕ)
      → d.checking ≡ front ++ version ∷ back
      → Step may_time_out d
          (record d { checking = front ++ back; wakes = schedule_pending_bus_wake d.wakes })
  -- Another trigger queues the job.
  trigger :
      (d : Desk) → is_in_flight d ≡ false → Step may_time_out d (record d { runs = d.runs + 1 })
  end :
      (d : Desk) (left : ℕ) (timed_out : Bool)
      → d.runs ≡ suc left
      → (may_time_out ≡ false → timed_out ≡ false)
      → Step may_time_out d (end_run left timed_out d)
  deliver :
      (d : Desk) (front : List ℕ) (version : ℕ) (back : List ℕ)
      → d.delivering ≡ front ++ version ∷ back
      → Step may_time_out d (delivered version (record d { delivering = front ++ back }))
  settle : (d : Desk) → d.orphan ≡ true → Step may_time_out d (record d { orphan = false })

pub data Steps (may_time_out : Bool) : Desk → Desk → Type 0 where
  done : (d : Desk) → Steps may_time_out d d
  next :
      (d middle after : Desk)
      → Step may_time_out d middle
      → Steps may_time_out middle after
      → Steps may_time_out d after
