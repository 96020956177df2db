-- ===== src/Scheduler/Wakes/Delivery.antt =====
-- A wake can always be handled, and where one is lost (src/scheduler.ts).
use bfrost.Prelude.{
  ℕ, zero, suc, ◌+◌, ◌≤◌, ◌<◌, Bool, true, false, List, [], ◌∷◌, ◌≡◌, refl, inl, inr, leb,
  Bool-cases, arith, subst, ◌∙◌,
}
use bfrost.Scheduler.Wakes.{
  Wakes, Desk, Steps, done, next, fire, accept, end, deliver, schedule_pending_bus_wake,
  handle_version, fire_timer, end_run, delivered, is_in_flight,
}
use bfrost.Scheduler.Wakes.Laws.{IsLatched, pending_timer}

and_then :
    {b : Bool} {d middle after : Desk} → Steps b d middle → Steps b middle after → Steps b d after
and_then (done d) rest = rest
and_then (next d m middle s steps) rest = next d m _ s (and_then steps rest)

-- The wake that was asked for is handled in the end, and no other has been asked for: a publication
-- adds one to `requested`, and no step takes one off it.
abbrev pub Handles : Desk → Type 0
Handles d =
    (after : Desk) × (Steps false d after)
    × (after.wakes.requested ≡ d.wakes.requested)
    × (d.wakes.requested ≤ after.wakes.handled)

pending-requested : (w : Wakes) → (schedule_pending_bus_wake w).requested ≡ w.requested
unfolding schedule_pending_bus_wake
pending-requested w = ground arith

pending-handled : (w : Wakes) → (schedule_pending_bus_wake w).handled ≡ w.handled
unfolding schedule_pending_bus_wake
pending-handled w = ground arith

not_in_flight : (d : Desk) → d.runs ≡ 0 → d.orphan ≡ false → is_in_flight d ≡ false
unfolding is_in_flight
not_in_flight d hr ho = ground (arith, hr, ho)

-- A state in which no run is in flight and the timer is set for what is not handled.
pub record Calm (requested : ℕ) (d : Desk) : Type 0 where
  pub same : d.wakes.requested ≡ requested
  pub no_runs : d.runs ≡ 0
  pub no_orphan : d.orphan ≡ false
  pub armed : d.wakes.handled < d.wakes.requested → d.wakes.timer ≡ true

Calm-after_delivery :
    (version : ℕ) (d : Desk)
    → d.runs ≡ 0
    → d.orphan ≡ false
    → Calm d.wakes.requested (delivered version d)
unfolding delivered
Calm-after_delivery version d hr ho = record {
  same = pending-requested (handle_version version d.wakes);
  no_runs = hr;
  no_orphan = ho;
  armed = pending_timer (handle_version version d.wakes);
}

-- A call that looks at the job's state starts a run, which ends, and is over.
from_check :
    (d : Desk) (version : ℕ) (back : List ℕ)
    → d.checking ≡ version ∷ back
    → d.runs ≡ 0
    → d.orphan ≡ false
    → (after : Desk) × (Steps false d after)
      × (Calm d.wakes.requested after)
      × (after.wakes.handled ≡ version)
unfolding end_run delivered
from_check d version back e hr ho =
    let accepted : Desk = record d {
      checking = back;
      delivering = version ∷ d.delivering;
      runs = d.runs + 1;
    } in
    let ended : Desk = end_run 0 false accepted in
    let last : Desk = record ended { delivering = d.delivering } in
    (
      delivered version last,
      next _ _ _ (accept d [] version back e (not_in_flight d hr ho)) (
          next _ _ _ (end accepted 0 false (omega (arith, hr)) (λ never. refl))
            (next _ _ _ (deliver ended [] version d.delivering refl) (done _))),
      subst (λ requested. Calm requested (delivered version last)) (pending-requested d.wakes)
          (Calm-after_delivery version last refl (ground (arith, ho))),
      pending-handled (handle_version version last.wakes),
    )

from_timer : (d : Desk) → Calm d.wakes.requested d → d.wakes.handled < d.wakes.requested → Handles d
unfolding fire_timer
from_timer d c h =
    let r =
      from_check (fire_timer d) d.wakes.requested d.checking (ground (arith, h)) c.no_runs
        c.no_orphan in
    (r.0, next _ _ _ (fire d (c.armed h)) r.1, r.2.same, omega (arith, r.3))

from_calm : (d : Desk) → Calm d.wakes.requested d → Handles d
from_calm d c = elim (Bool-cases (leb d.wakes.requested d.wakes.handled)) [
  | inl e ↦ (d, done d, refl, ground (arith, e))
  | inr e ↦ from_timer d c (ground (arith, e))
]

continue : (d middle : Desk) → Steps false d middle → Calm d.wakes.requested middle → Handles d
continue d middle steps c =
    let own : Calm middle.wakes.requested middle = record {
      same = refl;
      no_runs = c.no_runs;
      no_orphan = c.no_orphan;
      armed = c.armed;
    } in
    let r = from_calm middle own in
    (r.0, and_then steps r.1, r.2 ∙ c.same, omega (arith, r.3, c.same))

-- The runs in the pool end, one after the other.
drained :
    (n : ℕ) (d : Desk)
    → d.runs ≡ suc n
    → d.orphan ≡ false
    → (after : Desk) × (Steps false d after) × (Calm d.wakes.requested after)
unfolding end_run
drained zero d hr ho = (
  end_run 0 false d,
  next _ _ _ (end d 0 false hr (λ never. refl)) (done _),
  record {
    same = pending-requested d.wakes;
    no_runs = refl;
    no_orphan = ground (arith, ho);
    armed = pending_timer d.wakes;
  },
)
drained (suc n) d hr ho =
    let r = drained n (end_run (suc n) false d) refl (ground (arith, ho)) in
    (
      r.0,
      next _ _ _ (end d (suc n) false hr (λ never. refl)) r.1,
      subst (λ requested. Calm requested r.0) (pending-requested d.wakes) r.2,
    )

waiting_call :
    (d : Desk)
    → d.runs ≡ 0
    → IsLatched d
    → (checking delivering : List ℕ) → d.checking ≡ checking
    → d.delivering ≡ delivering
    → Handles d
waiting_call d hr g (version ∷ back) delivering hc hd =
    let r = from_check d version back hc hr g.no_orphan in continue d r.0 r.1 r.2
waiting_call d hr g [] (version ∷ back) hc hd =
    let last : Desk = record d { delivering = back } in
    continue d (delivered version last) (next _ _ _ (deliver d [] version back hd) (done _))
      (Calm-after_delivery version last hr g.no_orphan)
waiting_call d hr g [] [] hc hd = from_calm d (record {
  same = refl;
  no_runs = hr;
  no_orphan = g.no_orphan;
  armed = λ h. ground (arith, g.seen h, hr, hc, hd);
})

by_runs : (n : ℕ) (d : Desk) → d.runs ≡ n → IsLatched d → Handles d
by_runs zero d hr g = waiting_call d hr g d.checking d.delivering refl refl
by_runs (suc n) d hr g = let r = drained n d hr g.no_orphan in continue d r.0 r.1 r.2

-- From a state in which a wake that is not handled has someone who will see to it, and no handler goes on
-- after its deadline: the runs, the timer and the calls can always go on, without a further publication
-- and without a timeout, to a state in which no more is asked for than at the
-- first and all of it is handled.
pub wake-Handles : (d : Desk) → IsLatched d → Handles d
wake-Handles d g = by_runs d.runs d refl g
