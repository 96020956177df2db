-- ===== src/Scheduler/Pool/Sound.antt =====
-- At most one run of a worker, at most as many runs as there are slots, and no free slot while a run
-- waits for one (src/scheduler.ts).
use bfrost.Prelude.{
  ℕ, suc, String, true, List, [], ◌∷◌, ◌++◌, ◌≡◌, refl, arith, includes, lookup, Bool-cases, inl,
  inr, includes-append, ◌≢◌, ◌∙◌, sym, ltb, ap,
}
use bfrost.Scheduler.Pool.{
  acquire_worker_lock, release_worker_lock, acquire_job_slot, release_job_slot,
  finish_job_execution, slot_limit,
}
use bfrost.Scheduler.Pool.Steps.{
  System, Step, Steps, IsSound, start, arrive, request, end, done, next, after_arrival,
  after_request, after_end,
}
use bfrost.Scheduler.Pool.Slots.{
  release-IsRefilled, release_job_slot-locks, hand_off-slots, hand_off-locked,
}

start-IsSound : (limit : ℕ) → IsSound limit start
start-IsSound limit = record {
  apart = tt;
  locked = λ w. refl;
  counted = refl;
  bounded = omega arith;
  used = λ h. elim (h refl) [ ];
}

arrive-IsSound :
    (limit : ℕ) (w : String) (ticket : ℕ) (s : System)
    → IsSound limit s
    → IsSound limit (after_arrival w ticket s)
unfolding acquire_worker_lock
arrive-IsSound limit w ticket s i = elim (Bool-cases (includes s.pool.busy_workers w)) [
  | inl e ↦
      rw (acquire_worker_lock, e)
        record {
          apart = i.apart;
          locked = i.locked;
          counted = i.counted;
          bounded = i.bounded;
          used = i.used;
        }
  | inr e ↦
      rw (acquire_worker_lock, e)
        record {
          apart = (sym (i.locked w) ∙ e, i.apart);
          locked = λ v. ground (arith, includes-append s.pool.busy_workers (w ∷ []) v, i.locked v);
          counted = i.counted;
          bounded = i.bounded;
          used = i.used;
        }
]

append_not_nil : (xs : List ℕ) (x : ℕ) → xs ++ x ∷ [] ≢ []
append_not_nil [] x = λ h. cc
append_not_nil (y ∷ xs) x = λ h. cc

request-IsSound :
    (limit ticket : ℕ) (s : System) → IsSound limit s → IsSound limit (after_request limit ticket s)
unfolding acquire_job_slot
request-IsSound limit ticket s i =
    elim (Bool-cases (ltb s.pool.active_job_count (slot_limit limit))) [
      | inl e ↦
          rw (acquire_job_slot, e)
            record {
              apart = i.apart;
              locked = i.locked;
              counted = omega (arith, i.counted);
              bounded = ground (arith, e, i.counted);
              used = λ h. ground (arith, i.used h, e, i.counted);
            }
      | inr e ↦
          rw (acquire_job_slot, e)
            record {
              apart = i.apart;
              locked = i.locked;
              counted = i.counted;
              bounded = i.bounded;
              used = λ h. ground (arith, e, i.counted, i.bounded);
            }
    ]

end-IsSound :
    (limit : ℕ) (w : String) (left : ℕ) (s : System)
    → includes s.holding w ≡ true
    → s.executing ≡ suc left
    → IsSound limit s
    → IsSound limit (after_end limit w left s)
unfolding finish_job_execution release_worker_lock
end-IsSound limit w left s h e i =
    let freed = (release_job_slot limit s.pool).1 in
    let found = lookup w freed.worker_lock_waiters in
    let refilled = release-IsRefilled limit left s i e in
    let kept = release_job_slot-locks limit s.pool in
    let slots = hand_off-slots w found freed in
    let locks =
      hand_off-locked w found freed s.holding i.apart h
        (λ v. ap (λ busy. includes busy v) kept.0 ∙ i.locked v) in
    record {
      apart = locks.0;
      locked = locks.1;
      counted = slots.0 ∙ refilled.counted;
      bounded = refilled.bounded;
      used = λ k. refilled.used (λ none_wait. k (slots.1 ∙ none_wait));
    }

Step-IsSound : (limit : ℕ) {s t : System} → Step limit s t → IsSound limit s → IsSound limit t
Step-IsSound limit (arrive w ticket s) i = arrive-IsSound limit w ticket s i
Step-IsSound limit (request ticket s) i = request-IsSound limit ticket s i
Step-IsSound limit (end w left s h e) i = end-IsSound limit w left s h e i

Steps-IsSound : (limit : ℕ) {s t : System} → Steps limit s t → IsSound limit s → IsSound limit t
Steps-IsSound limit (done s) i = i
Steps-IsSound limit (next step steps) i = Steps-IsSound limit steps (Step-IsSound limit step i)

-- However the calls of the pool follow each other from the start, with one limit, no two runs of a
-- worker hold its lock together, a worker is marked busy exactly when a run of it does, the count of
-- active jobs is that of the runs that execute and within the limit, and a run waits for a slot only
-- while all slots are taken.
pub pool-IsSound : (limit : ℕ) (s : System) → Steps limit start s → IsSound limit s
pool-IsSound limit s steps = Steps-IsSound limit steps (start-IsSound limit)
