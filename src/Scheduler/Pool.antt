-- ===== src/Scheduler/Pool.antt =====
-- The bounded execution pool (src/scheduler.ts): one lock per worker and a number of slots. A promise
-- is a ticket: a call says whether its own promise resolves at once, and which other one it resolves.
pub mod Steps
pub mod Slots
pub mod Sound
pub mod Fifo
use bfrost.Prelude.{
  ℕ, ◌+◌, ◌-◌, String, Bool, true, false, not, Option, none, some, List, [], ◌∷◌, ◌++◌, ltb, max,
  includes, keep, str_eq, get_or_else, lookup, insert, remove, if◌then◌else◌,
}

pub record Pool : Type 0 where
  pub active_job_count : ℕ
  pub job_slot_waiters : List ℕ
  pub busy_workers : List String
  pub worker_lock_waiters : List (String × List ℕ)

-- `activeJobCount`, `jobSlotWaiters`, `busyWorkers` and `workerLockWaiters` as the module starts.
abbrev pub empty_pool : Pool
empty_pool = record {
  active_job_count = 0;
  job_slot_waiters = [];
  busy_workers = [];
  worker_lock_waiters = [];
}

pub acquire_worker_lock : String → ℕ → Pool → Bool × Pool
acquire_worker_lock worker_id ticket pool =
    if not (includes pool.busy_workers worker_id)
    then (true, record pool { busy_workers = pool.busy_workers ++ worker_id ∷ [] })
    else let waiters = get_or_else (lookup worker_id pool.worker_lock_waiters) [] in
      (
        false,
        record pool {
          worker_lock_waiters = insert worker_id (waiters ++ ticket ∷ []) pool.worker_lock_waiters;
        },
      )

-- The map after the first waiter is shifted: an empty queue is deleted.
pub shifted : String → List ℕ → List (String × List ℕ) → List (String × List ℕ)
shifted worker_id [] waiters = remove worker_id waiters
shifted worker_id (next ∷ rest) waiters = insert worker_id (next ∷ rest) waiters

pub hand_off : String → Option (List ℕ) → Pool → Option ℕ × Pool
unfolding shifted
hand_off worker_id none pool =
    (none, record pool { busy_workers = keep (λ w. not (str_eq w worker_id)) pool.busy_workers })
hand_off worker_id (some []) pool = (
  none,
  record pool {
    busy_workers = keep (λ w. not (str_eq w worker_id)) pool.busy_workers;
    worker_lock_waiters = remove worker_id pool.worker_lock_waiters;
  },
)
hand_off worker_id (some (next ∷ rest)) pool = (
  some next,
  record pool { worker_lock_waiters = shifted worker_id rest pool.worker_lock_waiters },
)

pub release_worker_lock : String → Pool → Option ℕ × Pool
unfolding hand_off
release_worker_lock worker_id pool =
    hand_off worker_id (lookup worker_id pool.worker_lock_waiters) pool

-- `Math.max(1, Math.floor(config.jobMaxConcurrency))` at a whole number.
pub slot_limit : ℕ → ℕ
slot_limit job_max_concurrency = max 1 job_max_concurrency

pub acquire_job_slot : ℕ → ℕ → Pool → Bool × Pool
unfolding slot_limit
acquire_job_slot job_max_concurrency ticket pool =
    if ltb pool.active_job_count (slot_limit job_max_concurrency)
    then (true, record pool { active_job_count = pool.active_job_count + 1 })
    else (false, record pool { job_slot_waiters = pool.job_slot_waiters ++ ticket ∷ [] })

-- `jobSlotWaiters.shift()?.()`: the waiter that is called counts itself.
pub wake_slot : List ℕ → Pool → Option ℕ × Pool
wake_slot [] pool = (none, pool)
wake_slot (next ∷ rest) pool = (
  some next,
  record pool { active_job_count = pool.active_job_count + 1; job_slot_waiters = rest },
)

pub release_job_slot : ℕ → Pool → Option ℕ × Pool
unfolding slot_limit wake_slot
release_job_slot job_max_concurrency pool =
    let freed = record pool { active_job_count = pool.active_job_count - 1 } in
    if ltb freed.active_job_count (slot_limit job_max_concurrency)
    then wake_slot freed.job_slot_waiters freed
    else (none, freed)

-- The end of `enqueueJobExecution`: the slot is released, then the lock of the worker.
pub finish_job_execution : ℕ → String → Pool → (Option ℕ × Option ℕ) × Pool
unfolding release_job_slot release_worker_lock
finish_job_execution job_max_concurrency worker_id pool =
    let (slot_next, freed) = release_job_slot job_max_concurrency pool in
    let (lock_next, after) = release_worker_lock worker_id freed in ((slot_next, lock_next), after)
