-- ===== src/Scheduler/Pool/Steps.antt =====
-- The pool under any order of its calls (src/scheduler.ts).
use bfrost.Prelude.{
  ℕ, suc, ◌≤◌, String, true, Option, none, some, List, [], ◌∷◌, ◌≡◌, includes, Distinct, str_eq,
  if◌then◌else◌, ◌≢◌,
}
use bfrost.Scheduler.Pool.{
  Pool, empty_pool, acquire_worker_lock, acquire_job_slot, finish_job_execution, slot_limit,
}

-- The pool, the workers of the runs whose lock promise is resolved and that have not released it, and
-- the number of runs whose slot promise is resolved and that have not released it.
pub record System : Type 0 where
  pub pool : Pool
  pub holding : List String
  pub executing : ℕ

abbrev pub start : System
start = record { pool = empty_pool; holding = []; executing = 0 }

-- One run of the worker gives the lock up.
abbrev pub without : String → List String → List String
without worker_id [] = []
without worker_id (x ∷ xs) =
    let rest = without worker_id xs in if str_eq x worker_id then xs else x ∷ rest

abbrev pub resumed : Option ℕ → ℕ → ℕ
resumed none n = n
resumed (some ticket) n = suc n

abbrev pub passed_on : Option ℕ → String → List String → List String
passed_on none worker_id holding = holding
passed_on (some ticket) worker_id holding = worker_id ∷ holding

abbrev pub after_arrival : String → ℕ → System → System
after_arrival worker_id ticket s = record {
  pool = (acquire_worker_lock worker_id ticket s.pool).1;
  holding =
      if (acquire_worker_lock worker_id ticket s.pool).0 then worker_id ∷ s.holding else s.holding;
  executing = s.executing;
}

abbrev pub after_request : ℕ → ℕ → System → System
after_request limit ticket s = record {
  pool = (acquire_job_slot limit ticket s.pool).1;
  holding = s.holding;
  executing = if (acquire_job_slot limit ticket s.pool).0 then suc s.executing else s.executing;
}

abbrev pub after_end : ℕ → String → ℕ → System → System
after_end limit worker_id left s =
    let released = finish_job_execution limit worker_id s.pool in
    record {
      pool = released.1;
      holding = passed_on released.0.1 worker_id (without worker_id s.holding);
      executing = resumed released.0.0 left;
    }

-- A run arrives, a run that has its lock asks for a slot, or a run that executes ends.
pub data Step (limit : ℕ) : System → System → Type 0 where
  arrive :
      (worker_id : String) (ticket : ℕ) (s : System)
      → Step limit s (after_arrival worker_id ticket s)
  request : (ticket : ℕ) (s : System) → Step limit s (after_request limit ticket s)
  end :
      (worker_id : String) (left : ℕ) (s : System)
      → includes s.holding worker_id ≡ true
      → s.executing ≡ suc left
      → Step limit s (after_end limit worker_id left s)

pub data Steps (limit : ℕ) : System → System → Type 0 where
  done : (s : System) → Steps limit s s
  next : {s t u : System} → Step limit s t → Steps limit t u → Steps limit s u

-- The pool's own fields agree with the runs.
pub record IsSound (limit : ℕ) (s : System) : Type 0 where
  pub apart : Distinct s.holding
  pub locked : (w : String) → includes s.pool.busy_workers w ≡ includes s.holding w
  pub counted : s.pool.active_job_count ≡ s.executing
  pub bounded : s.executing ≤ slot_limit limit
  pub used : s.pool.job_slot_waiters ≢ [] → s.executing ≡ slot_limit limit
