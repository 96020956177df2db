-- ===== src/Scheduler/Pool/Fifo.antt =====
-- The order of the runs that wait for the lock of a worker (src/scheduler.ts).
use bfrost.Prelude.{
  ℕ, String, true, Option, none, some, List, [], ◌∷◌, ◌++◌, ◌≡◌, refl, arith, includes, lookup,
  lookup-insert, lookup-remove, get_or_else, eq_iff, ap, sym, ◌∙◌,
}
use mathlib.Core.List.{append-nil}
use bfrost.Scheduler.Pool.{Pool, acquire_worker_lock, release_worker_lock, hand_off, shifted}

-- The tickets that wait for the lock of a worker.
abbrev pub waiting : String → Pool → List ℕ
waiting w pool = get_or_else (lookup w pool.worker_lock_waiters) []

-- A run of the worker asks for its lock for every ticket.
pub acquire_all : String → List ℕ → Pool → Pool
unfolding acquire_worker_lock
acquire_all w [] pool = pool
acquire_all w (ticket ∷ tickets) pool = acquire_all w tickets (acquire_worker_lock w ticket pool).1

-- The tickets that are resumed as the lock is released as often as there are tickets.
pub release_all : String → List ℕ → Pool → List (Option ℕ)
unfolding release_worker_lock
release_all w [] pool = []
release_all w (ticket ∷ tickets) pool =
    (release_worker_lock w pool).0 ∷ release_all w tickets (release_worker_lock w pool).1

abbrev pub all_some : List ℕ → List (Option ℕ)
all_some [] = []
all_some (x ∷ xs) = some x ∷ all_some xs

append_one : (xs : List ℕ) (x : ℕ) (ys : List ℕ) → (xs ++ x ∷ []) ++ ys ≡ xs ++ x ∷ ys
append_one [] x ys = refl
append_one (z ∷ xs) x ys = ap (λ zs. z ∷ zs) (append_one xs x ys)

acquire-waiting :
    (w : String) (ticket : ℕ) (pool : Pool)
    → includes pool.busy_workers w ≡ true
    → (includes (acquire_worker_lock w ticket pool).1.busy_workers w ≡ true)
      × (waiting w (acquire_worker_lock w ticket pool).1 ≡ waiting w pool ++ ticket ∷ [])
unfolding acquire_worker_lock
acquire-waiting w ticket pool b =
    rw (acquire_worker_lock, b)
      (
        b,
        ap (λ found. get_or_else found [])
              (lookup-insert w w (waiting w pool ++ ticket ∷ []) pool.worker_lock_waiters)
            ∙ ground (arith, eq_iff w w),
      )

acquire_all-waiting :
    (w : String) (tickets : List ℕ) (pool : Pool)
    → includes pool.busy_workers w ≡ true
    → waiting w (acquire_all w tickets pool) ≡ waiting w pool ++ tickets
unfolding acquire_all
acquire_all-waiting w [] pool b = sym (append-nil (waiting w pool))
acquire_all-waiting w (ticket ∷ tickets) pool b =
    let step = acquire-waiting w ticket pool b in
    acquire_all-waiting w tickets (acquire_worker_lock w ticket pool).1 step.0
    ∙ ap (λ queue. queue ++ tickets) step.1
    ∙ append_one (waiting w pool) ticket tickets

shifted-waiting :
    (w : String) (rest : List ℕ) (waiters : List (String × List ℕ))
    → get_or_else (lookup w (shifted w rest waiters)) [] ≡ rest
unfolding shifted
shifted-waiting w [] waiters =
    ap (λ found. get_or_else found []) (lookup-remove w w waiters) ∙ ground (arith, eq_iff w w)
shifted-waiting w (x ∷ rest) waiters =
    ap (λ found. get_or_else found []) (lookup-insert w w (x ∷ rest) waiters)
    ∙ ground (arith, eq_iff w w)

hand_off-head :
    (w : String) (found : Option (List ℕ)) (pool : Pool) (x : ℕ) (rest : List ℕ)
    → get_or_else found [] ≡ x ∷ rest
    → ((hand_off w found pool).0 ≡ some x) × (waiting w (hand_off w found pool).1 ≡ rest)
unfolding hand_off
hand_off-head w none pool x rest h = cc
hand_off-head w (some []) pool x rest h = cc
hand_off-head w (some (y ∷ ys)) pool x rest h =
    let same : ys ≡ rest = cc in (cc, shifted-waiting w ys pool.worker_lock_waiters ∙ same)

release_all-waiting :
    (w : String) (tickets : List ℕ) (pool : Pool)
    → waiting w pool ≡ tickets
    → release_all w tickets pool ≡ all_some tickets
unfolding release_all release_worker_lock
release_all-waiting w [] pool h = refl
release_all-waiting w (ticket ∷ tickets) pool h =
    let step = hand_off-head w (lookup w pool.worker_lock_waiters) pool ticket tickets h in
    rw (step.0, release_all-waiting w tickets (release_worker_lock w pool).1 step.1) refl

-- Runs of a worker that ask for its lock while it is held, and before which none waits, are resumed
-- in the order in which they asked, one by each release.
pub release_all-acquire_all :
    (w : String) (tickets : List ℕ) (pool : Pool)
    → includes pool.busy_workers w ≡ true
    → waiting w pool ≡ []
    → release_all w tickets (acquire_all w tickets pool) ≡ all_some tickets
release_all-acquire_all w tickets pool b e =
    release_all-waiting w tickets (acquire_all w tickets pool)
      (acquire_all-waiting w tickets pool b ∙ ap (λ queue. queue ++ tickets) e)
