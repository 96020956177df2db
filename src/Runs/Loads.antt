-- ===== src/Runs/Loads.antt =====
-- What the newest 200 runs of a store of at most so many are (src/scheduler-runs.ts).
use bfrost.Prelude.{ℕ, zero, suc, ◌+◌, ◌≤◌, List, [], ◌∷◌, ◌≡◌, refl, arith, take, length, ap}
use bfrost.Platform.{Platform}
use bfrost.Runs.{
  RunRecord, newest_first, insert_by_start, load_scheduler_runs, run_retention, clamp_limit,
}

length-insert :
    (p : Platform) (x : RunRecord) (runs : List RunRecord)
    → length (insert_by_start p x runs) ≡ 1 + length runs
unfolding insert_by_start
length-insert p x [] = omega arith
length-insert p x (y ∷ runs) = ground (arith, length-insert p x runs)

pub length-newest_first :
    (p : Platform) (runs : List RunRecord) → length (newest_first p runs) ≡ length runs
unfolding newest_first
length-newest_first p [] = refl
length-newest_first p (x ∷ runs) =
    omega (arith, length-insert p x (newest_first p runs), length-newest_first p runs)

pub take_all : (n : ℕ) (runs : List RunRecord) → length runs ≤ n → take n runs ≡ runs
take_all zero [] h = refl
take_all zero (x ∷ runs) h = ground arith
take_all (suc n) [] h = refl
take_all (suc n) (x ∷ runs) h = ap (λ rest. x ∷ rest) (take_all n runs (omega arith))

pub load_all :
    (p : Platform) (stored : List RunRecord)
    → length stored ≤ run_retention
    → load_scheduler_runs p stored run_retention ≡ newest_first p stored
unfolding load_scheduler_runs clamp_limit
load_all p stored h =
    take_all run_retention (newest_first p stored) (omega (arith, h, length-newest_first p stored))
