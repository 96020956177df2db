-- ===== src/Runs/Laws.antt =====
-- What every write of the run store keeps: the retention, and the newest first
-- (src/scheduler-runs.ts).
use bfrost.Prelude.{
  ℕ, zero, suc, ◌≤◌, true, false, some, List, [], ◌∷◌, ◌≡◌, arith, take, length, length-take, All,
  Bool-cases, inl, inr,
}
use bfrost.Platform.{Platform}
use bfrost.Runs.{RunRecord, save_runs, newest_first, insert_by_start, later, run_retention}

-- No run stands before one that started later.
abbrev pub NewestFirst : Platform → List RunRecord → Type 0
NewestFirst p [] = Unit {0}
NewestFirst p (x ∷ runs) = All (λ y. later p x y ≡ false) runs × NewestFirst p runs

-- At most as many runs as are retained, the newest first.
pub record IsRetained (p : Platform) (stored : List RunRecord) : Type 0 where
  pub bounded : length stored ≤ run_retention
  pub sorted : NewestFirst p stored

-- Every start time can be read.
abbrev pub Dated : Platform → RunRecord → Type 0
Dated p run = (t : ℕ) × (p.date_parse run.started_at ≡ some t)

later_asym : (p : Platform) (a b : RunRecord) → later p a b ≡ true → later p b a ≡ false
unfolding later
later_asym p a b h = ground arith

later_trans :
    (p : Platform) (a b c : RunRecord)
    → Dated p b
    → later p a b ≡ false
    → later p b c ≡ false
    → later p a c ≡ false
unfolding later
later_trans p a b c d h k = ground (arith, d.1)

All-insert :
    (P : RunRecord → Type 0) (p : Platform) (x : RunRecord) (runs : List RunRecord)
    → P x
    → All P runs
    → All P (insert_by_start p x runs)
unfolding insert_by_start
All-insert P p x [] h a = (h, tt)
All-insert P p x (y ∷ runs) h a = elim (Bool-cases (later p x y)) [
  | inl e ↦ rw e (a.0, All-insert P p x runs h a.1)
  | inr e ↦ rw e (h, a)
]

pub All-newest_first :
    (P : RunRecord → Type 0) (p : Platform) (runs : List RunRecord)
    → All P runs
    → All P (newest_first p runs)
unfolding newest_first
All-newest_first P p [] a = tt
All-newest_first P p (x ∷ runs) a =
    All-insert P p x (newest_first p runs) a.0 (All-newest_first P p runs a.1)

All-later :
    (p : Platform) (x y : RunRecord) (runs : List RunRecord)
    → Dated p y
    → later p x y ≡ false
    → All (λ z. later p y z ≡ false) runs
    → All (λ z. later p x z ≡ false) runs
All-later p x y [] d h a = tt
All-later p x y (z ∷ runs) d h a = (later_trans p x y z d h a.0, All-later p x y runs d h a.1)

insert-NewestFirst :
    (p : Platform) (x : RunRecord) (runs : List RunRecord)
    → All (Dated p) runs
    → NewestFirst p runs
    → NewestFirst p (insert_by_start p x runs)
unfolding insert_by_start
insert-NewestFirst p x [] d s = (tt, tt)
insert-NewestFirst p x (y ∷ runs) d s = elim (Bool-cases (later p x y)) [
  | inl e ↦ rw e (
    All-insert (λ z. later p y z ≡ false) p x runs (later_asym p x y e) s.0,
    insert-NewestFirst p x runs d.1 s.1,
  )
  | inr e ↦ rw e ((e, All-later p x y runs d.0 e s.0), s)
]

newest_first-NewestFirst :
    (p : Platform) (runs : List RunRecord)
    → All (Dated p) runs
    → NewestFirst p (newest_first p runs)
unfolding newest_first
newest_first-NewestFirst p [] d = tt
newest_first-NewestFirst p (x ∷ runs) d =
    insert-NewestFirst p x (newest_first p runs) (All-newest_first (Dated p) p runs d.1)
      (newest_first-NewestFirst p runs d.1)

pub All-take {ℓ} :
    {A : Type ℓ} (P : A → Type 0) (n : ℕ) (xs : List A) → All P xs → All P (take n xs)
All-take P zero xs a = tt
All-take P (suc n) [] a = tt
All-take P (suc n) (x ∷ xs) a = (a.0, All-take P n xs a.1)

take-NewestFirst :
    (p : Platform) (n : ℕ) (runs : List RunRecord)
    → NewestFirst p runs
    → NewestFirst p (take n runs)
take-NewestFirst p zero runs s = tt
take-NewestFirst p (suc n) [] s = tt
take-NewestFirst p (suc n) (x ∷ runs) s =
    (All-take (λ z. later p x z ≡ false) n runs s.0, take-NewestFirst p n runs s.1)

pub save_runs-IsRetained :
    (p : Platform) (runs : List RunRecord) → All (Dated p) runs → IsRetained p (save_runs p runs)
unfolding save_runs
save_runs-IsRetained p runs d = record {
  bounded = omega (arith, length-take run_retention (newest_first p runs));
  sorted =
      take-NewestFirst p run_retention (newest_first p runs) (newest_first-NewestFirst p runs d);
}
