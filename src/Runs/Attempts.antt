-- ===== src/Runs/Attempts.antt =====
-- The attempts of a run (src/scheduler-runs.ts): each number once, in order.
use bfrost.Prelude.{
  ℕ, ◌<◌, ◌==◌, not, Option, some, List, [], ◌∷◌, ◌++◌, ◌≡◌, ◌≢◌, refl, arith, keep, find, All,
  All-keep, All-append, Bool-cases, inl, inr, if◌then◌else◌, ltb, ◌∙◌, ap,
}
use bfrost.Runs.{RunRecord, RunAttempt, with_attempt, insert_attempt, sort_attempts}

abbrev pub DistinctAttempts : List RunAttempt → Type 0
DistinctAttempts [] = Unit {0}
DistinctAttempts (x ∷ xs) = All (λ y. x.attempt ≢ y.attempt) xs × DistinctAttempts xs

abbrev pub Ascending : List RunAttempt → Type 0
Ascending [] = Unit {0}
Ascending (x ∷ xs) = All (λ y. x.attempt < y.attempt) xs × Ascending xs

abbrev pub attempt_of : ℕ → List RunAttempt → Option RunAttempt
attempt_of n xs = find (λ x. x.attempt == n) xs

module _ (P : RunAttempt → Type 0) where
  All-insert_attempt :
      (a : RunAttempt) (xs : List RunAttempt) → P a → All P xs → All P (insert_attempt a xs)
  unfolding insert_attempt
  All-insert_attempt a [] h k = (h, tt)
  All-insert_attempt a (x ∷ xs) h k = elim (Bool-cases (ltb x.attempt a.attempt)) [
    | inl e ↦ rw e (k.0, All-insert_attempt a xs h k.1)
    | inr e ↦ rw e (h, k)
  ]

  All-sort_attempts : (xs : List RunAttempt) → All P xs → All P (sort_attempts xs)
  unfolding sort_attempts
  All-sort_attempts [] k = tt
  All-sort_attempts (x ∷ xs) k =
      All-insert_attempt x (sort_attempts xs) k.0 (All-sort_attempts xs k.1)

All-above :
    (a x : RunAttempt) (xs : List RunAttempt)
    → a.attempt < x.attempt
    → All (λ y. x.attempt < y.attempt) xs
    → All (λ y. a.attempt < y.attempt) xs
All-above a x [] h k = tt
All-above a x (y ∷ xs) h k = (omega (arith, h, k.0), All-above a x xs h k.1)

insert_attempt-Ascending :
    (a : RunAttempt) (xs : List RunAttempt)
    → All (λ y. a.attempt ≢ y.attempt) xs
    → Ascending xs
    → Ascending (insert_attempt a xs)
unfolding insert_attempt
insert_attempt-Ascending a [] h k = (tt, tt)
insert_attempt-Ascending a (x ∷ xs) h k = elim (Bool-cases (ltb x.attempt a.attempt)) [
  | inl e ↦
      let above : x.attempt < a.attempt = ground (arith, e) in
      rw e (
        All-insert_attempt (λ y. x.attempt < y.attempt) a xs above k.0,
        insert_attempt-Ascending a xs h.1 k.1,
      )
  | inr e ↦
      let above : a.attempt < x.attempt = ground (arith, e, h.0) in
      rw e ((above, All-above a x xs above k.0), k)
]

sort_attempts-Ascending :
    (xs : List RunAttempt) → DistinctAttempts xs → Ascending (sort_attempts xs)
unfolding sort_attempts
sort_attempts-Ascending [] d = tt
sort_attempts-Ascending (x ∷ xs) d =
    insert_attempt-Ascending x (sort_attempts xs)
      (All-sort_attempts (λ y. x.attempt ≢ y.attempt) xs d.0) (sort_attempts-Ascending xs d.1)

attempt_of-insert :
    (n : ℕ) (a : RunAttempt) (xs : List RunAttempt)
    → All (λ y. a.attempt ≢ y.attempt) xs
    → attempt_of n (insert_attempt a xs) ≡ attempt_of n (a ∷ xs)
unfolding insert_attempt
attempt_of-insert n a [] h = refl
attempt_of-insert n a (x ∷ xs) h = ground (arith, h.0, attempt_of-insert n a xs h.1)

attempt_of-sort :
    (n : ℕ) (xs : List RunAttempt)
    → DistinctAttempts xs
    → attempt_of n (sort_attempts xs) ≡ attempt_of n xs
unfolding sort_attempts
attempt_of-sort n [] d = refl
attempt_of-sort n (x ∷ xs) d =
    attempt_of-insert n x (sort_attempts xs) (All-sort_attempts (λ y. x.attempt ≢ y.attempt) xs d.0)
    ∙ ap (λ rest. if x.attempt == n then some x else rest) (attempt_of-sort n xs d.1)

-- The attempts with a number other than that of the new one, and the new one.
abbrev replaced : RunAttempt → List RunAttempt → List RunAttempt
replaced a xs = keep (λ x. not (x.attempt == a.attempt)) xs ++ a ∷ []

replaced-Distinct :
    (a : RunAttempt) (xs : List RunAttempt) → DistinctAttempts xs → DistinctAttempts (replaced a xs)
replaced-Distinct a [] d = (tt, tt)
replaced-Distinct a (x ∷ xs) d = elim (Bool-cases (x.attempt == a.attempt)) [
  | inl e ↦ rw e (replaced-Distinct a xs d.1)
  | inr e ↦
      let apart : x.attempt ≢ a.attempt = ground (arith, e) in
      rw e (
        All-append (λ y. x.attempt ≢ y.attempt) (keep (λ y. not (y.attempt == a.attempt)) xs)
            (a ∷ [])
            (All-keep (λ y. x.attempt ≢ y.attempt) (λ y. not (y.attempt == a.attempt)) xs d.0)
            (apart, tt),
        replaced-Distinct a xs d.1,
      )
]

attempt_of-replaced :
    (n : ℕ) (a : RunAttempt) (xs : List RunAttempt)
    → attempt_of n (replaced a xs) ≡ (if a.attempt == n then some a else attempt_of n xs)
attempt_of-replaced n a [] = refl
attempt_of-replaced n a (x ∷ xs) = ground (arith, attempt_of-replaced n a xs)

-- What recording an attempt makes of the attempts of a run.
pub record IsRecorded (attempt : RunAttempt) (old new : List RunAttempt) : Type 0 where
  pub ascending : Ascending new
  pub reads :
      (n : ℕ) → attempt_of n new ≡ (if attempt.attempt == n then some attempt else attempt_of n old)

-- Where the attempts of a run have different numbers, recording one leaves them in ascending order,
-- finds the new attempt under its number, in place of the old one if there was one, and finds under
-- every other number what was there.
pub with_attempt-IsRecorded :
    (attempt : RunAttempt) (run : RunRecord)
    → DistinctAttempts run.attempts
    → IsRecorded attempt run.attempts (with_attempt attempt run).attempts
unfolding with_attempt
with_attempt-IsRecorded attempt run d = record {
  ascending =
      sort_attempts-Ascending (replaced attempt run.attempts)
        (replaced-Distinct attempt run.attempts d);
  reads = λ n.
      attempt_of-sort n (replaced attempt run.attempts) (replaced-Distinct attempt run.attempts d)
      ∙ attempt_of-replaced n attempt run.attempts;
}
