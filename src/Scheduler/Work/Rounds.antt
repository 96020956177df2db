-- ===== src/Scheduler/Work/Rounds.antt =====
-- The loop over the attempts of a run, up to the one that ends it (src/scheduler.ts), for any property
-- of the last attempt and of the state it leaves.
use bfrost.Prelude.{
  ℕ, zero, suc, ◌+◌, ◌≤◌, ◌<◌, String, true, false, Option, ◌≡◌, refl, leb, Bool-cases, inl, inr,
  arith, ◌==◌, ◌⊎◌, Bool, if◌then◌else◌, none, some, subst,
}
use bfrost.Scheduler.Runtime.{SchedulerState, LastStatus}
use bfrost.Scheduler.Work.{
  Work, Attempt, Outcome, returned, threw, timed_out, timeout_message, is_lock_failure, abandon_job,
  succeed, fail, retry_later, run_attempts,
}
use bfrost.Scheduler.Work.Ending.{IsDeciding, is_decisive, status_of, summary_of, error_of}

-- A property of the last attempt and its state that both ends of a run give, where what is known of the
-- state on the way is kept by all that happens before.
pub record Ends (w : Work) (attempt_at : ℕ → Attempt) (I : SchedulerState → Type 0)
    (G : Attempt → SchedulerState → Type 0) : Type 0 where
  pub kept : (number : ℕ) (st : SchedulerState) → I st → I ((attempt_at number).meanwhile st)
  pub retried :
      (number : ℕ) (a : Attempt) (message : String) (st : SchedulerState)
      → I st
      → I (retry_later w number a message st)
  pub abandoned : (st : SchedulerState) → I st → I (abandon_job w.job.name st)
  pub succeeds :
      (number : ℕ) (a : Attempt) (summary : String) (item_count : Option ℕ) (st : SchedulerState)
      → I st
      → a.outcome ≡ returned summary item_count
      → G a (succeed w number a summary item_count st)
  pub fails :
      (number : ℕ) (a : Attempt) (skipped : Bool) (message : String) (st : SchedulerState)
      → I st
      → (if skipped then LastStatus.skipped else LastStatus.error) ≡ status_of w a.outcome
      → none ≡ summary_of a.outcome
      → some message ≡ error_of w a.outcome
      → G a (fail w number a skipped message st)

abbrev pub EndsFrom :
    Work → (ℕ → Attempt) → (Attempt → SchedulerState → Type 0) → ℕ → SchedulerState → Type 0
EndsFrom w attempt_at G start st =
    (number : ℕ) × (IsDeciding w attempt_at start number × G (attempt_at number) st)

no_room : (number m : ℕ) → number ≤ m → m < number → ⊥
no_room number m above below = omega (arith, above, below)

eq_of_test : (m n : ℕ) → (m == n) ≡ true → m ≡ n
eq_of_test m n e = ground (arith, e)

here :
    (w : Work) (attempt_at : ℕ → Attempt) (G : Attempt → SchedulerState → Type 0) (number : ℕ)
    (st : SchedulerState)
    → number ≤ w.retry_policy.max_retries + 1
    → is_decisive w number (attempt_at number).outcome ≡ true
    → G (attempt_at number) st
    → EndsFrom w attempt_at G number st
here w attempt_at G number st h e ended = (
  number,
  (
    record {
      from_start = omega arith;
      allowed = h;
      last = e;
      earlier = λ m above below. elim (no_room number m above below) [ ];
    },
    ended,
  ),
)

later :
    (w : Work) (attempt_at : ℕ → Attempt) (G : Attempt → SchedulerState → Type 0) (number : ℕ)
    (st : SchedulerState)
    → is_decisive w number (attempt_at number).outcome ≡ false
    → EndsFrom w attempt_at G (suc number) st
    → EndsFrom w attempt_at G number st
later w attempt_at G number st e (n, (d, ended)) = (
  n,
  (
    record {
      from_start = omega (arith, d.from_start);
      allowed = d.allowed;
      last = d.last;
      earlier = λ m above below. elim (Bool-cases (m == number)) [
        | inl same ↦ rw (eq_of_test m number same) e
        | inr other ↦ d.earlier m (ground (arith, above, other)) below
      ];
    },
    ended,
  ),
)

Outcome-cases :
    (o : Outcome)
    → ((summary : String) × (item_count : Option ℕ) × (o ≡ returned summary item_count))
      ⊎ ((message : String) × (o ≡ threw message))
      ⊎ (o ≡ timed_out)
Outcome-cases (returned summary item_count) = inl (summary, item_count, refl)
Outcome-cases (threw message) = inr (inl (message, refl))
Outcome-cases timed_out = inr (inr refl)

module _ (w : Work) (attempt_at : ℕ → Attempt) (I : SchedulerState → Type 0)
    (G : Attempt → SchedulerState → Type 0) (ends : Ends w attempt_at I G) where
  abbrev settled : ℕ → SchedulerState → SchedulerState
  settled number st = (attempt_at number).meanwhile st

  abbrev HereEnds : ℕ → ℕ → SchedulerState → Type 0
  HereEnds r number st =
      EndsFrom w attempt_at G number (run_attempts w attempt_at (suc r) number st).1

  ends_after_throw :
      (r number : ℕ) (st : SchedulerState) (message : String)
      → I st
      → number ≤ w.retry_policy.max_retries + 1
      → (attempt_at number).outcome ≡ threw message
      → (leb (w.retry_policy.max_retries + 1) number ≡ false
          → EndsFrom w attempt_at G
              (suc number)
              (run_attempts w attempt_at r
                (suc number)
                (retry_later w number (attempt_at number) message (settled number st))).1)
      → HereEnds r number st
  unfolding run_attempts
  ends_after_throw r number st message i h e next = elim (Bool-cases (is_lock_failure message)) [
    | inl lock ↦
        rw (run_attempts, e, lock)
          (here w attempt_at G number
            (fail w number (attempt_at number) true message (settled number st)) h
            (rw (e, lock) refl)
            (ends.fails number (attempt_at number) true message (settled number st)
              (ends.kept number st i) (rw (e, lock) refl) (rw e refl) (rw e refl)))
    | inr other ↦ elim (Bool-cases (leb (w.retry_policy.max_retries + 1) number)) [
      | inl last ↦
          rw (run_attempts, e, other, last)
            (here w attempt_at G number
              (fail w number (attempt_at number) false message (settled number st)) h
              (rw (e, other, last) refl)
              (ends.fails number (attempt_at number) false message (settled number st)
                (ends.kept number st i) (rw (e, other) refl) (rw e refl) (rw e refl)))
      | inr more ↦
          rw (run_attempts, e, other, more)
            (later w attempt_at G number
              (run_attempts w attempt_at r (suc number)
                (retry_later w number (attempt_at number) message (settled number st))).1
              (rw (e, other, more) refl) (next more))
    ]
  ]

  ends_by_outcome :
      (r number : ℕ) (st : SchedulerState)
      → I st
      → number ≤ w.retry_policy.max_retries + 1
      → ((message : String)
          → leb (w.retry_policy.max_retries + 1) number ≡ false
          → EndsFrom w attempt_at G
              (suc number)
              (run_attempts w attempt_at r
                (suc number)
                (retry_later w number (attempt_at number) message (settled number st))).1)
      → HereEnds r number st
  unfolding run_attempts
  ends_by_outcome r number st i h next = elim (Outcome-cases (attempt_at number).outcome) [
    | inl (summary, item_count, e) ↦
        rw (run_attempts, e)
          (here w attempt_at G number
            (succeed w number (attempt_at number) summary item_count (settled number st)) h
            (rw e refl)
            (ends.succeeds number (attempt_at number) summary item_count (settled number st)
              (ends.kept number st i) e))
    | inr (inl (message, e)) ↦ ends_after_throw r number st message i h e (next message)
    | inr (inr e) ↦
        rw (run_attempts, e)
          (here w attempt_at G number
            (fail w number (attempt_at number) (is_lock_failure (timeout_message w))
              (timeout_message w) (abandon_job w.job.name (settled number st)))
            h (rw e refl)
            (ends.fails number (attempt_at number) (is_lock_failure (timeout_message w))
              (timeout_message w) (abandon_job w.job.name (settled number st))
              (ends.abandoned (settled number st) (ends.kept number st i)) (rw e refl) (rw e refl)
              (rw e refl)))
  ]

  no_attempt_left :
      (number : ℕ)
      → number + zero ≡ w.retry_policy.max_retries + 1
      → leb (w.retry_policy.max_retries + 1) number ≡ false
      → ⊥
  no_attempt_left number h more = ground (arith, h, more)

  run_attempts-EndsFrom :
      (r number : ℕ) (st : SchedulerState)
      → I st
      → number + r ≡ w.retry_policy.max_retries + 1
      → HereEnds r number st
  run_attempts-EndsFrom zero number st i h =
      ends_by_outcome zero number st i (omega (arith, h))
        (λ message more. elim (no_attempt_left number h more) [ ])
  run_attempts-EndsFrom (suc r) number st i h =
      ends_by_outcome (suc r) number st i (omega (arith, h)) (λ message more.
        run_attempts-EndsFrom r (suc number)
          (retry_later w number (attempt_at number) message (settled number st))
          (ends.retried number (attempt_at number) message (settled number st)
            (ends.kept number st i))
          (omega (arith, h)))

-- The loop starts with as many rounds as the policy allows.
pub run_attempts-EndsFrom_first :
    (w : Work) (attempt_at : ℕ → Attempt) (I : SchedulerState → Type 0)
    (G : Attempt → SchedulerState → Type 0) (st : SchedulerState)
    → Ends w attempt_at I G
    → I st
    → EndsFrom w attempt_at G 1 (run_attempts w attempt_at (w.retry_policy.max_retries + 1) 1 st).1
run_attempts-EndsFrom_first w attempt_at I G st ends i =
    let max_attempts : suc w.retry_policy.max_retries ≡ w.retry_policy.max_retries + 1 =
      omega arith in
    subst (λ rounds. EndsFrom w attempt_at G 1 (run_attempts w attempt_at rounds 1 st).1)
      max_attempts
      (run_attempts-EndsFrom w attempt_at I G ends w.retry_policy.max_retries 1 st i (omega arith))
