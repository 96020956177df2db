-- ===== src/Scheduler/Pool/Slots.antt =====
-- The two halves of the end of a run (src/scheduler.ts): its slot, and the lock of its worker.
use bfrost.Prelude.{
  ℕ, suc, ◌≤◌, String, true, false, not, Option, none, some, List, [], ◌∷◌, ◌≡◌, refl, arith,
  includes, Distinct, keep, str_eq, eq_iff, Bool-cases, inl, inr, if◌then◌else◌, ◌≢◌, ◌∙◌, sym, ltb,
  ap, ◌-◌,
}
use bfrost.Scheduler.Pool.{Pool, release_job_slot, hand_off, wake_slot, slot_limit}
use bfrost.Scheduler.Pool.Steps.{System, IsSound, without, resumed, passed_on}

includes-without :
    (w v : String) (xs : List String)
    → Distinct xs
    → includes (without w xs) v ≡ (if str_eq v w then false else includes xs v)
includes-without w v [] d = ground arith
includes-without w v (x ∷ xs) d =
    ground (arith, d.0, includes-without w v xs d.1, eq_iff x w, eq_iff v w, eq_iff x v)

Distinct-without : (w : String) (xs : List String) → Distinct xs → Distinct (without w xs)
Distinct-without w [] d = tt
Distinct-without w (x ∷ xs) d = elim (Bool-cases (str_eq x w)) [
  | inl e ↦ rw e d.1
  | inr e ↦ rw e (includes-without w x xs d.1 ∙ rw e d.0, Distinct-without w xs d.1)
]

includes-keep-not :
    (w v : String) (xs : List String)
    → includes (keep (λ x. not (str_eq x w)) xs) v ≡ (if str_eq v w then false else includes xs v)
includes-keep-not w v [] = ground arith
includes-keep-not w v (x ∷ xs) =
    ground (arith, includes-keep-not w v xs, eq_iff x w, eq_iff v w, eq_iff x v)

-- The slot half of the end of a run: what stays true of the count, and of who waits.
pub record IsRefilled (limit left : ℕ) (released : Option ℕ × Pool) : Type 0 where
  pub counted : released.1.active_job_count ≡ resumed released.0 left
  pub bounded : resumed released.0 left ≤ slot_limit limit
  pub used : released.1.job_slot_waiters ≢ [] → resumed released.0 left ≡ slot_limit limit

wake-IsRefilled :
    (limit left : ℕ) (waiters : List ℕ) (pool : Pool)
    → pool.job_slot_waiters ≡ waiters
    → pool.active_job_count ≡ left
    → suc left ≤ slot_limit limit
    → (waiters ≢ [] → suc left ≡ slot_limit limit)
    → IsRefilled limit left (wake_slot waiters pool)
unfolding wake_slot
wake-IsRefilled limit left [] pool h c b u = record {
  counted = c;
  bounded = omega (arith, b);
  used = λ k. elim (k h) [ ];
}
wake-IsRefilled limit left (x ∷ waiters) pool h c b u = record {
  counted = omega (arith, c);
  bounded = b;
  used = λ k. u (λ e. cc);
}

pub release-IsRefilled :
    (limit left : ℕ) (s : System)
    → IsSound limit s
    → s.executing ≡ suc left
    → IsRefilled limit left (release_job_slot limit s.pool)
unfolding release_job_slot
release-IsRefilled limit left s i e =
    let freed : Pool = record s.pool { active_job_count = s.pool.active_job_count - 1 } in
    let c : freed.active_job_count ≡ left = omega (arith, e, i.counted) in
    let b : suc left ≤ slot_limit limit = omega (arith, i.bounded, e) in
    let lower : ltb freed.active_job_count (slot_limit limit) ≡ true = ground (arith, c, b) in
    rw (release_job_slot, lower)
      (wake-IsRefilled limit left freed.job_slot_waiters freed refl c b (λ h. sym e ∙ i.used h))

wake_slot-locks :
    (waiters : List ℕ) (pool : Pool)
    → ((wake_slot waiters pool).1.busy_workers ≡ pool.busy_workers)
      × ((wake_slot waiters pool).1.worker_lock_waiters ≡ pool.worker_lock_waiters)
unfolding wake_slot
wake_slot-locks [] pool = (refl, refl)
wake_slot-locks (x ∷ rest) pool = (refl, refl)

-- A release of a slot leaves the locks alone.
pub release_job_slot-locks :
    (limit : ℕ) (pool : Pool)
    → ((release_job_slot limit pool).1.busy_workers ≡ pool.busy_workers)
      × ((release_job_slot limit pool).1.worker_lock_waiters ≡ pool.worker_lock_waiters)
unfolding release_job_slot wake_slot
release_job_slot-locks limit pool =
    elim (Bool-cases (ltb (pool.active_job_count - 1) (slot_limit limit))) [
      | inr e ↦ rw (release_job_slot, e) (refl, refl)
      | inl e ↦ rw (release_job_slot, e) (wake_slot-locks pool.job_slot_waiters _)
    ]

-- A release of a lock leaves the slots alone.
pub hand_off-slots :
    (w : String) (found : Option (List ℕ)) (pool : Pool)
    → ((hand_off w found pool).1.active_job_count ≡ pool.active_job_count)
      × ((hand_off w found pool).1.job_slot_waiters ≡ pool.job_slot_waiters)
unfolding hand_off
hand_off-slots w none pool = (refl, refl)
hand_off-slots w (some []) pool = (refl, refl)
hand_off-slots w (some (x ∷ rest)) pool = (refl, refl)

gone :
    (w v : String) (pool : Pool) (holding : List String)
    → Distinct holding
    → includes pool.busy_workers v ≡ includes holding v
    → includes (keep (λ x. not (str_eq x w)) pool.busy_workers) v ≡ includes (without w holding) v
gone w v pool holding d l =
    includes-keep-not w v pool.busy_workers
    ∙ ap (λ b. if str_eq v w then false else b) l
    ∙ sym (includes-without w v holding d)

-- The lock half of the end of a run.
pub hand_off-locked :
    (w : String) (found : Option (List ℕ)) (pool : Pool) (holding : List String)
    → Distinct holding
    → includes holding w ≡ true
    → ((v : String) → includes pool.busy_workers v ≡ includes holding v)
    → Distinct (passed_on (hand_off w found pool).0 w (without w holding))
      × ((v : String)
          → includes (hand_off w found pool).1.busy_workers v
            ≡ includes (passed_on (hand_off w found pool).0 w (without w holding)) v)
unfolding hand_off
hand_off-locked w none pool holding d h l =
    (Distinct-without w holding d, λ v. gone w v pool holding d (l v))
hand_off-locked w (some []) pool holding d h l =
    (Distinct-without w holding d, λ v. gone w v pool holding d (l v))
hand_off-locked w (some (x ∷ rest)) pool holding d h l = (
  (includes-without w w holding d ∙ ground (arith, eq_iff w w), Distinct-without w holding d),
  λ v. ground (arith, l v, includes-without w v holding d, eq_iff w v, eq_iff v w, h),
)
