-- ===== src/Actions/Primitives/Waiting.antt =====
-- The wait for a decision ends (src/actions/primitives.ts).
use bfrost.Prelude.{
  ℕ, zero, suc, ◌+◌, ◌*◌, ◌/◌, ◌≤◌, String, true, false, List, ◌≡◌, refl, is_some, ltb, arith,
  Bool-cases, Option-cases, inl, inr, subst,
}
use bfrost.Actions.Store.{StoredActionRequest}
use bfrost.Actions.Store.Decisions.{after_actions}
use bfrost.Actions.Primitives.{Poll, poll_decision, poll_interval_ms, state_of, verdict}

-- The clock of each round is at least as many intervals after the start as there were rounds before it.
abbrev pub Paced : ℕ → (ℕ → Poll) → Type 0
Paced start poll_at = (n : ℕ) → start + poll_interval_ms * n ≤ (poll_at n).now

too_late :
    (now start timeout m : ℕ) → start + m ≤ now → timeout ≤ m → ltb now (start + timeout) ≡ false
too_late now start timeout m h k = ground (arith, h, k)

decided_within :
    (fuel start timeout : ℕ) (id : String) (poll_at : ℕ → Poll) (n : ℕ)
    (rows : List StoredActionRequest)
    → Paced start poll_at
    → timeout ≤ poll_interval_ms * (n + fuel)
    → is_some (poll_decision (suc fuel) (start + timeout) id poll_at n rows).0 ≡ true
unfolding poll_decision
decided_within zero start timeout id poll_at n rows p h =
    let late =
      too_late (poll_at n).now start timeout (poll_interval_ms * n) (p n) (omega (arith, h)) in
    rw (poll_decision, late) refl
decided_within (suc fuel) start timeout id poll_at n rows p h =
    let seen = after_actions (poll_at n).calls rows in
    elim (Bool-cases (ltb (poll_at n).now (start + timeout))) [
      | inl e ↦ elim (Option-cases (verdict (state_of id seen))) [
        | inl v ↦
            rw (poll_decision, e, v)
              (decided_within fuel start timeout id poll_at (suc n) seen p (omega (arith, h)))
        | inr (answer, v) ↦ rw (poll_decision, e, v) refl
      ]
      | inr e ↦ rw (poll_decision, e) refl
    ]

-- Where each round of the wait starts at least a second after the one before it, the rounds that
-- `wait_for_decision` allows are enough: the wait ends with a decision, or because the request is gone or
-- the deadline has come.
pub poll_decision-total :
    (timeout start : ℕ) (id : String) (poll_at : ℕ → Poll) (rows : List StoredActionRequest)
    → Paced start poll_at
    → is_some (poll_decision (timeout / poll_interval_ms + 2) (start + timeout) id poll_at 0 rows).0
      ≡ true
poll_decision-total timeout start id poll_at rows p =
    let fuel : suc (timeout / poll_interval_ms + 1) ≡ timeout / poll_interval_ms + 2 =
      omega arith in
    subst (λ rounds. is_some (poll_decision rounds (start + timeout) id poll_at 0 rows).0 ≡ true)
      fuel
      (decided_within (timeout / poll_interval_ms + 1) start timeout id poll_at 0 rows p
        (omega arith))
