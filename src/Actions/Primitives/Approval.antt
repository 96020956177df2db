-- ===== src/Actions/Primitives/Approval.antt =====
-- The wait for a decision that nobody makes (src/actions/primitives.ts).
use bfrost.Prelude.{
  ℕ, zero, suc, String, Bool, false, Option, none, some, List, ◌≡◌, refl, All, ltb, Bool-cases,
  Option-cases, inl, inr, get_or_else, sym, ◌/◌, ap, ◌+◌, ◌∙◌,
}
use bfrost.Actions.Store.{
  ActionState, StoredActionRequest, approved, rejected, pending, executed, failed,
  get_action_request,
}
use bfrost.Actions.Store.Decisions.{after_actions}
use bfrost.Actions.Store.Decisions.Held.{
  IsHeld, IsOther, is_approved, after_actions-IsHeld, IsHeld-unapproved,
}
use bfrost.Actions.Primitives.{
  Poll, poll_decision, wait_for_decision, state_of, verdict, default_timeout_ms, poll_interval_ms,
}

-- None of those who write to the table while the request waits approves it.
abbrev pub Unanswered : String → (ℕ → Poll) → Type 0
Unanswered id poll_at = (n : ℕ) → All (IsOther id) (poll_at n).calls

verdict-refuses :
    (state : ActionState) (answer : Bool)
    → is_approved state ≡ false
    → verdict (some state) ≡ some answer
    → answer ≡ false
verdict-refuses pending answer h e = cc
verdict-refuses approved answer h e = cc
verdict-refuses rejected answer h e = cc
verdict-refuses executed answer h e = cc
verdict-refuses failed answer h e = cc

state-refuses :
    (id : String) (rows : List StoredActionRequest) (answer : Bool)
    → IsHeld id rows
    → verdict (state_of id rows) ≡ some answer
    → answer ≡ false
state-refuses id rows answer g e = elim (Option-cases (get_action_request id rows)) [
  | inl h ↦
      let state : state_of id rows ≡ none = rw (state_of, h) refl in
      let told = sym (ap verdict state) ∙ e in cc
  | inr (request, h) ↦
      let state : state_of id rows ≡ some request.state = rw (state_of, h) refl in
      verdict-refuses request.state answer (IsHeld-unapproved id rows request g h)
        (sym (ap verdict state) ∙ e)
]

poll_decision-refuses :
    (fuel deadline : ℕ) (id : String) (poll_at : ℕ → Poll) (n : ℕ) (rows : List StoredActionRequest)
    → Unanswered id poll_at
    → IsHeld id rows
    → get_or_else (poll_decision fuel deadline id poll_at n rows).0 false ≡ false
unfolding poll_decision
poll_decision-refuses zero deadline id poll_at n rows u g = refl
poll_decision-refuses (suc fuel) deadline id poll_at n rows u g =
    let seen = after_actions (poll_at n).calls rows in
    let held = after_actions-IsHeld id (poll_at n).calls rows (u n) g in
    elim (Bool-cases (ltb (poll_at n).now deadline)) [
      | inl e ↦ elim (Option-cases (verdict (state_of id seen))) [
        | inl v ↦
            rw (poll_decision, e, v)
              (poll_decision-refuses fuel deadline id poll_at (suc n) seen u held)
        | inr (answer, v) ↦ rw (poll_decision, e, v) (state-refuses id seen answer held v)
      ]
      | inr e ↦ rw (poll_decision, e) refl
    ]

pub wait-refuses :
    (id : String) (timeout_ms : Option ℕ) (start : ℕ) (poll_at : ℕ → Poll)
    (rows : List StoredActionRequest)
    → Unanswered id poll_at
    → IsHeld id rows
    → (wait_for_decision id timeout_ms start poll_at rows).0 ≡ false
unfolding wait_for_decision
wait-refuses id timeout_ms start poll_at rows u g =
    let timeout = get_or_else timeout_ms default_timeout_ms in
    poll_decision-refuses (timeout / poll_interval_ms + 2) (start + timeout) id poll_at 0 rows u g
