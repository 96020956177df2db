-- ===== src/Actions/Store/Decisions.antt =====
-- The life of an action request (src/actions/store.ts).
pub mod Final
pub mod Held
use bfrost.Prelude.{
  ◌==◌, subst, ℕ, String, true, false, Option, none, some, List, [], ◌∷◌, ◌++◌, ◌≡◌, inl, inr, refl,
  arith, ap, sym, ◌∙◌, All, All-append, Bool-cases, str_eq, is_some, ◌&&◌, subst,
}
use bfrost.Actions.Store.{
  ActionClass, ActionState, StoredActionRequest, ActionInput, ActionResult, pending, approved,
  rejected, executed, failed, create_action_request, approve_action_request, reject_action_request,
  mark_action_executed, decide_rows, execute_rows, decided, is_pending, is_decided, find_row,
  new_row, initial_state,
}

-- The times that a request of a state has: a pending one neither, a decided one its decision.
abbrev pub Timely : ActionState → Option ℕ → Option ℕ → Type 0
Timely pending decided_at executed_at = (decided_at ≡ none) × (executed_at ≡ none)
Timely approved decided_at executed_at = ((t : ℕ) × (decided_at ≡ some t)) × (executed_at ≡ none)
Timely rejected decided_at executed_at = ((t : ℕ) × (decided_at ≡ some t)) × (executed_at ≡ none)
Timely _ decided_at executed_at = (t : ℕ) × (executed_at ≡ some t)

abbrev pub IsRequest : StoredActionRequest → Type 0
IsRequest row = Timely row.state row.decided_at row.executed_at

-- The writes of the table.
pub data ActionCall : Type 0 where
  create : String → ℕ → ActionInput → ActionCall
  approve : ℕ → String → ActionCall
  reject : ℕ → String → ActionCall
  mark : String → ActionResult → ActionCall

-- The rows after a call; an insertion that throws leaves them.
pub after_action : ActionCall → List StoredActionRequest → List StoredActionRequest
after_action (create id now opts) rows = elim (create_action_request id now opts rows) [
  | none ↦ rows
  | some (created, after) ↦ after
]
after_action (approve now id) rows = (approve_action_request now id rows).1
after_action (reject now id) rows = (reject_action_request now id rows).1
after_action (mark id result) rows = (mark_action_executed id result rows).1

pub after_actions : List ActionCall → List StoredActionRequest → List StoredActionRequest
unfolding after_action
after_actions [] rows = rows
after_actions (call ∷ calls) rows = after_actions calls (after_action call rows)

decided-rows : (id : String) (found : ℕ × List StoredActionRequest) → (decided id found).1 ≡ found.1
unfolding decided
decided-rows id (changes, rows) = elim (Bool-cases (changes == 0)) [
  | inl e ↦ rw (decided, e) refl
  | inr e ↦ rw (decided, e) refl
]

pub approve-rows :
    (now : ℕ) (id : String) (rows : List StoredActionRequest)
    → (approve_action_request now id rows).1 ≡ (decide_rows approved now id rows).1
unfolding approve_action_request
approve-rows now id rows = decided-rows id (decide_rows approved now id rows)

pub reject-rows :
    (now : ℕ) (id : String) (rows : List StoredActionRequest)
    → (reject_action_request now id rows).1 ≡ (decide_rows rejected now id rows).1
unfolding reject_action_request
reject-rows now id rows = decided-rows id (decide_rows rejected now id rows)

new_row-IsRequest :
    (id : String) (now : ℕ) (opts : ActionInput) (class : ActionClass)
    → opts.action_class ≡ class
    → IsRequest (new_row id now opts)
unfolding new_row initial_state is_decided
new_row-IsRequest id now opts ActionClass.read_only e = rw e ((now, refl), refl)
new_row-IsRequest id now opts ActionClass.blocked e = rw e ((now, refl), refl)
new_row-IsRequest id now opts ActionClass.approved_write e = rw e (refl, refl)
new_row-IsRequest id now opts ActionClass.draft e = rw e (refl, refl)
new_row-IsRequest id now opts ActionClass.trusted_automation e = rw e (refl, refl)

pending_untouched :
    (state : ActionState) (decided_at executed_at : Option ℕ)
    → is_pending state ≡ true
    → Timely state decided_at executed_at
    → executed_at ≡ none
unfolding is_pending
pending_untouched pending decided_at executed_at p r = r.1
pending_untouched approved decided_at executed_at p r = r.1
pending_untouched rejected decided_at executed_at p r = r.1
pending_untouched executed decided_at executed_at p r = cc
pending_untouched failed decided_at executed_at p r = cc

decided_row :
    (state : ActionState) (now : ℕ) (row : StoredActionRequest)
    → is_decided state ≡ true
    → is_pending row.state ≡ true
    → IsRequest row
    → Timely state (some now) row.executed_at
unfolding is_decided is_pending
decided_row approved now row d p r =
    ((now, refl), pending_untouched row.state row.decided_at row.executed_at p r)
decided_row rejected now row d p r =
    ((now, refl), pending_untouched row.state row.decided_at row.executed_at p r)
decided_row pending now row d p r = cc
decided_row executed now row d p r = cc
decided_row failed now row d p r = cc

decide_rows-IsRequest :
    (state : ActionState) (now : ℕ) (id : String) (rows : List StoredActionRequest)
    → is_decided state ≡ true
    → All IsRequest rows
    → All IsRequest (decide_rows state now id rows).1
unfolding decide_rows
decide_rows-IsRequest state now id [] d a = tt
decide_rows-IsRequest state now id (row ∷ rows) d a =
    elim (Bool-cases (str_eq row.id id && is_pending row.state)) [
      | inl e ↦
          rw (decide_rows, e)
            (
              decided_row state now row d (ground (arith, e)) a.0,
              decide_rows-IsRequest state now id rows d a.1,
            )
      | inr e ↦ rw (decide_rows, e) (a.0, decide_rows-IsRequest state now id rows d a.1)
    ]

execute_rows-IsRequest :
    (id : String) (result : ActionResult) (rows : List StoredActionRequest)
    → All IsRequest rows
    → All IsRequest (execute_rows id result rows)
unfolding execute_rows
execute_rows-IsRequest id result [] a = tt
execute_rows-IsRequest id result (row ∷ rows) a = elim (Bool-cases (str_eq row.id id)) [
  | inl e ↦ elim (Bool-cases result.ok) [
    | inl k ↦
        rw (execute_rows, e, k)
          ((result.executed_at, refl), execute_rows-IsRequest id result rows a.1)
    | inr k ↦
        rw (execute_rows, e, k)
          ((result.executed_at, refl), execute_rows-IsRequest id result rows a.1)
  ]
  | inr e ↦ rw (execute_rows, e) (a.0, execute_rows-IsRequest id result rows a.1)
]

pub after_action-IsRequest :
    (call : ActionCall) (rows : List StoredActionRequest)
    → All IsRequest rows
    → All IsRequest (after_action call rows)
unfolding after_action create_action_request mark_action_executed is_decided
after_action-IsRequest (create id now opts) rows a =
    elim (Bool-cases (is_some (find_row id rows))) [
      | inl e ↦ rw (after_action, create_action_request, e) a
      | inr e ↦
          rw (after_action, create_action_request, e)
            (All-append IsRequest rows (new_row id now opts ∷ []) a
              (new_row-IsRequest id now opts opts.action_class refl, tt))
    ]
after_action-IsRequest (approve now id) rows a =
    subst (All IsRequest) (sym (approve-rows now id rows))
      (decide_rows-IsRequest approved now id rows refl a)
after_action-IsRequest (reject now id) rows a =
    subst (All IsRequest) (sym (reject-rows now id rows))
      (decide_rows-IsRequest rejected now id rows refl a)
after_action-IsRequest (mark id result) rows a = execute_rows-IsRequest id result rows a

-- Whatever calls are made, a pending request has no time of a decision or an execution, an approved
-- or rejected one has the time of its decision and was not executed, and an executed or failed one
-- has the time of its execution, if this is so of the rows at first.
pub after_actions-IsRequest :
    (calls : List ActionCall) (rows : List StoredActionRequest)
    → All IsRequest rows
    → All IsRequest (after_actions calls rows)
unfolding after_actions
after_actions-IsRequest [] rows a = a
after_actions-IsRequest (call ∷ calls) rows a =
    after_actions-IsRequest calls (after_action call rows) (after_action-IsRequest call rows a)
