-- ===== src/Actions/Store/Decisions/Final.antt =====
-- A decision is final (src/actions/store.ts).
use bfrost.Prelude.{
  ℕ, String, true, false, Option, none, some, List, [], ◌∷◌, ◌++◌, ◌≡◌, inl, inr, refl, arith, ap,
  sym, ◌∙◌, All, Bool-cases, str_eq, is_some, ◌&&◌,
}
use bfrost.Actions.Store.{
  ActionState, StoredActionRequest, ActionResult, pending, approved, rejected, executed, failed,
  create_action_request, mark_action_executed, decide_rows, execute_rows, is_pending, find_row,
}
use bfrost.Actions.Store.Decisions.{
  IsRequest, Timely, ActionCall, create, approve, reject, mark, after_action, after_actions,
  approve-rows, reject-rows, after_action-IsRequest,
}

-- When a request was decided, if it was.
abbrev pub decision : String → List StoredActionRequest → Option ℕ
decision id rows = elim (find_row id rows) [ none ↦ none | some row ↦ row.decided_at ]

pending_undecided :
    (state : ActionState) (decided_at executed_at : Option ℕ)
    → is_pending state ≡ true
    → Timely state decided_at executed_at
    → decided_at ≡ none
unfolding is_pending
pending_undecided pending decided_at executed_at p r = r.0
pending_undecided approved decided_at executed_at p r = cc
pending_undecided rejected decided_at executed_at p r = cc
pending_undecided executed decided_at executed_at p r = cc
pending_undecided failed decided_at executed_at p r = cc

decision-here :
    (id : String) (row : StoredActionRequest) (rows : List StoredActionRequest)
    → str_eq row.id id ≡ true
    → decision id (row ∷ rows) ≡ row.decided_at
decision-here id row rows e = rw (decision, e) refl

decision-there :
    (id : String) (row : StoredActionRequest) (rows : List StoredActionRequest)
    → str_eq row.id id ≡ false
    → decision id (row ∷ rows) ≡ decision id rows
decision-there id row rows e = rw (decision, e) refl

decision-decide_rows :
    (state : ActionState) (now : ℕ) (decided_id id : String) (rows : List StoredActionRequest)
    (t : ℕ)
    → All IsRequest rows
    → decision id rows ≡ some t
    → decision id (decide_rows state now decided_id rows).1 ≡ some t
unfolding decide_rows
decision-decide_rows state now decided_id id [] t a h = cc
decision-decide_rows state now decided_id id (row ∷ rows) t a h =
    elim (Bool-cases (str_eq row.id id)) [
      | inl here ↦ elim (Bool-cases (is_pending row.state)) [
        | inl p ↦
            let undecided = pending_undecided row.state row.decided_at row.executed_at p a.0 in
            let was = sym (decision-here id row rows here) ∙ h in cc
        | inr p ↦
            let skips : (str_eq row.id decided_id && is_pending row.state) ≡ false =
              ground (arith, p) in
            rw (decide_rows, skips)
              (decision-here id row (decide_rows state now decided_id rows).1 here
                ∙ sym (decision-here id row rows here)
                ∙ h)
      ]
      | inr there ↦
          let rest =
            decision-decide_rows state now decided_id id rows t a.1
              (sym (decision-there id row rows there) ∙ h) in
          elim (Bool-cases (str_eq row.id decided_id && is_pending row.state)) [
            | inl e ↦ rw (decide_rows, e) (decision-there id _ _ there ∙ rest)
            | inr e ↦ rw (decide_rows, e) (decision-there id _ _ there ∙ rest)
          ]
    ]

decision-execute_rows :
    (executed_id : String) (result : ActionResult) (id : String) (rows : List StoredActionRequest)
    → decision id (execute_rows executed_id result rows) ≡ decision id rows
unfolding execute_rows
decision-execute_rows executed_id result id [] = refl
decision-execute_rows executed_id result id (row ∷ rows) =
    elim (Bool-cases (str_eq row.id executed_id)) [
      | inl e ↦ elim (Bool-cases (str_eq row.id id)) [
        | inl here ↦
            rw (execute_rows, e) (decision-here id _ _ here ∙ sym (decision-here id row rows here))
        | inr there ↦
            rw (execute_rows, e)
              (decision-there id _ _ there
                ∙ decision-execute_rows executed_id result id rows
                ∙ sym (decision-there id row rows there))
      ]
      | inr e ↦ elim (Bool-cases (str_eq row.id id)) [
        | inl here ↦
            rw (execute_rows, e) (decision-here id _ _ here ∙ sym (decision-here id row rows here))
        | inr there ↦
            rw (execute_rows, e)
              (decision-there id _ _ there
                ∙ decision-execute_rows executed_id result id rows
                ∙ sym (decision-there id row rows there))
      ]
    ]

decision-append :
    (id : String) (rows more : List StoredActionRequest) (t : ℕ)
    → decision id rows ≡ some t
    → decision id (rows ++ more) ≡ some t
decision-append id [] more t h = cc
decision-append id (row ∷ rows) more t h = elim (Bool-cases (str_eq row.id id)) [
  | inl here ↦ decision-here id row (rows ++ more) here ∙ sym (decision-here id row rows here) ∙ h
  | inr there ↦
      decision-there id row (rows ++ more) there
      ∙ decision-append id rows more t (sym (decision-there id row rows there) ∙ h)
]

decision-after_action :
    (call : ActionCall) (rows : List StoredActionRequest) (id : String) (t : ℕ)
    → All IsRequest rows
    → decision id rows ≡ some t
    → decision id (after_action call rows) ≡ some t
unfolding after_action create_action_request mark_action_executed
decision-after_action (create new_id now opts) rows id t a h =
    elim (Bool-cases (is_some (find_row new_id rows))) [
      | inl e ↦ rw (after_action, create_action_request, e) h
      | inr e ↦ rw (after_action, create_action_request, e) (decision-append id rows _ t h)
    ]
decision-after_action (approve now decided_id) rows id t a h =
    ap (decision id) (approve-rows now decided_id rows)
    ∙ decision-decide_rows approved now decided_id id rows t a h
decision-after_action (reject now decided_id) rows id t a h =
    ap (decision id) (reject-rows now decided_id rows)
    ∙ decision-decide_rows rejected now decided_id id rows t a h
decision-after_action (mark executed_id result) rows id t a h =
    decision-execute_rows executed_id result id rows ∙ h

-- Where the states and the times of the rows agree at first, a request that was decided keeps the
-- time of its decision, whatever calls follow: neither approval nor rejection decides it again.
pub after_actions-decision :
    (calls : List ActionCall) (rows : List StoredActionRequest) (id : String) (t : ℕ)
    → All IsRequest rows
    → decision id rows ≡ some t
    → decision id (after_actions calls rows) ≡ some t
unfolding after_actions
after_actions-decision [] rows id t a h = h
after_actions-decision (call ∷ calls) rows id t a h =
    after_actions-decision calls (after_action call rows) id t (after_action-IsRequest call rows a)
      (decision-after_action call rows id t a h)
