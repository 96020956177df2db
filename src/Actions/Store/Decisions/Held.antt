-- ===== src/Actions/Store/Decisions/Held.antt =====
-- A request that nobody approves (src/actions/store.ts).
use bfrost.Prelude.{
  ℕ, String, Bool, true, false, ◌&&◌, Option, none, some, List, [], ◌∷◌, ◌++◌, ◌≡◌, ◌≢◌, refl, sym,
  ◌∙◌, All, All-append, is_some, str_eq, eq_iff, arith, Bool-cases, Option-cases, inl, inr,
  if◌then◌else◌, ◌⊎◌,
}
use bfrost.Actions.Store.{
  ActionState, StoredActionRequest, ActionInput, ActionResult, approved, rejected, executed, failed,
  find_row, new_row, create_action_request, decide_rows, execute_rows, get_action_request,
  is_pending, mark_action_executed, ActionRequest, row_to_request, initial_state,
}
use bfrost.Actions.Store.Decisions.{
  ActionCall, create, approve, reject, mark, after_action, after_actions, approve-rows, reject-rows,
  ap, subst,
}

abbrev pub is_approved : ActionState → Bool
is_approved approved = true
is_approved _ = false

-- No call of the list approves the request with this id.
abbrev pub IsOther : String → ActionCall → Type 0
IsOther id (approve now other) = other ≢ id
IsOther id _ = Unit {0}

abbrev pub Unapproved : String → StoredActionRequest → Type 0
Unapproved id row = row.id ≡ id → is_approved row.state ≡ false

-- The table has the request, and no row with its id is approved.
pub record IsHeld (id : String) (rows : List StoredActionRequest) : Type 0 where
  pub present : is_some (find_row id rows) ≡ true
  pub unapproved : All (Unapproved id) rows

present-append :
    (id : String) (rows more : List StoredActionRequest)
    → is_some (find_row id rows) ≡ true
    → is_some (find_row id (rows ++ more)) ≡ true
present-append id [] more h = cc
present-append id (row ∷ rows) more h = ground (arith, h, present-append id rows more)

present-decide :
    (state : ActionState) (now : ℕ) (other id : String) (rows : List StoredActionRequest)
    → is_some (find_row id rows) ≡ true
    → is_some (find_row id (decide_rows state now other rows).1) ≡ true
unfolding decide_rows
present-decide state now other id [] h = h
present-decide state now other id (row ∷ rows) h =
    elim (Bool-cases (str_eq row.id other && is_pending row.state)) [
      | inl e ↦ rw (decide_rows, e) (ground (arith, h, present-decide state now other id rows))
      | inr e ↦ rw (decide_rows, e) (ground (arith, h, present-decide state now other id rows))
    ]

present-execute :
    (other id : String) (result : ActionResult) (rows : List StoredActionRequest)
    → is_some (find_row id rows) ≡ true
    → is_some (find_row id (execute_rows other result rows)) ≡ true
unfolding execute_rows
present-execute other id result [] h = h
present-execute other id result (row ∷ rows) h = elim (Bool-cases (str_eq row.id other)) [
  | inl e ↦ rw (execute_rows, e) (ground (arith, h, present-execute other id result rows))
  | inr e ↦ rw (execute_rows, e) (ground (arith, h, present-execute other id result rows))
]

undecided :
    (state : ActionState) (row : StoredActionRequest) (other id : String)
    → str_eq row.id other ≡ true
    → (is_approved state ≡ false) ⊎ (other ≢ id)
    → row.id ≡ id
    → is_approved state ≡ false
undecided state row other id e (inl h) same = h
undecided state row other id e (inr apart) same =
    elim (apart (sym ((eq_iff row.id other).0 e) ∙ same)) [ ]

finished : (ok : Bool) → is_approved (if ok then executed else failed) ≡ false
finished true = refl
finished false = refl

decide-Unapproved :
    (state : ActionState) (now : ℕ) (other id : String) (rows : List StoredActionRequest)
    → (is_approved state ≡ false) ⊎ (other ≢ id)
    → All (Unapproved id) rows
    → All (Unapproved id) (decide_rows state now other rows).1
unfolding decide_rows
decide-Unapproved state now other id [] h a = tt
decide-Unapproved state now other id (row ∷ rows) h a =
    elim (Bool-cases (str_eq row.id other && is_pending row.state)) [
      | inl e ↦
          rw (decide_rows, e)
            (
              λ same. undecided state row other id (ground (arith, e)) h same,
              decide-Unapproved state now other id rows h a.1,
            )
      | inr e ↦ rw (decide_rows, e) (a.0, decide-Unapproved state now other id rows h a.1)
    ]

execute-Unapproved :
    (other id : String) (result : ActionResult) (rows : List StoredActionRequest)
    → All (Unapproved id) rows
    → All (Unapproved id) (execute_rows other result rows)
unfolding execute_rows
execute-Unapproved other id result [] a = tt
execute-Unapproved other id result (row ∷ rows) a = elim (Bool-cases (str_eq row.id other)) [
  | inl e ↦
      rw (execute_rows, e) (λ same. finished result.ok, execute-Unapproved other id result rows a.1)
  | inr e ↦ rw (execute_rows, e) (a.0, execute-Unapproved other id result rows a.1)
]

new_row-Unapproved :
    (id other : String) (now : ℕ) (opts : ActionInput) (rows : List StoredActionRequest)
    → is_some (find_row id rows) ≡ true
    → is_some (find_row other rows) ≡ false
    → Unapproved id (new_row other now opts)
unfolding new_row
new_row-Unapproved id other now opts rows h free same =
    let absurd = sym h ∙ (ap (λ k. is_some (find_row k rows)) (sym same) ∙ free) in cc

create-IsHeld :
    (id other : String) (now : ℕ) (opts : ActionInput) (rows : List StoredActionRequest)
    → IsHeld id rows
    → IsHeld id (after_action (create other now opts) rows)
unfolding after_action create_action_request
create-IsHeld id other now opts rows g = elim (Bool-cases (is_some (find_row other rows))) [
  | inl e ↦ rw (after_action, create_action_request, e) g
  | inr e ↦
      rw (after_action, create_action_request, e)
        (record {
          present = present-append id rows (new_row other now opts ∷ []) g.present;
          unapproved =
              All-append (Unapproved id) rows (new_row other now opts ∷ []) g.unapproved
                (new_row-Unapproved id other now opts rows g.present e, tt);
        })
]

after_action-IsHeld :
    (id : String) (call : ActionCall) (rows : List StoredActionRequest)
    → IsOther id call
    → IsHeld id rows
    → IsHeld id (after_action call rows)
unfolding after_action mark_action_executed
after_action-IsHeld id (create other now opts) rows o g = create-IsHeld id other now opts rows g
after_action-IsHeld id (approve now other) rows o g = rw (approve-rows now other rows) (record {
  present = present-decide approved now other id rows g.present;
  unapproved = decide-Unapproved approved now other id rows (inr o) g.unapproved;
})
after_action-IsHeld id (reject now other) rows o g = rw (reject-rows now other rows) (record {
  present = present-decide rejected now other id rows g.present;
  unapproved = decide-Unapproved rejected now other id rows (inl refl) g.unapproved;
})
after_action-IsHeld id (mark other result) rows o g = record {
  present = present-execute other id result rows g.present;
  unapproved = execute-Unapproved other id result rows g.unapproved;
}

pub after_actions-IsHeld :
    (id : String) (calls : List ActionCall) (rows : List StoredActionRequest)
    → All (IsOther id) calls
    → IsHeld id rows
    → IsHeld id (after_actions calls rows)
unfolding after_actions
after_actions-IsHeld id [] rows o g = g
after_actions-IsHeld id (call ∷ calls) rows o g =
    after_actions-IsHeld id calls (after_action call rows) o.1
      (after_action-IsHeld id call rows o.0 g)

abbrev row_approved : Option StoredActionRequest → Bool
row_approved none = false
row_approved (some row) = is_approved row.state

abbrev state_approved : Option ActionRequest → Bool
state_approved none = false
state_approved (some request) = is_approved request.state

find_row-Unapproved :
    (id : String) (rows : List StoredActionRequest) (row : StoredActionRequest)
    → All (Unapproved id) rows
    → find_row id rows ≡ some row
    → is_approved row.state ≡ false
find_row-Unapproved id [] row a e = cc
find_row-Unapproved id (x ∷ rows) row a e = elim (Bool-cases (str_eq x.id id)) [
  | inl here ↦
      let same : some x ≡ some row = sym (rw here refl) ∙ e in
      sym (ap row_approved same) ∙ a.0 ((eq_iff x.id id).0 here)
  | inr there ↦ find_row-Unapproved id rows row a.1 (sym (rw there refl) ∙ e)
]

pub IsHeld-unapproved :
    (id : String) (rows : List StoredActionRequest) (request : ActionRequest)
    → IsHeld id rows
    → get_action_request id rows ≡ some request
    → is_approved request.state ≡ false
unfolding get_action_request row_to_request
IsHeld-unapproved id rows request g e = elim (Option-cases (find_row id rows)) [
  | inl h ↦
      let missing : get_action_request id rows ≡ none = rw (get_action_request, h) refl in
      let absurd = sym missing ∙ e in cc
  | inr (row, h) ↦
      let found : get_action_request id rows ≡ some (row_to_request row) =
        rw (get_action_request, h) refl in
      sym (ap state_approved (sym found ∙ e)) ∙ find_row-Unapproved id rows row g.unapproved h
]

apart : (a b : String) → str_eq a b ≡ false → a ≡ b → ⊥
apart a b e same = ground (arith, e, eq_iff a b, same)

abbrev rows_of :
    List StoredActionRequest
    → Option (Option ActionRequest × List StoredActionRequest)
    → List StoredActionRequest
rows_of rows none = rows
rows_of rows (some created) = created.1

absent-Unapproved :
    (id : String) (rows : List StoredActionRequest)
    → is_some (find_row id rows) ≡ false
    → All (Unapproved id) rows
absent-Unapproved id [] e = tt
absent-Unapproved id (row ∷ rows) e = elim (Bool-cases (str_eq row.id id)) [
  | inl h ↦
      let found : find_row id (row ∷ rows) ≡ some row = rw h refl in
      let absurd = sym (ap is_some found) ∙ e in cc
  | inr h ↦
      let skip : find_row id (row ∷ rows) ≡ find_row id rows = rw h refl in
      (
        λ same. elim (apart row.id id h same) [ ],
        absent-Unapproved id rows (sym (ap is_some skip) ∙ e),
      )
]

present-last :
    (id : String) (rows : List StoredActionRequest) (row : StoredActionRequest)
    → row.id ≡ id
    → is_some (find_row id (rows ++ row ∷ [])) ≡ true
present-last id [] row e = ground (arith, e, eq_iff row.id id)
present-last id (x ∷ rows) row e = ground (arith, present-last id rows row e)

-- A request that is created to be approved is not yet.
pub create_action_request-IsHeld :
    (id : String) (now : ℕ) (opts : ActionInput) (rows : List StoredActionRequest)
    (created : Option ActionRequest × List StoredActionRequest)
    → is_approved (initial_state opts.action_class) ≡ false
    → create_action_request id now opts rows ≡ some created
    → IsHeld id created.1
unfolding create_action_request new_row
create_action_request-IsHeld id now opts rows created fresh e =
    elim (Bool-cases (is_some (find_row id rows))) [
      | inl h ↦
          let taken : create_action_request id now opts rows ≡ none =
            rw (create_action_request, h) refl in
          let absurd = sym taken ∙ e in cc
      | inr h ↦
          let after = rows ++ new_row id now opts ∷ [] in
          let made : create_action_request id now opts rows
              ≡ some (get_action_request id after, after) =
            rw (create_action_request, h) refl in
          subst (IsHeld id) (ap (rows_of rows) (sym made ∙ e)) (record {
            present = present-last id rows (new_row id now opts) refl;
            unapproved =
                All-append (Unapproved id) rows (new_row id now opts ∷ [])
                  (absent-Unapproved id rows h) (λ same. fresh, tt);
          })
    ]
