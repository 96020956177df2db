-- ===== src/Actions/Store.antt =====
-- The table `action_requests` and its statements (src/actions/store.ts, src/actions/types.ts). The
-- table is the list of its rows in the order of insertion. An id that the source draws at random and
-- the time of a call are arguments, and a time is the number of its millisecond, whose order is that
-- of the source's ISO texts. A JSON column holds the value.
pub mod Decisions
use bfrost.Prelude.{
  ℕ, ◌+◌, String, Bool, true, false, not, ◌&&◌, Option, none, some, List, [], ◌∷◌, ◌++◌, ltb, min,
  keep, find, take, str_eq, get_or_else, is_some, if◌then◌else◌, ◌==◌, map, some_truthy, ◌||◌,
}
use bfrost.Json.{Object}

pub data ActionClass : Type 0 where
  read_only approved_write draft trusted_automation blocked : ActionClass

pub data ActionState : Type 0 where
  pending approved rejected executed failed : ActionState

pub record ActionResult : Type 0 where
  pub request_id : String
  pub ok : Bool
  pub output : Option String
  pub error : Option String
  pub executed_at : ℕ

-- A row of the table.
pub record StoredActionRequest : Type 0 where
  pub id : String
  pub worker_id : String
  pub action_class : ActionClass
  pub label : String
  pub rationale : String
  pub payload : Object
  pub preview : Option String
  pub state : ActionState
  pub created_at : ℕ
  pub decided_at : Option ℕ
  pub executed_at : Option ℕ
  pub result : Option ActionResult

pub record ActionRequest : Type 0 where
  pub id : String
  pub worker_id : String
  pub action_class : ActionClass
  pub label : String
  pub rationale : String
  pub payload : Object
  pub preview : Option String
  pub state : ActionState
  pub created_at : ℕ
  pub decided_at : Option ℕ
  pub executed_at : Option ℕ

pub row_to_request : StoredActionRequest → ActionRequest
row_to_request row = record {
  id = row.id;
  worker_id = row.worker_id;
  action_class = row.action_class;
  label = row.label;
  rationale = row.rationale;
  payload = row.payload;
  preview = row.preview;
  state = row.state;
  created_at = row.created_at;
  decided_at = row.decided_at;
  executed_at = row.executed_at;
}

pub record ActionInput : Type 0 where
  pub worker_id : String
  pub action_class : ActionClass
  pub label : String
  pub rationale : String
  pub payload : Object
  pub preview : Option String

unfoldable pub initial_state : ActionClass → ActionState
initial_state read_only = approved
initial_state blocked = rejected
initial_state _ = pending

pub is_pending : ActionState → Bool
is_pending pending = true
is_pending _ = false

pub is_decided : ActionState → Bool
is_decided approved = true
is_decided rejected = true
is_decided _ = false

pub new_row : String → ℕ → ActionInput → StoredActionRequest
unfolding initial_state is_decided
new_row id now opts = record {
  id = id;
  worker_id = opts.worker_id;
  action_class = opts.action_class;
  label = opts.label;
  rationale = opts.rationale;
  payload = opts.payload;
  preview = opts.preview;
  state = initial_state opts.action_class;
  created_at = now;
  decided_at = if is_decided (initial_state opts.action_class) then some now else none;
  executed_at = none;
  result = none;
}

abbrev pub find_row : String → List StoredActionRequest → Option StoredActionRequest
find_row id rows = find (λ row. str_eq row.id id) rows

pub get_action_request : String → List StoredActionRequest → Option ActionRequest
unfolding row_to_request
get_action_request id rows = elim (find_row id rows) [
  | none ↦ none
  | some row ↦ some (row_to_request row)
]

-- The insertion, none where it throws because the primary key is taken.
pub create_action_request :
    String
    → ℕ
    → ActionInput
    → List StoredActionRequest
    → Option (Option ActionRequest × List StoredActionRequest)
unfolding new_row get_action_request
create_action_request id now opts rows =
    if is_some (find_row id rows)
    then none
    else let after = rows ++ new_row id now opts ∷ [] in some (get_action_request id after, after)

-- `UPDATE … WHERE id = ? AND state = 'pending'`, with the number of rows it changes.
pub decide_rows : ActionState → ℕ → String → List StoredActionRequest → ℕ × List StoredActionRequest
unfolding is_pending
decide_rows state now id [] = (0, [])
decide_rows state now id (row ∷ rows) =
    let (changes, rest) = decide_rows state now id rows in
    if str_eq row.id id && is_pending row.state
    then (changes + 1, record row { state = state; decided_at = some now } ∷ rest)
    else (changes, row ∷ rest)

pub decided :
    String → ℕ × List StoredActionRequest → Option ActionRequest × List StoredActionRequest
decided id (changes, rows) =
    if changes == 0 then (none, rows) else (get_action_request id rows, rows)

pub approve_action_request :
    ℕ → String → List StoredActionRequest → Option ActionRequest × List StoredActionRequest
unfolding decide_rows decided
approve_action_request now id rows = decided id (decide_rows approved now id rows)

pub reject_action_request :
    ℕ → String → List StoredActionRequest → Option ActionRequest × List StoredActionRequest
unfolding decide_rows decided
reject_action_request now id rows = decided id (decide_rows rejected now id rows)

-- `UPDATE … WHERE id = ?`.
pub execute_rows : String → ActionResult → List StoredActionRequest → List StoredActionRequest
execute_rows id result [] = []
execute_rows id result (row ∷ rows) =
    (if str_eq row.id id
      then record row {
        state = if result.ok then executed else failed;
        executed_at = some result.executed_at;
        result = some result;
      }
      else row)
    ∷ execute_rows id result rows

pub mark_action_executed :
    String
    → ActionResult
    → List StoredActionRequest
    → Option ActionRequest × List StoredActionRequest
unfolding execute_rows
mark_action_executed id result rows =
    let after = execute_rows id result rows in (get_action_request id after, after)

-- `ORDER BY created_at ASC`, rows of one time in the order of insertion.
insert_oldest : StoredActionRequest → List StoredActionRequest → List StoredActionRequest
insert_oldest row [] = row ∷ []
insert_oldest row (x ∷ rows) =
    let rest = insert_oldest row rows in
    if ltb x.created_at row.created_at then x ∷ rest else row ∷ x ∷ rows

pub oldest_first : List StoredActionRequest → List StoredActionRequest
unfolding insert_oldest
oldest_first [] = []
oldest_first (x ∷ rows) = insert_oldest x (oldest_first rows)

insert_newest : StoredActionRequest → List StoredActionRequest → List StoredActionRequest
insert_newest row [] = row ∷ []
insert_newest row (x ∷ rows) =
    let rest = insert_newest row rows in
    if ltb row.created_at x.created_at then x ∷ rest else row ∷ x ∷ rows

pub newest_first : List StoredActionRequest → List StoredActionRequest
unfolding insert_newest
newest_first [] = []
newest_first (x ∷ rows) = insert_newest x (newest_first rows)

pub list_pending_action_requests : List StoredActionRequest → List ActionRequest
unfolding oldest_first
list_pending_action_requests rows =
    map row_to_request (oldest_first (keep (λ row. is_pending row.state) rows))

-- The rows of a worker, or all of them without one: an empty worker id is no filter either.
abbrev pub of_worker : Option String → StoredActionRequest → Bool
of_worker worker_id row =
    not (some_truthy worker_id) || str_eq row.worker_id (get_or_else worker_id "")

pub list_action_requests : Option String → Option ℕ → List StoredActionRequest → List ActionRequest
unfolding newest_first
list_action_requests worker_id limit rows =
    map row_to_request
      (take (min (get_or_else limit 50) 200) (newest_first (keep (of_worker worker_id) rows)))
