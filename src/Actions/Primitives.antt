-- ===== src/Actions/Primitives.antt =====
-- The actions that workers ask for (src/actions/primitives.ts). The absolute path is an argument, as are
-- the random ids, the times and what the surroundings answer; the file that a write replaces can be
-- read. While a request waits for its decision, other callers write to the table of requests.
mod Tests
pub mod Approval
pub mod Waiting
pub mod Write
pub mod Shell
use bfrost.Prelude.{
  ℕ, zero, suc, ◌+◌, ◌-◌, ◌/◌, String, Bool, true, false, not, ◌||◌, Option, none, some, List, [],
  ◌∷◌, ◌++◌, ltb, min, take, length, includes, get_or_else, or_else, lookup, insert, concat_texts,
  decimal, split_text, str_eq, truthy, map, if◌then◌else◌, ◌==◌,
}
use bfrost.Json.{Object, Json, text, number}
use bfrost.Queue.Item.{text_length}
use bfrost.Actions.Diff.{build_diff}
use bfrost.Actions.Store.{
  StoredActionRequest, ActionInput, ActionResult, ActionState, ActionClass, pending, approved,
  rejected, executed, failed, create_action_request, get_action_request, mark_action_executed,
}
use bfrost.Actions.Store.Decisions.{ActionCall, after_actions}

pub record ActionEvent : Type 0 where
  pub action : String
  pub severity : String
  pub summary : String
  pub request_id : String

-- What an action reads and writes.
pub record Machine : Type 0 where
  pub files : List (String × String)
  pub requests : List StoredActionRequest
  pub commands : List (List String)
  pub events : List ActionEvent

-- A call throws for want of permission, throws another error, or returns.
pub data Answer (A : Type 0) : Type 0 where
  denied : String → Answer A
  thrown : String → Answer A
  returned : A → Answer A

abbrev pub colon : ℕ
colon = 58

abbrev pub newline : ℕ
newline = 10

-- A part that is missing is printed as `undefined`.
abbrev pub wildcard_scope : List String → String
wildcard_scope [] = "undefined:undefined:*"
wildcard_scope (kind ∷ []) = concat_texts (kind ∷ ":undefined:*" ∷ [])
wildcard_scope (kind ∷ verb ∷ rest) = concat_texts (kind ∷ ":" ∷ verb ∷ ":*" ∷ [])

-- Does the check return? A worker without the field is not restricted.
unfoldable pub assert_permission : Option (List String) → String → Bool
unfolding split_text
assert_permission none scope = true
assert_permission (some permissions) scope =
    includes permissions scope || includes permissions (wildcard_scope (split_text colon scope))

-- One round of the wait: what others write to the table before it, and the clock that it reads.
pub record Poll : Type 0 where
  pub calls : List ActionCall
  pub now : ℕ

abbrev pub poll_interval_ms : ℕ
poll_interval_ms = 1000

abbrev pub default_timeout_ms : ℕ
default_timeout_ms = 300000

-- The state of the request that a round finds: is it decided?
abbrev pub verdict : Option ActionState → Option Bool
verdict none = some false
verdict (some approved) = some true
verdict (some rejected) = some false
verdict (some _) = none

abbrev pub state_of : String → List StoredActionRequest → Option ActionState
state_of id rows = elim (get_action_request id rows) [
  | none ↦ none
  | some request ↦ some request.state
]

-- The rounds from a number on: the decision, none where the fuel is used up, and the table.
pub poll_decision :
    ℕ
    → ℕ
    → String
    → (ℕ → Poll)
    → ℕ
    → List StoredActionRequest
    → Option Bool × List StoredActionRequest
poll_decision zero deadline id poll_at n rows = (none, rows)
poll_decision (suc fuel) deadline id poll_at n rows =
    let poll = poll_at n in
    let seen = after_actions poll.calls rows in
    let rest = poll_decision fuel deadline id poll_at (suc n) in
    if not (ltb poll.now deadline)
    then (some false, seen)
    else elim (verdict (state_of id seen)) [ some answer ↦ (some answer, seen) | none ↦ rest seen ]

-- Each round starts at least an interval after the one before it, so that the deadline comes within the
-- fuel.
pub wait_for_decision :
    String → Option ℕ → ℕ → (ℕ → Poll) → List StoredActionRequest → Bool × List StoredActionRequest
unfolding poll_decision
wait_for_decision id timeout_ms start poll_at rows =
    let timeout = get_or_else timeout_ms default_timeout_ms in
    let decision =
      poll_decision (timeout / poll_interval_ms + 2) (start + timeout) id poll_at 0 rows in
    (get_or_else decision.0 false, decision.1)

abbrev pub with_requests : List StoredActionRequest → Machine → Machine
with_requests rows m = record m { requests = rows }

abbrev pub record_event : String → String → List String → String → Machine → Machine
record_event action severity summary id m = record m {
  events =
      m.events
      ++ (record {
        action = action;
        severity = severity;
        summary = concat_texts summary;
        request_id = id;
      })
        ∷ [];
}

pub mark_executed : String → Bool → Option String → Option String → ℕ → Machine → Machine
mark_executed id ok output error at m =
    with_requests
      (mark_action_executed id
        (record { request_id = id; ok = ok; output = output; error = error; executed_at = at })
        m.requests).1
      m

-- A call of `requestFileRead` or `requestFileWrite`.
pub record FileCall : Type 0 where
  pub permissions : Option (List String)
  pub worker_id : String
  pub abs_path : String
  pub content : String
  pub rationale : Option String
  pub timeout_ms : Option ℕ
  pub id : String
  pub created_at : ℕ
  pub start : ℕ
  pub poll_at : ℕ → Poll
  pub write_error : Option String
  pub executed_at : ℕ

abbrev pub tagged : FileCall → List String → List String
tagged c rest = "[" ∷ c.worker_id ∷ "] " ∷ rest

pub request_file_read : FileCall → Machine → Answer String × Machine
request_file_read c m =
    let scope = concat_texts ("file:read:" ∷ c.abs_path ∷ []) in
    if not (assert_permission c.permissions scope)
    then (denied scope, m)
    else elim (create_action_request c.id c.created_at
        (record {
          worker_id = c.worker_id;
          action_class = ActionClass.read_only;
          label = "Read file";
          rationale = concat_texts ("Worker " ∷ c.worker_id ∷ " is reading " ∷ c.abs_path ∷ []);
          payload = ("path", text c.abs_path) ∷ [];
          preview = none;
        })
        m.requests) [
          | none ↦ (thrown "UNIQUE constraint failed", m)
          | some (request, rows) ↦ elim (lookup c.abs_path m.files) [
            | none ↦ (thrown "ENOENT", with_requests rows m)
            | some content ↦ (
              returned content,
              record_event "file-read" "info" (tagged c ("Read file: " ∷ c.abs_path ∷ [])) c.id (
                  mark_executed c.id true
                    (some (
                      concat_texts (
                        "Read "
                        ∷ decimal (text_length content)
                        ∷ " bytes from "
                        ∷ c.abs_path
                        ∷ [])))
                    none c.executed_at (with_requests rows m)),
            )
          ]
        ]
