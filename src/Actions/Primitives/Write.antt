-- ===== src/Actions/Primitives/Write.antt =====
-- Writing a file after an approval (`requestFileWrite` of src/actions/primitives.ts).
pub mod Guard
use bfrost.Prelude.{
  ℕ, String, Bool, true, false, not, Option, none, some, List, [], ◌∷◌, ◌++◌, length, get_or_else,
  lookup, insert, concat_texts, decimal, split_text, str_eq, if◌then◌else◌, byte_length,
}
use bfrost.Json.{Object, Json, text, number}
use bfrost.Actions.Diff.{build_diff}
use bfrost.Actions.Store.{ActionClass, ActionInput, StoredActionRequest, create_action_request}
use bfrost.Actions.Primitives.{
  Machine, Answer, denied, thrown, returned, FileCall, assert_permission, wait_for_decision,
  with_requests, record_event, mark_executed, tagged, newline,
}

pub record WriteAnswer : Type 0 where
  pub approved : Bool
  pub request_id : String

abbrev pub write_answer : Bool → String → Answer WriteAnswer
write_answer approved id = returned (record { approved = approved; request_id = id })

-- The lines with a plus sign before each, joined by line ends.
pub added_lines : List String → String
added_lines [] = ""
added_lines (x ∷ []) = concat_texts ("+" ∷ x ∷ [])
added_lines (x ∷ y ∷ lines) = concat_texts ("+" ∷ x ∷ "\n" ∷ added_lines (y ∷ lines) ∷ [])

pub build_new_file_diff : List String → String → String
build_new_file_diff new_lines file_path = concat_texts (
    "--- /dev/null\n+++ "
    ∷ file_path
    ∷ " (new file)\n@@ -0,0 +1,"
    ∷ decimal (length new_lines)
    ∷ " @@\n"
    ∷ added_lines new_lines
    ∷ "\n"
    ∷ [])

-- The insertion throws where the table has the id.
abbrev pub or_taken :
    {A : Type 0}
    → Machine
    → Option A
    → (A → Answer WriteAnswer × Machine)
    → Answer WriteAnswer × Machine
or_taken m none f = (thrown "UNIQUE constraint failed", m)
or_taken m (some a) f = f a

abbrev pub unchanged_input : FileCall → ActionInput
unchanged_input c = record {
  worker_id = c.worker_id;
  action_class = ActionClass.read_only;
  label = "Write file (no change)";
  rationale = get_or_else c.rationale (
      concat_texts
        ("Worker " ∷ c.worker_id ∷ " would write " ∷ c.abs_path ∷ " (content unchanged)" ∷ []));
  payload = ("path", text c.abs_path) ∷ [];
  preview = some "(no changes)";
}

abbrev pub write_input : FileCall → String → ActionInput
write_input c preview = record {
  worker_id = c.worker_id;
  action_class = ActionClass.approved_write;
  label = "Write file";
  rationale =
      get_or_else c.rationale
        (concat_texts ("Worker " ∷ c.worker_id ∷ " wants to write " ∷ c.abs_path ∷ []));
  payload =
      ("path", text c.abs_path) ∷ ("byteCount", number (decimal (byte_length c.content))) ∷ [];
  preview = some preview;
}

-- The end of a write that was not approved.
pub refuse_write : FileCall → Machine → Answer WriteAnswer × Machine
refuse_write c m = (
  write_answer false c.id,
  record_event "file-write-rejected" "warning"
      (tagged c ("File write rejected or timed out: " ∷ c.abs_path ∷ [])) c.id
      (mark_executed c.id false none (some "Rejected by operator or timed out") c.executed_at m),
)

-- The write itself, and its end.
pub perform_write : FileCall → Machine → Answer WriteAnswer × Machine
perform_write c m = elim c.write_error [
  | none ↦ (
    write_answer true c.id,
    record_event "file-write-executed" "info" (tagged c ("Wrote file: " ∷ c.abs_path ∷ [])) c.id (
        mark_executed c.id true
          (some (
            concat_texts
              ("Wrote " ∷ decimal (byte_length c.content) ∷ " bytes to " ∷ c.abs_path ∷ [])))
          none c.executed_at (record m { files = insert c.abs_path c.content m.files })),
  )
  | some message ↦ (
    thrown message,
    record_event "file-write-failed" "error"
        (tagged c ("File write failed: " ∷ c.abs_path ∷ " — " ∷ message ∷ [])) c.id
        (mark_executed c.id false none (some message) c.executed_at m),
  )
]

-- The wait for the operator, and what follows.
pub decide_write : FileCall → Machine → Answer WriteAnswer × Machine
unfolding refuse_write perform_write
decide_write c m =
    let waited = wait_for_decision c.id c.timeout_ms c.start c.poll_at m.requests in
    if waited.0
    then perform_write c (with_requests waited.1 m)
    else refuse_write c (with_requests waited.1 m)

pub ask_write : FileCall → String → Machine → Answer WriteAnswer × Machine
unfolding decide_write
ask_write c preview m =
    or_taken m (create_action_request c.id c.created_at (write_input c preview) m.requests)
      (λ created. decide_write c (
        record_event "file-write-requested" "info"
          (tagged c ("Requested write to: " ∷ c.abs_path ∷ " (awaiting approval)" ∷ [])) c.id
          (with_requests created.1 m)))

-- The content is as it is asked for already.
pub skip_write : FileCall → Machine → Answer WriteAnswer × Machine
skip_write c m =
    or_taken m (create_action_request c.id c.created_at (unchanged_input c) m.requests) (λ created.
      (
        write_answer true c.id,
        mark_executed c.id true (some "no-op (content unchanged)") none c.executed_at
            (with_requests created.1 m),
      ))

unfoldable pub request_file_write : FileCall → Machine → Answer WriteAnswer × Machine
unfolding ask_write skip_write build_new_file_diff
request_file_write c m =
    let scope = concat_texts ("file:write:" ∷ c.abs_path ∷ []) in
    let new_lines = split_text newline c.content in
    if not (assert_permission c.permissions scope)
    then (denied scope, m)
    else elim (lookup c.abs_path m.files) [
      | none ↦ ask_write c (build_new_file_diff new_lines c.abs_path) m
      | some existing ↦
          if str_eq existing c.content
          then skip_write c m
          else ask_write c (build_diff (split_text newline existing) new_lines c.abs_path) m
    ]
