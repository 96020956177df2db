-- ===== src/Actions/Primitives/Write/Guard.antt =====
-- No file is written without permission and approval (src/actions/primitives.ts).
use bfrost.Prelude.{
  String, false, List, ◌≡◌, refl, ◌⊎◌, inl, inr, Bool-cases, Option-cases, lookup, str_eq,
  concat_texts, ◌∷◌,
}
use bfrost.Actions.Store.{create_action_request, initial_state}
use bfrost.Actions.Store.Decisions.Held.{IsHeld, create_action_request-IsHeld, is_approved}
use bfrost.Actions.Primitives.{
  Machine, FileCall, assert_permission, with_requests, mark_executed, [], StoredActionRequest,
  ActionClass, record_event, tagged, split_text, newline, build_diff,
}
use bfrost.Actions.Primitives.Approval.{Unanswered, wait-refuses}
use bfrost.Actions.Primitives.Write.{
  request_file_write, ask_write, skip_write, decide_write, refuse_write, write_input,
  unchanged_input, build_new_file_diff,
}

-- An approved-write request starts undecided.
pending_write : is_approved (initial_state ActionClass.approved_write) ≡ false
unfolding initial_state
pending_write = refl

module _ (c : FileCall) (u : Unanswered c.id c.poll_at) where
  decide_write-files : (m : Machine) → IsHeld c.id m.requests → (decide_write c m).1.files ≡ m.files
  unfolding decide_write refuse_write mark_executed
  decide_write-files m g =
      rw (decide_write, wait-refuses c.id c.timeout_ms c.start c.poll_at m.requests u g) refl

  abbrev asked : List StoredActionRequest → Machine → Machine
  asked rows m =
      record_event "file-write-requested" "info"
        (tagged c ("Requested write to: " ∷ c.abs_path ∷ " (awaiting approval)" ∷ [])) c.id
        (with_requests rows m)

  ask_write-files : (preview : String) (m : Machine) → (ask_write c preview m).1.files ≡ m.files
  unfolding ask_write
  ask_write-files preview m =
      elim (Option-cases
        (create_action_request c.id c.created_at (write_input c preview) m.requests)) [
          | inl e ↦ rw (ask_write, e) refl
          | inr (created, e) ↦
              rw (ask_write, e)
                (decide_write-files (asked created.1 m) (
                  create_action_request-IsHeld c.id c.created_at (write_input c preview) m.requests
                    created pending_write e))
        ]

skip_write-files : (c : FileCall) (m : Machine) → (skip_write c m).1.files ≡ m.files
unfolding skip_write mark_executed
skip_write-files c m =
    elim (Option-cases (create_action_request c.id c.created_at (unchanged_input c) m.requests)) [
      | inl e ↦ rw (skip_write, e) refl
      | inr (created, e) ↦ rw (skip_write, e) refl
    ]

-- A write to a file that the worker has no permission for, or of which nobody approves the request while
-- it waits: whatever else is written to the table of requests meanwhile, no file is changed.
pub request_file_write-files :
    (c : FileCall) (m : Machine)
    → (assert_permission c.permissions (concat_texts ("file:write:" ∷ c.abs_path ∷ [])) ≡ false)
      ⊎ Unanswered c.id c.poll_at
    → (request_file_write c m).1.files ≡ m.files
unfolding request_file_write
request_file_write-files c m (inl e) = rw (request_file_write, e) refl
request_file_write-files c m (inr u) =
    let scope = concat_texts ("file:write:" ∷ c.abs_path ∷ []) in
    elim (Bool-cases (assert_permission c.permissions scope)) [
      | inr e ↦ rw (request_file_write, e) refl
      | inl e ↦ elim (Option-cases (lookup c.abs_path m.files)) [
        | inl h ↦
            rw (request_file_write, e, h)
              (ask_write-files c u (build_new_file_diff (split_text newline c.content) c.abs_path)
                m)
        | inr (existing, h) ↦ elim (Bool-cases (str_eq existing c.content)) [
          | inl same ↦ rw (request_file_write, e, h, same) (skip_write-files c m)
          | inr new ↦
              rw (request_file_write, e, h, new)
                (ask_write-files c u
                  (build_diff (split_text newline existing) (split_text newline c.content)
                    c.abs_path)
                  m)
        ]
      ]
    ]
