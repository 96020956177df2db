-- ===== src/Actions/Primitives/Shell/Guard.antt =====
-- No command is run without permission and approval (src/actions/primitives.ts).
use bfrost.Prelude.{
  false, List, [], ◌∷◌, ◌≡◌, refl, ◌⊎◌, inl, inr, Bool-cases, Option-cases, concat_texts,
}
use bfrost.Actions.Store.{StoredActionRequest, create_action_request, initial_state}
use bfrost.Actions.Store.Decisions.Held.{IsHeld, create_action_request-IsHeld, is_approved}
use bfrost.Actions.Primitives.{
  Machine, assert_permission, with_requests, mark_executed, record_event,
}
use bfrost.Actions.Primitives.Approval.{Unanswered, wait-refuses}
use bfrost.Actions.Primitives.Shell.{
  ShellCall, request_shell, decide_shell, refuse_shell, shell_input, tagged_shell, display_cmd,
}

pending_shell : (c : ShellCall) → is_approved (initial_state (shell_input c).action_class) ≡ false
unfolding initial_state shell_input
pending_shell c = refl

decide_shell-commands :
    (c : ShellCall) (m : Machine)
    → Unanswered c.id c.poll_at
    → IsHeld c.id m.requests
    → (decide_shell c m).1.commands ≡ m.commands
unfolding decide_shell refuse_shell mark_executed
decide_shell-commands c m u g =
    rw (decide_shell, wait-refuses c.id c.timeout_ms c.start c.poll_at m.requests u g) refl

abbrev asked : ShellCall → List StoredActionRequest → Machine → Machine
asked c rows m =
    record_event "shell-requested" "info"
      (tagged_shell c ("Requested shell: " ∷ display_cmd c ∷ " (awaiting approval)" ∷ [])) c.id
      (with_requests rows m)

-- A command that the worker has no permission for, or of which nobody approves the request while it
-- waits: whatever else is written to the table of requests meanwhile, no command is started.
pub request_shell-commands :
    (c : ShellCall) (m : Machine)
    → (assert_permission c.permissions (concat_texts ("shell:" ∷ c.command ∷ [])) ≡ false)
      ⊎ Unanswered c.id c.poll_at
    → (request_shell c m).1.commands ≡ m.commands
unfolding request_shell
request_shell-commands c m (inl e) = rw (request_shell, e) refl
request_shell-commands c m (inr u) =
    let scope = concat_texts ("shell:" ∷ c.command ∷ []) in
    elim (Bool-cases (assert_permission c.permissions scope)) [
      | inr e ↦ rw (request_shell, e) refl
      | inl e ↦
          elim (Option-cases (create_action_request c.id c.created_at (shell_input c) m.requests)) [
            | inl h ↦ rw (request_shell, e, h) refl
            | inr (created, h) ↦
                rw (request_shell, e, h)
                  (decide_shell-commands c (asked c created.1 m) u (
                    create_action_request-IsHeld c.id c.created_at (shell_input c) m.requests
                      created (pending_shell c) h))
          ]
    ]
