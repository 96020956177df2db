-- ===== src/Actions/Primitives/Tests.antt =====
-- The theorems on actions, at a worker that may write and run anything, whose requests are rejected.
use bfrost.Prelude.{ℕ, none, some, [], ◌∷◌, ◌≡◌, ◌+◌, ◌*◌, true, inr, arith, is_some}
use bfrost.Actions.Store.Decisions.{reject}
use bfrost.Actions.Primitives.{Poll, Machine, FileCall, poll_decision}
use bfrost.Actions.Primitives.Approval.{Unanswered}
use bfrost.Actions.Primitives.Waiting.{Paced, poll_decision-total}
use bfrost.Actions.Primitives.Write.{request_file_write}
use bfrost.Actions.Primitives.Write.Guard.{request_file_write-files}
use bfrost.Actions.Primitives.Shell.{ShellCall, request_shell}
use bfrost.Actions.Primitives.Shell.Guard.{request_shell-commands}

-- The operator rejects after three seconds.
abbrev rejecting : ℕ → Poll
rejecting n = record { calls = reject 5 "a1" ∷ []; now = 1000 + 1000 * n }

rejecting-Unanswered : Unanswered "a1" rejecting
rejecting-Unanswered n = (tt, tt)

rejecting-Paced : Paced 1000 rejecting
rejecting-Paced n = omega arith

abbrev notes : Machine
notes = record { files = ("/notes", "old") ∷ []; requests = []; commands = []; events = [] }

abbrev overwrite : FileCall
overwrite = record {
  permissions = none;
  worker_id = "news";
  abs_path = "/notes";
  content = "new";
  rationale = none;
  timeout_ms = some 60000;
  id = "a1";
  created_at = 1000;
  start = 1000;
  poll_at = rejecting;
  write_error = none;
  executed_at = 9000;
}

abbrev listing : ShellCall
listing = record {
  permissions = none;
  worker_id = "news";
  command = "ls";
  args = "-l" ∷ [];
  rationale = none;
  cwd = none;
  timeout_ms = none;
  max_output_bytes = none;
  id = "a1";
  created_at = 1000;
  start = 1000;
  poll_at = rejecting;
  child = some (record { stdout = (1 ∷ 2 ∷ []) ∷ []; stderr = []; code = some 0 });
  spawn_error = "ENOENT";
  decode = λ bytes. "";
  label_part = "ls -l";
  executed_at = 9000;
}

request_file_write-files_example :
    (request_file_write overwrite notes).1.files ≡ ("/notes", "old") ∷ []
request_file_write-files_example =
    request_file_write-files overwrite notes (inr rejecting-Unanswered)

request_shell-commands_example : (request_shell listing notes).1.commands ≡ []
request_shell-commands_example = request_shell-commands listing notes (inr rejecting-Unanswered)

poll_decision-total_example : is_some (poll_decision 62 61000 "a1" rejecting 0 []).0 ≡ true
poll_decision-total_example = poll_decision-total 60000 1000 "a1" rejecting [] rejecting-Paced
