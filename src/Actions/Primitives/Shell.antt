-- ===== src/Actions/Primitives/Shell.antt =====
-- Running a command after an approval (`requestShell` of src/actions/primitives.ts). What the child
-- process writes comes in chunks of bytes; how bytes are read as a text is an argument.
pub mod Guard
pub mod Capture
use bfrost.Prelude.{
  ℕ, zero, suc, ◌+◌, ◌-◌, String, Bool, true, false, not, Option, none, some, List, [], ◌∷◌, ◌++◌,
  length, ltb, min, get_or_else, some_truthy, truthy, concat_texts, decimal, if◌then◌else◌, ◌==◌,
}
use bfrost.Json.{Json, Items, Object, null, array, text}
use bfrost.Actions.Store.{ActionClass, ActionInput, create_action_request}
use bfrost.Actions.Primitives.{
  Machine, Answer, denied, thrown, returned, Poll, assert_permission, wait_for_decision,
  with_requests, record_event, mark_executed,
}

abbrev pub take_bytes : ℕ → List ℕ → List ℕ
take_bytes zero xs = []
take_bytes (suc n) [] = []
take_bytes (suc n) (x ∷ xs) = x ∷ take_bytes n xs

-- The chunks of a stream that are kept, where some bytes were kept before.
pub captured : ℕ → ℕ → List (List ℕ) → List (List ℕ)
captured max_bytes size [] = []
captured max_bytes size (chunk ∷ chunks) =
    let remaining = max_bytes - size in
    let kept = captured max_bytes (size + min (length chunk) remaining) chunks in
    let rest = captured max_bytes size chunks in
    if ltb 0 remaining then take_bytes remaining chunk ∷ kept else rest

unfoldable pub concat_chunks : List (List ℕ) → List ℕ
concat_chunks [] = []
concat_chunks (chunk ∷ chunks) = chunk ++ concat_chunks chunks

-- A process that is started, with its two streams and its exit code.
pub record Child : Type 0 where
  pub stdout : List (List ℕ)
  pub stderr : List (List ℕ)
  pub code : Option ℕ

pub record ShellCall : Type 0 where
  pub permissions : Option (List String)
  pub worker_id : String
  pub command : String
  pub args : List String
  pub rationale : Option String
  pub cwd : Option String
  pub timeout_ms : Option ℕ
  pub max_output_bytes : Option ℕ
  pub id : String
  pub created_at : ℕ
  pub start : ℕ
  pub poll_at : ℕ → Poll
  pub child : Option Child
  pub spawn_error : String
  pub decode : List ℕ → String
  pub label_part : String
  pub executed_at : ℕ

pub record Output : Type 0 where
  pub stdout : String
  pub stderr : String
  pub exit_code : ℕ

pub record ShellResult : Type 0 where
  pub approved : Bool
  pub request_id : String
  pub output : Option Output

pub join_words : String → List String → String
join_words first [] = first
join_words first (x ∷ words) = concat_texts (first ∷ " " ∷ join_words x words ∷ [])

pub display_cmd : ShellCall → String
unfolding join_words
display_cmd c = join_words c.command c.args

pub text_items : List String → Items
text_items [] = Items.nil
text_items (x ∷ xs) = Items.item (text x) (text_items xs)

-- The label is cut to 80 characters, which is an argument.
pub shell_input : ShellCall → ActionInput
unfolding display_cmd text_items
shell_input c = record {
  worker_id = c.worker_id;
  action_class = ActionClass.approved_write;
  label = concat_texts ("Run: " ∷ c.label_part ∷ []);
  rationale =
      get_or_else c.rationale
        (concat_texts ("Worker " ∷ c.worker_id ∷ " wants to run: " ∷ display_cmd c ∷ []));
  payload =
      ("command", text c.command)
      ∷ ("args", array (text_items c.args))
      ∷ ("cwd", elim c.cwd [ none ↦ null | some cwd ↦ text cwd ])
      ∷ [];
  preview = some (
      concat_texts (
        "$ "
        ∷ display_cmd c
        ∷ (if some_truthy c.cwd then concat_texts ("\n# cwd: " ∷ get_or_else c.cwd "" ∷ []) else "")
        ∷ []));
}

abbrev pub tagged_shell : ShellCall → List String → List String
tagged_shell c rest = "[" ∷ c.worker_id ∷ "] " ∷ rest

pub refuse_shell : ShellCall → Machine → Answer ShellResult × Machine
refuse_shell c m = (
  returned (record { approved = false; request_id = c.id; output = none }),
  record_event "shell-rejected" "warning"
      (tagged_shell c ("Shell command rejected or timed out: " ∷ display_cmd c ∷ [])) c.id
      (mark_executed c.id false none (some "Rejected by operator or timed out") c.executed_at m),
)

pub output_of : ShellCall → Child → Output
unfolding captured concat_chunks
output_of c child =
    let max_bytes = get_or_else c.max_output_bytes 65536 in
    record {
      stdout = c.decode (concat_chunks (captured max_bytes 0 child.stdout));
      stderr = c.decode (concat_chunks (captured max_bytes 0 child.stderr));
      exit_code = get_or_else child.code 1;
    }

-- The command with its arguments is started.
abbrev pub started : ShellCall → Machine → Machine
started c m = record m { commands = m.commands ++ (c.command ∷ c.args) ∷ [] }

pub finish_shell : ShellCall → Output → Machine → Answer ShellResult × Machine
finish_shell c output m =
    let ok = output.exit_code == 0 in
    let exit = decimal output.exit_code in
    (
      returned (record { approved = true; request_id = c.id; output = some output }),
      record_event (if ok then "shell-executed" else "shell-failed")
          (if ok then "info" else "error")
          (tagged_shell c (
            "Shell "
            ∷ (if ok then "completed" else "failed")
            ∷ ": "
            ∷ display_cmd c
            ∷ " (exit "
            ∷ exit
            ∷ ")"
            ∷ []))
          c.id
          (mark_executed c.id ok (some (concat_texts ("exit " ∷ exit ∷ "\n" ∷ output.stdout ∷ [])))
            (if ok
              then none
              else if truthy output.stderr
              then some output.stderr
              else some (concat_texts ("exit code " ∷ exit ∷ [])))
            c.executed_at m),
    )

-- A process that cannot be started rejects the promise: nothing is marked.
pub run_shell : ShellCall → Machine → Answer ShellResult × Machine
unfolding output_of finish_shell
run_shell c m = elim c.child [
  | none ↦ (thrown c.spawn_error, m)
  | some child ↦ finish_shell c (output_of c child) (started c m)
]

pub decide_shell : ShellCall → Machine → Answer ShellResult × Machine
unfolding refuse_shell run_shell
decide_shell c m =
    let waited = wait_for_decision c.id c.timeout_ms c.start c.poll_at m.requests in
    if waited.0
    then run_shell c (with_requests waited.1 m)
    else refuse_shell c (with_requests waited.1 m)

unfoldable pub request_shell : ShellCall → Machine → Answer ShellResult × Machine
unfolding decide_shell shell_input display_cmd
request_shell c m =
    let scope = concat_texts ("shell:" ∷ c.command ∷ []) in
    if not (assert_permission c.permissions scope)
    then (denied scope, m)
    else elim (create_action_request c.id c.created_at (shell_input c) m.requests) [
      | none ↦ (thrown "UNIQUE constraint failed", m)
      | some created ↦ decide_shell c (
          record_event "shell-requested" "info"
            (tagged_shell c ("Requested shell: " ∷ display_cmd c ∷ " (awaiting approval)" ∷ []))
            c.id (with_requests created.1 m))
    ]
