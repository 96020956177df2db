-- ===== src/Locks/Runtime.antt =====
-- The lock of the backend process (src/runtime-lock.ts). The table has at most the one row of the
-- lock's key. What other processes do to it between two statements of a start is an argument, and so are
-- the time at each of them and whether a process exists. Timers are not modelled but for whether the
-- heartbeat runs.
pub mod Laws
use bfrost.Prelude.{
  ℕ, String, Bool, true, false, Option, none, some, ◌==◌, ltb, ◌&&◌, Result, ok, err, if◌then◌else◌,
}

pub record RuntimeLockRow : Type 0 where
  pub owner_pid : ℕ
  pub acquired_at : String
  pub heartbeat_at : String
  pub host : String
  pub cwd : String
  pub command : String

-- A process: its own description, and its variables `ownsRuntimeLock` and `heartbeatTimer`.
pub record Process : Type 0 where
  pub pid : ℕ
  pub host : String
  pub cwd : String
  pub command : String
  pub owns_runtime_lock : Bool
  pub heartbeat : Bool

pub data LockError : Type 0 where
  already_running : ℕ → String → LockError
  started_first : LockError

-- The statements of a start: the first insertion, the row that is read, a dead owner's row that is
-- deleted, the second insertion, and the heartbeat of an own row.
pub data Statement : Type 0 where
  trying reading deleting inserting beating : Statement

-- What other processes do to the table just before a statement.
abbrev pub Others : Type 0
Others = Statement → Option RuntimeLockRow → Option RuntimeLockRow

-- `INSERT OR IGNORE`: does it insert, and the table after it.
pub try_insert_runtime_lock :
    Process → String → Option RuntimeLockRow → Bool × Option RuntimeLockRow
try_insert_runtime_lock self now_iso (some row) = (false, some row)
try_insert_runtime_lock self now_iso none = (
  true,
  some record {
    owner_pid = self.pid;
    acquired_at = now_iso;
    heartbeat_at = now_iso;
    host = self.host;
    cwd = self.cwd;
    command = self.command;
  },
)

-- `DELETE … WHERE lock_key = ? AND owner_pid = ?`.
pub delete_owned : ℕ → Option RuntimeLockRow → Option RuntimeLockRow
delete_owned pid none = none
delete_owned pid (some row) = if row.owner_pid == pid then none else some row

pub update_runtime_heartbeat : Process → String → Option RuntimeLockRow → Option RuntimeLockRow
update_runtime_heartbeat self now_iso none = none
update_runtime_heartbeat self now_iso (some row) =
    if self.owns_runtime_lock && (row.owner_pid == self.pid)
    then some record row { heartbeat_at = now_iso }
    else some row

-- `processExists`: no process has the id 0.
pub process_exists : (ℕ → Bool) → ℕ → Bool
process_exists alive pid = ltb 0 pid && alive pid

pub owning : Process → Process
owning self = record self { owns_runtime_lock = true; heartbeat = true }

-- The second insertion, when there was no row any more or a dead owner's row was deleted.
pub insert_again :
    Others
    → (Statement → String)
    → Process
    → Option RuntimeLockRow
    → Result LockError (Unit {0}) × (Process × Option RuntimeLockRow)
unfolding try_insert_runtime_lock owning
insert_again others now_iso self table =
    let (inserted, next) =
      try_insert_runtime_lock self (now_iso inserting) (others inserting table) in
    if inserted then (ok tt, (owning self, next)) else (err started_first, (self, next))

-- The rest of a start, from the row that was read on.
pub after_read :
    (ℕ → Bool)
    → Others
    → (Statement → String)
    → Process
    → Option RuntimeLockRow
    → Result LockError (Unit {0}) × (Process × Option RuntimeLockRow)
unfolding owning update_runtime_heartbeat process_exists delete_owned insert_again
after_read alive others now_iso self none = insert_again others now_iso self none
after_read alive others now_iso self (some existing) =
    if existing.owner_pid == self.pid
    then (
      ok tt,
      (
        owning self,
        update_runtime_heartbeat (owning self) (now_iso beating) (others beating (some existing)),
      ),
    )
    else if process_exists alive existing.owner_pid
    then (err (already_running existing.owner_pid existing.acquired_at), (self, some existing))
    else insert_again others now_iso self
        (delete_owned existing.owner_pid (others deleting (some existing)))

pub acquire_runtime_lock :
    (ℕ → Bool)
    → Others
    → (Statement → String)
    → Process
    → Option RuntimeLockRow
    → Result LockError (Unit {0}) × (Process × Option RuntimeLockRow)
unfolding try_insert_runtime_lock owning after_read
acquire_runtime_lock alive others now_iso self table =
    let (inserted, next) = try_insert_runtime_lock self (now_iso trying) (others trying table) in
    if inserted
    then (ok tt, (owning self, next))
    else after_read alive others now_iso self (others reading next)

pub release_runtime_lock : Process → Option RuntimeLockRow → Process × Option RuntimeLockRow
unfolding delete_owned
release_runtime_lock self table =
    if self.owns_runtime_lock
    then (record self { owns_runtime_lock = false; heartbeat = false }, delete_owned self.pid table)
    else (record self { heartbeat = false }, table)
