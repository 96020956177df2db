-- ===== src/Locks/Runtime/Laws.antt =====
-- One backend holds the lock (src/runtime-lock.ts).
use bfrost.Prelude.{
  ℕ, String, Bool, true, false, Option, none, some, ◌≡◌, ◌≢◌, ◌⊎◌, inl, inr, refl, ok, Option-cases,
  Bool-cases, ◌==◌, arith, subst, sym,
}
use bfrost.Locks.Runtime.{
  RuntimeLockRow, Process, process_exists, try_insert_runtime_lock, owning, insert_again, Result,
  Others, LockError, trying, reading, err, Statement, inserting, already_running, started_first,
  acquire_runtime_lock, after_read, delete_owned, deleting,
}

-- The row of the lock is owned by a process id.
abbrev pub OwnedBy : ℕ → Option RuntimeLockRow → Type 0
OwnedBy pid none = ⊥
OwnedBy pid (some row) = row.owner_pid ≡ pid

abbrev pub Start : Type 0
Start = Result LockError (Unit {0}) × (Process × Option RuntimeLockRow)

-- A table without the row of an owner.
abbrev pub Without : ℕ → Option RuntimeLockRow → Option RuntimeLockRow → Type 0
Without pid table rest =
    (OwnedBy pid table × (rest ≡ none)) ⊎ ((OwnedBy pid table → ⊥) × (rest ≡ table))

-- What this process leaves before its second insertion: no row where it has read none, and else the table
-- without the row of the owner that it has read.
abbrev pub IsCleared : Others → Option RuntimeLockRow → Option RuntimeLockRow → Type 0
IsCleared others table before =
    ((others reading (others trying table) ≡ none) × (before ≡ none))
    ⊎ ((row : RuntimeLockRow) × (others reading (others trying table) ≡ some row)
        × Without row.owner_pid (others deleting (some row)) before)

-- The lock was taken: no row was there just before the row of this process was inserted, or the row that
-- was read is its own.
pub record IsTaken (others : Others) (self : Process) (table : Option RuntimeLockRow)
    (start : Start) : Type 0 where
  pub succeeds : start.0 ≡ ok tt
  pub owns : start.1.0.owns_runtime_lock ≡ true
  pub beats : start.1.0.heartbeat ≡ true
  pub held :
      (OwnedBy self.pid start.1.1
        × ((others trying table ≡ none)
            ⊎ ((before : Option RuntimeLockRow) × IsCleared others table before
                × (others inserting before ≡ none))))
      ⊎ OwnedBy self.pid (others reading (others trying table))

-- Another process that is alive has it, and this start changed nothing.
pub record IsRefused (alive : ℕ → Bool) (others : Others) (self : Process)
    (table : Option RuntimeLockRow) (start : Start) : Type 0 where
  pub owner : RuntimeLockRow
  pub read : others reading (others trying table) ≡ some owner
  pub other : owner.owner_pid ≢ self.pid
  pub lives : process_exists alive owner.owner_pid ≡ true
  pub reported : start.0 ≡ err (already_running owner.owner_pid owner.acquired_at)
  pub same_process : start.1.0 ≡ self
  pub same_table : start.1.1 ≡ some owner

-- Another process has put its row there before the second insertion, and this start left that row.
pub record IsOvertaken (others : Others) (self : Process) (table : Option RuntimeLockRow)
    (start : Start) : Type 0 where
  pub reported : start.0 ≡ err started_first
  pub same_process : start.1.0 ≡ self
  pub winner : RuntimeLockRow
  pub before : Option RuntimeLockRow
  pub cleared : IsCleared others table before
  pub put : others inserting before ≡ some winner
  pub same_table : start.1.1 ≡ some winner

-- The row that a start has read, if there was one, is no other live process's.
abbrev pub IsFree : (ℕ → Bool) → Others → Process → Option RuntimeLockRow → Type 0
IsFree alive others self table =
    (first row : RuntimeLockRow)
    → others trying table ≡ some first
    → others reading (some first) ≡ some row
    → (row.owner_pid ≡ self.pid) ⊎ (process_exists alive row.owner_pid ≡ false)

delete_owned-Without :
    (pid : ℕ) (table : Option RuntimeLockRow) → Without pid table (delete_owned pid table)
unfolding delete_owned
delete_owned-Without pid none = inr ((λ owned. owned), refl)
delete_owned-Without pid (some row) = elim (Bool-cases (row.owner_pid == pid)) [
  | inl e ↦ rw e (inl (ground (arith, e), refl))
  | inr e ↦ rw e (inr ((λ owned. ground (arith, e, owned)), refl))
]

module _ (alive : ℕ → Bool) (others : Others) (now_iso : Statement → String) (self : Process) where
  -- What the second insertion comes to.
  insert_again-cases :
      (table before : Option RuntimeLockRow)
      → IsCleared others table before
      → IsTaken others self table (insert_again others now_iso self before)
        ⊎ IsOvertaken others self table (insert_again others now_iso self before)
  unfolding insert_again try_insert_runtime_lock owning
  insert_again-cases table before cleared = elim (Option-cases (others inserting before)) [
    | inl e ↦
        rw (insert_again, e)
          (inl (record {
            succeeds = refl;
            owns = refl;
            beats = refl;
            held = inl (refl, inr (before, cleared, e));
          }))
    | inr (winner, e) ↦
        rw (insert_again, e)
          (inr (record {
            reported = refl;
            same_process = refl;
            winner = winner;
            before = before;
            cleared = cleared;
            put = e;
            same_table = refl;
          }))
  ]

  abbrev start_of : Option RuntimeLockRow → Start
  start_of table = acquire_runtime_lock alive others now_iso self table

  abbrev ThreeEnds : Option RuntimeLockRow → Start → Type 0
  ThreeEnds table start =
      ((IsTaken others self table start ⊎ IsOvertaken others self table start)
        × IsFree alive others self table)
      ⊎ IsRefused alive others self table start

  -- A start that has read a row.
  after_read-cases :
      (table : Option RuntimeLockRow) (first row : RuntimeLockRow)
      → others trying table ≡ some first
      → others reading (some first) ≡ some row
      → ThreeEnds table (after_read alive others now_iso self (some row))
  unfolding after_read owning
  after_read-cases table first row ht hr =
      let seen : others reading (others trying table) ≡ some row = rw ht hr in
      elim (Bool-cases (row.owner_pid == self.pid)) [
        | inl mine ↦
            let is_mine : row.owner_pid ≡ self.pid = ground (arith, mine) in
            rw (after_read, mine)
              (inl (
                inl (record {
                  succeeds = refl;
                  owns = refl;
                  beats = refl;
                  held = inr (rw seen is_mine);
                }),
                λ other found same again. inl cc,
              ))
        | inr theirs ↦ elim (Bool-cases (process_exists alive row.owner_pid)) [
          | inl lives ↦
              rw (after_read, theirs, lives)
                (inr (record {
                  owner = row;
                  read = seen;
                  other = ground (arith, theirs);
                  lives = lives;
                  reported = refl;
                  same_process = refl;
                  same_table = refl;
                }))
          | inr dead ↦
              rw (after_read, theirs, dead)
                (inl (
                  insert_again-cases table _ (
                      inr (
                        row,
                        seen,
                        delete_owned-Without row.owner_pid (others deleting (some row)),
                      )),
                  λ other found same again. inr cc,
                ))
        ]
      ]

  start-cases : (table : Option RuntimeLockRow) → ThreeEnds table (start_of table)
  unfolding acquire_runtime_lock try_insert_runtime_lock owning after_read
  start-cases table = elim (Option-cases (others trying table)) [
    | inl e ↦
        rw (acquire_runtime_lock, e)
          (inl (
            inl (record { succeeds = refl; owns = refl; beats = refl; held = inl (refl, inl e) }),
            λ first row found read. cc,
          ))
    | inr (first, e) ↦ elim (Option-cases (others reading (some first))) [
      | inl gone ↦
          rw (acquire_runtime_lock, e, gone)
            (inl
              (insert_again-cases table none (inl (rw e gone, refl)), λ other row found read. cc))
      | inr (row, read) ↦
          let rest : start_of table ≡ after_read alive others now_iso self (some row) =
            rw (acquire_runtime_lock, e, read) refl in
          subst (ThreeEnds table) (sym rest) (after_read-cases table first row e read)
    ]
  ]

-- A start comes to one of three ends, whatever other processes do to the table between its statements.
-- It takes the lock, where no row was there just before its own was inserted or the row that it read is
-- its own. Or it reports that another process started first, whose row it leaves. In both cases no row
-- that it has read was of another live process, and before a second insertion it has deleted no other row
-- than that of the owner that it had read. Or it has read the row of another live process: then it reports
-- that one and changes nothing.
pub acquire_runtime_lock-cases :
    (alive : ℕ → Bool) (others : Others) (now_iso : Statement → String) (self : Process)
    (table : Option RuntimeLockRow)
    → ((IsTaken others self table (acquire_runtime_lock alive others now_iso self table)
          ⊎ IsOvertaken others self table (acquire_runtime_lock alive others now_iso self table))
        × IsFree alive others self table)
      ⊎ IsRefused alive others self table (acquire_runtime_lock alive others now_iso self table)
acquire_runtime_lock-cases alive others now_iso self table =
    start-cases alive others now_iso self table
