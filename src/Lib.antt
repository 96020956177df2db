-- ===== src/Lib.antt =====
-- BFrost: the Item Bus, the scheduler's stores and pool, the approval queue and the locks.
--
-- BFrost is a backend that runs workers. Workers exchange items over the Item Bus, a table of the
-- application's database; the scheduler runs the jobs of workers, in slots and one run of a worker at
-- a time, and records every run; a worker that wants to write asks through the approval queue; locks
-- in the database keep a second backend out and a command from running twice for one slot.
--
-- Which file models what:
--   Queue/Item, Queue/Dedupe, Queue/Moves: src/jobs/queue.ts, the schemas and defaults of an item, the
--     collapse by id (dedupeQueueById), pruneQueue, and the transitions (approveQueueItem and so on).
--   Queue/Table, Queue/Store, Queue/Store/Reads: src/jobs/queue.ts, the table with its statements, and
--     the operations on it (loadQueue, saveQueue, insertQueueItem, upsertQueueItems, ...).
--   Queue/Snapshot: src/jobs/queue-service.ts.
--   Bus/Publish, Bus/Consumer: src/jobs/item-bus.ts, which stands on the operations of Queue/Store.
--   Runs: src/scheduler-runs.ts.
--   Scheduler/Pool, Scheduler/Streaks, Scheduler/Windows: src/scheduler.ts, the bounded pool, the
--     failures in a row, the catch-up window and the delays between attempts.
--   Scheduler/Runtime: src/scheduler.ts, the state of each job (runtimeCache, abandonedJobRuns, the
--     stored copy) and the writes to it. Scheduler/Work: executeQueuedJob and runJobWork.
--     Scheduler/Trigger: runJob and triggerJobNow, with the locks of Locks/Execution.
--     Scheduler/Lifecycle: the steps of one job between the places where the source waits, by the
--     functions of these three. Scheduler/Wakes: scheduleBusWake, schedulePendingBusWake, runBusWake.
--     Scheduler/Skipped: recordSkippedScheduleExecution, up to the run that it starts.
--   Scheduler/Cron: src/cron-internals.ts.
--   Actions/Store: src/actions/store.ts and src/actions/types.ts. Actions/Diff: buildDiff of
--     src/actions/primitives.ts. Actions/Primitives: the rest of that file, with requestFileWrite in
--     Actions/Primitives/Write and requestShell in Actions/Primitives/Shell.
--   Locks/Execution: src/scheduler-locks.ts. Locks/Runtime: src/runtime-lock.ts.
--   Platform and Json: what the program takes from the run time and from packages. Prelude: shared
--     types and lemmas. Examples and the modules named Tests: the theorems at concrete values.
-- The children of a component prove theorems about it. A function of the source has the name it has
-- there, in this language's spelling.
--
-- How the state corresponds: a table is the list of its rows, and a JSON column holds its value. An
-- operation that throws returns an error with the state at that point. What the surroundings decide
-- (files, whether the queue lock is granted, whether a process lives, the next match of a cron
-- schedule), how a handler ends, what the rest of the program does while a function waits, and what is
-- drawn at random is an argument. An instant is the number of its milliseconds
-- since the earliest JavaScript date.
--
-- Bounds: the rounds of the preview's loop are as many as both files have lines, since each round takes
-- a line off one of them. The search for the previous slot has the iterations of the source. The
-- loop over the attempts of a run has as many rounds as the retry policy allows attempts. The wait for
-- a decision has two rounds more than its timeout has intervals, since a round starts an interval after
-- the one before it. Every other loop is over a list.
--
-- Not modelled: the file lock of the queue beyond whether it is granted; two reads of the queue under
-- way at once; the schema check of stored runs and of their attempts; a read of the settings or of the
-- workers' state that fails in a wake; the pipeline tick, the reload of schedules and the recovery of
-- missed slots at the start; the fields of a job's state that come from its settings; notifications and
-- the metadata of events; the workers themselves, the HTTP server and the dashboard.
pub mod Actions
pub mod Bus
pub mod Examples
pub mod Json
pub mod Locks
pub mod Platform
pub mod Prelude
pub mod Queue
pub mod Runs
pub mod Scheduler
