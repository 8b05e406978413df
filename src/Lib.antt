-- ===== src/Lib.antt =====
-- A verification library for SelectiveMirror, a Go daemon that mirrors local folders to a remote by
-- running rclone. The watcher puts a task into a queue for each changed file; workers take the tasks
-- and upload or delete with rclone under a supervisor; a filter engine made from .syncignore and the
-- global rules says what is mirrored; a SQLite table records what was synced.
--
-- The program's parts and the files that model them:
-- - Base, Base/*: Booleans, lists over native numbers, Go strings as lists of bytes, Go maps as
--   functions, signed integers and int64. Paths, Paths/Split: what the program uses of Go's strings
--   and path/filepath, on Windows. Samples: a mirror and a configuration for the tests.
-- - Config: internal/config/config.go, the structs Project and Global and the settings derived from
--   them (DeletePolicy, MaxFileSize, RcloneArgs and the durations, whose products are int64).
--   Config/Validate is Validate, with Config/Flags for the denylist of rclone flags and Config/LocalPaths
--   for the paths and remotes of mirrors.
-- - Queue, Queue/*: internal/sync/fairqueue.go. FairQueue is a record, every method a function on
--   it: enqueue, enqueue_priority (Queue), set_cooldown, set_adaptive_cooldown (Queue/Cooldown),
--   record_failure, record_success (Queue/Circuit), poll, one round of Dequeue under the mutex
--   (Queue/Dequeue). Queue/Run has the histories of calls and a waiting Dequeue between them.
-- - Filter, Filter/*: internal/filter/filter.go. Filter/Rules parses .syncignore, Filter/Engine has
--   New and IsExcluded, Filter/Reload has Reload, Filter/Rclone the filter file for rclone.
-- - Supervisor, Supervisor/*: internal/sync/liveness.go. runWithSupervisor is supervise, over the
--   sequence of what its select received; Supervisor/Stderr is the bounded stderr.
-- - Store: internal/state/state.go, the statements on the table sync_state as functions on rows;
--   Store/Statements a run of them, Store/Statements/Table the map that the rows stand for.
-- - Sync, Sync/*: internal/sync/sync.go. Sync has the world that the methods change and the
--   environment that answers them; Sync/Names the paths behind a remote, Sync/Flags the command
--   lines, Sync/Delete deleteRemoteFile and deleteRemoteDir, Sync/Upload syncSingleFile and syncMtime,
--   Sync/Ghosts CleanupGhosts and CleanupLeaks, Sync/Ghosts/Listing deduplicateRemoteFiles, Sync/Walk
--   the walk over the local tree in findGhosts and backfillStateAfterBatchSync, Sync/Quarantine the
--   names in quarantine and PurgeExpiredQuarantine, Sync/Full syncFullProject with its counter in the
--   meta table, Sync/Task processTask and quiesceFile. Sync/Locks has acquireFileLock and
--   releaseFileLock, one atomic access at a time, by workers in any interleaving.
-- - Watcher, Watcher/*: internal/watcher/watcher.go. Watcher has handleEvent and
--   queueFilesInDir, Watcher/Removals handleRemove, handleRename and trackDeleteBurst, Watcher/Timers
--   what a debounce timer does, Watcher/Paths isSubPath and isRelSubPath, Watcher/Debounce the
--   life of the debounce timers as a list of operations, Watcher/Reloads reloadFilter.
--
-- How they meet: Watcher puts tasks into Queue's enqueue; the queue's tasks carry Config's Project;
-- Sync/Upload asks Filter's is_excluded, reads and writes Store's rows, and reports to Queue's
-- cooldowns and circuit breaker; Sync/Delete asks Config's delete policy and writes Store's rows;
-- the exit codes that both get from rclone are those that Supervisor gives out.
--
-- Parameters, because their code is not in the repository: the gitignore matcher and the hash
-- (Libraries), rclone's exit codes, SQLite's failures and its LIKE, the clock (Env), what the disk
-- answers about a file (Disk, Looks), the machine that a configuration is tested on (Machine), what
-- the process reports (Reading), the listing of the remote, the local tree (Root).
--
-- Fuel: deleteRemoteFile and deleteRemoteDir call each other, in the model on fuel; 2 is enough where
-- the table has its key. Everything else is by structural recursion.
--
-- Times are nanoseconds as natural numbers; the backoff of the circuit breaker is computed in int64,
-- as the code does. Log lines, metrics and the texts of details are left out.
--
-- Not modelled: the recovery from panics, MigrateRemote and the listings of internal/sync/sync.go;
-- loading and editing of the configuration; the watches and the event loop of internal/watcher;
-- telemetry, anomaly, metrics, notify, hooks, lock, logging, rclone, service and task, and
-- cmd/smirror, which are I/O and glue around these parts.
--
-- Simplified: a Reload of the filter is one step, although the code reads the file before it takes the
-- lock; the errors of quiesceFile are constructors, where its caller looks for "still changing" in
-- their texts; strings.ToLower folds ASCII letters only; the cutoff of PurgeExpiredQuarantine, which
-- the code computes from the retention days and the clock, is an argument; sizes are natural numbers;
-- PurgeExpiredQuarantine, CleanupGhosts and CleanupLeaks get a listing, not the text that lists it.
pub mod Base
pub mod Config
mod Samples
pub mod Queue
pub mod Paths
pub mod Filter
pub mod Supervisor
pub mod Store
pub mod Sync
pub mod Watcher
