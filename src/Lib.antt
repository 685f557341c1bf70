-- ===== src/Lib.antt =====
-- bitci is a local continuous integration service: a controller with a SQLite database queues the
-- tasks of bitci.json, workers claim and run them, and their results and logs are kept. This library
-- models the controller's decisions, function by function, as transitions of the database tables.
--
-- The parts, and the files that model them:
--   * Config (internal/bitci/config.go): the types; Config/Validate `Config.Validate`; Config/Order
--     `TaskNames` and `Ordered`, a search whose fuel is one more than the number of tasks, each level
--     of which enters one more task; Config/Plan `Plan` and `matchesAny`.
--   * Sha (internal/bitci/controller.go): `isCheckoutSHA`, `isCommitRef`.
--   * Queue (internal/bitci/controller.go): the tables jobs, leases and batch_refs as lists of rows,
--     and the statements over them in Queue/Table. Queue/Submit is `submit`, Queue/Request
--     `SubmitContext`, Queue/Claim `claimContext` with `ready`, `resourcesFree`, `pinClaimedJob` and
--     `diskOK`, Queue/Finish `finish` and `CancelContext`, Queue/Retry `RetryContext`, Queue/Recover `RecoverInterrupted`,
--     `RecoverOrphaned` and `RecoverJob`, Queue/BatchRefs and Queue/OrphanRefs the refs that keep a
--     batch's commit, Queue/Retention `pruneLogs`, Queue/JobConfig `jobConfig`.
--   * Log (internal/bitci/controller.go): `TailLog` and `SearchLog`; Log/Cursor is `ReadLog`, whose
--     loops have fuel for each byte that is left, take at least one byte a round, and return an error of
--     the model's own if the fuel runs out.
--   * Guard (internal/bitci/controller.go): the checks on the arguments and variables of jobs that read
--     only texts.
--   * Paths (internal/bitci/controller.go and stage.go): comparison of paths (Paths/Compare), symbolic
--     links (Paths/Links), the place of the state directory (Paths/State), and the checks of commands
--     against the directories of a job (Paths/Commands).
--   * Stage (internal/bitci/stage.go): `StagePR`, `StageMain`, `StageBranch` and `stageTrustedRef` in
--     Stage/Run, the state directory and the commit in Stage/Tree.
--   * Work (internal/bitci/controller.go): `runOnce` and `startLog` in Work/Once, `jobCheckout`,
--     `verifyJobWorktree` and `removeJobWorktree` in Work/Worktree,
--     `executeCommandWithRunEnvironment` in Work/Execute, `pruneObjectCaches` in Work/Caches, with the
--     hash of a cache's name as a parameter.
--   * Dashboard (internal/bitci/dashboard.go): `dashboardData` and `resourceUsage`, read from the tables.
--   * Rpc (internal/bitci/rpc.go): `handleRPC`, which calls the operations of the queue, the plan and
--     the logs.
--
-- How the parts interact: submit, claim, finish, cancel, retry and recovery all change the same
-- tables. Each is a function from a world (the tables, and Git's repositories) to a world and its
-- result. A transaction works on a copy of the tables, which is kept if the commit succeeds. Edits of
-- the tables (Queue/Edits) are the step relation that every operation refines, Queue/Invariant what
-- the steps keep, Queue/Reach the sequences of calls, and Queue/Life the view of a client, who knows
-- only the states of jobs. Rpc runs these calls for other processes, Work runs a claimed job up to its
-- `finish`, and Stage chooses the commit that a submission is for. Stage is a monad over the site: the
-- tables, the staged commit, the configuration and the checkout; Stage/After has its rules.
--
-- Git is a record of functions that every operation takes, and `Host` holds the answers of the host in
-- one call: locks, time, free space, and whether a commit succeeds. `filepath.Match` is a parameter.
-- The file system is the record `Files`, and what a run meets (the log, the worktree at four times, the
-- processes) the record `Meets`; loops over `filepath.Dir` are recursion on the parts of a path.
-- Times count nanoseconds. Texts are bytes, and letter case is that of ASCII. Failures of single
-- statements of SQL are not modelled, apart from a violated key.
--
-- Not modelled: the goroutines and timers of `Serve`, the process group file and the timeouts of
-- processes, the file and Git commands of `copyRecordedObjects` and `copyCheckoutRefs`, the sockets of
-- internal/bitci/rpc.go, the handlers and the page of internal/bitci/dashboard.go, and
-- internal/bitci/mcp.go, internal/bitci/service.go and cmd/bitci/main.go, which are input and output
-- round the calls above.
pub mod Prelude
pub mod Config
pub mod Sha
pub mod Dashboard
pub mod Guard
pub mod Queue
pub mod Log
pub mod Paths
pub mod Rpc
pub mod Work
pub mod Stage
pub mod Tests
