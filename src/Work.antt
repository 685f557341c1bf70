-- ===== src/Work.antt =====
-- Running a job: the parts of `runOnce` of internal/bitci/controller.go, which claims a job, prepares
-- a worktree, runs its commands and ends it.
pub mod Worktree
pub mod Execute
pub mod Once
pub mod Changes
pub mod Rows
pub mod Ends
pub mod Checks
pub mod Passes
pub mod Caches
