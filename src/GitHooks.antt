-- ===== src/GitHooks.antt =====
-- packages/tooling/git-hooks/src/run.ts: the steps of the hooks. A process is its exit status, `none`
-- for one that a signal ended; what is written to the terminal is left out.
pub mod FileSystem
pub mod PreCommit
pub mod CommitMsg
pub mod Install
pub mod Cli
