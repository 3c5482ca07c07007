-- ===== src/Workspace/Commit.antt =====
-- workspace/workspace.ts: what `commit` guarantees.
pub mod Staged
pub mod Quota
pub mod Contents
pub mod Directories
pub mod Outcome
