-- ===== src/Workspace/Invariant.antt =====
-- workspace/workspace.ts: the invariant of a session, kept by every operation of its transaction.
pub mod Keeps
pub mod Operations
pub mod Sequences
