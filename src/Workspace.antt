-- ===== src/Workspace.antt =====
-- src/pages/Chat/workspace: the session filesystem of a chat. The types and resource kinds, the
-- committed workspace, the copy-on-write transaction over it, and what is stored with the session.
pub mod Kinds
pub mod Types
pub mod Store
pub mod Transaction
pub mod Writes
pub mod Directories
pub mod Commit
pub mod Invariant
pub mod Loading
pub mod Persistence
pub mod Tests
