-- ===== src/Sql.antt =====
-- src/pages/Chat/workspace/sql.ts: the restricted access to SQL Server of `grafana-sql`.
pub mod Types
pub mod Quoting
pub mod Policy
pub mod Patterns
pub mod Literals
pub mod Filters
pub mod Queries
pub mod Tests
