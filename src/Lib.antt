-- ===== src/Lib.antt =====
-- grafana-pi-app: a verification library for the assistant's own logic in src/.
--
-- The assistant works on Grafana resources through a filesystem of its chat session. A path is
-- normalised (paths.ts), classified by the mount it lies in, and read or written in a transaction over
-- the committed workspace (workspace.ts); a commit publishes the staged changes together. The chat
-- itself is a log of commits in a backend: a storage (logStorage.ts) opens the chat, replays its log into
-- memory, and sends each commit with retries before it applies the commit in memory. Outside Grafana a
-- host (src/host) keeps which chat thread belongs to which alert group; of its replicas one leads
-- (lease.ts). A command for SQL Server (sql.ts) builds its queries from checked names and quoted values.
--
-- The files and the code they model:
--   Prelude, Prelude/*       the shared helpers: booleans, options, lists, texts, association maps.
--   Paths                    src/pages/Chat/workspace/paths.ts. A text is its list of UTF-16 code
--                            units. `normalize_workspace_path` is normalizeWorkspacePath, and each
--                            function has the source's name. Paths/* hold the proofs.
--   Workspace/Kinds          src/pages/Chat/workspace/resourceKinds.ts, and parseResourceKey.
--   Workspace/Types          src/pages/Chat/workspace/types.ts.
--   Workspace/Store          class SessionWorkspace of src/pages/Chat/workspace/workspace.ts: the record
--                            `Workspace` holds the committed files, directories and resources.
--   Workspace/Transaction    class WorkspaceTransaction: the staged maps, reads, commit, checkpoint. An
--                            operation is a function from a `Session` (workspace and transaction) to
--                            its result or error and the session it leaves.
--   Workspace/Writes         writeFile, readFile, appendFile.
--   Workspace/Directories    entryType, mkdir, rm.
--   Workspace/Commit         what a commit does: the accounting and the view it leaves.
--   Workspace/Loading        proofs about hydrate and setResourceBase. Loading/Flights has loads in
--                            flight (`inflight`) beside other operations; within a transaction
--                            `hydrate` is one step, in which nothing else runs.
--   Workspace/Persistence    serialize and restore, the diff package being a parameter.
--   Workspace/Invariant      the invariant of a session, kept by its operations.
--   ChatLog                  src/pages/Chat/durable/fakeChatLog.ts: the backend's `Backend` and its
--                            requests; a row's body is its JSON text. `list` is left out.
--   ChatLog/Storage          src/pages/Chat/durable/logStorage.ts: `save` is commit, with the retry
--                            loop `deliver`; `replay_pages` is the page loop of replay.
--   ChatLog/Fencing, Rows, Delivery, Paging, Replay
--                            proofs about openings, row order, retries, pages and replay.
--   Host/Store               src/host/store.ts: threads, episodes, analyses and their pruning.
--   Host/Alerts              src/host/alerts.ts: the delivery that a notification leads to.
--   Host/Retention           proofs about what the writes of the host's state keep.
--   Sql                      src/pages/Chat/workspace/sql.ts, and grafanaTime of
--                            src/pages/Chat/domain/time.ts. A thrown error is `err` with what its message
--                            names.
--   Sql/Types                its types, errors and sets of column types.
--   Sql/Quoting              literal, identifier, splitTable, tableIdentifier.
--   Sql/Policy               sqlDatasources, describeColumns, and the choice of datasource, table and
--                            column. The transport's answers for INFORMATION_SCHEMA are the parameter
--                            `catalog`.
--   Sql/Patterns             its regular expressions, as the scans that they make.
--   Sql/Literals, Filters    typedLiteral, timeLiteral, bucketExpression, compileFilter.
--   Sql/Queries              prepare, and count and rows up to the queries that they run.
--   Lease                    src/host/lease.ts: `decide` is tryAcquire between its requests, `won`, `lose`
--                            and `stop` (release) the changes of a replica.
--   Lease/Election           the replicas, the API server and the clock as a step relation: requests may
--                            be answered late, fail, be aborted after the renew interval, or reach the
--                            server after their sender gave up. The replicas' clocks agree, a timer runs
--                            at its time, and at the start there is no lease.
--   Lease/Safe, Writes, Decisions, Steps, Exclusion
--                            what holds in every state, and what follows for the leaders.
--   Apply                    src/pages/Chat/workspace/apply.ts from the reviewer's decision on:
--                            `stale_change_reasons`, and `apply_decided`, the rest of
--                            applyWorkspaceChanges. `runs` lists the operations in the order in which
--                            they end, with the answer of each. Apply/* hold the proofs.
--   Approvals                src/pages/Chat/session/ApprovalChannel.ts: requests, decisions and
--                            cancellations as events; a promise is a number.
--   ChangeGroups             src/pages/Chat/workspace/changeGroups.ts: `replacement`, `replacements`
--                            and, in Groups, `group_changes`; the diff package and localeCompare are
--                            parameters. Apply/Unapproved composes Apply with Approvals.
--
-- Conventions. JavaScript maps are association lists; a theorem that needs each key once says so.
-- Optional values are Option. The operations are modelled behind the normalisation of their path
-- argument. `ancestors_from` runs on fuel, one more than the length of the path, since each parent is
-- shorter; `replay_pages` on a number of rounds, of which a log needs at most one more than it has
-- rows, since each page but the last brings at least one. The retries of a commit are three, as in the
-- source. Unicode normalisation, content revisions, the locale order of change lists, the resource
-- hydrator, the text of metadata files, the MemoryStorage of pi-durable, and the JSON text and the
-- digest of a commit are parameters, and for SQL the case mappings of JavaScript, its Date, the
-- catalog, and the text of numbers beyond 2 ^ 53. The diff package is taken to restore texts without
-- carriage returns only, and the MemoryStorage to take a commit without writes for its sequence number
-- only, each in the one theorem that says so.
--
-- Not modelled: what the SQL command makes of the answers, the HTTP client of the log, listeners,
-- prefetching, caches, cp and mv, listings, the apply journal, and the parts of the program that are
-- I/O or user interface.
pub mod Prelude
pub mod Apply
pub mod Approvals
pub mod ChangeGroups
pub mod ChatLog
pub mod Host
pub mod Lease
pub mod Paths
pub mod Sql
pub mod Workspace
