-- ===== src/Lib.antt =====
-- The core of a local-first platform for Tauri applications, in TypeScript: what orders and
-- resolves replicated operations, what runs background work, and what decides who may do what.
--
-- The parts and how they interact:
-- - Clock: the hybrid logical clock of packages/sync-protocol/src/hlc/HybridLogicalClock.ts, which
--   stamps every operation. `HybridLogicalClock` is the object's state; `now` and `update` return
--   the text or the RangeError with the state afterwards. Texts are lists of UTF-16 code units, so
--   `parse` and `format` (toString(16), padStart, both regular expressions, the ISO date) are
--   written out. `Date.now()` and the comparator of `localeCompare` are arguments.
-- - Conflicts: packages/sync-protocol/src/conflicts/ConflictRegistry.ts and
--   packages/sync/src/conflict/ConflictEngine.ts, which compare those stamps. The registry's maps
--   are lists of entries, a custom resolver is a function that may throw, and numbers are a
--   parameter (`Numbers`).
-- - Sync: the state machine of one peer (packages/sync/src/manager/SyncStateMachine.ts) and the
--   manager of all peers (packages/sync/src/manager/SyncManager.ts). The calls of listeners are
--   part of the result.
-- - Features: packages/feature-system/src/registry/DependencyResolver.ts, the order in which features
--   are initialised. The traversal keeps its explicit stack, top first, and a frame holds the
--   dependencies that are left instead of an index.
-- - Migrations: packages/database/src/migrations/SqlScript.ts, the splitting of a script into its
--   statements. A text is the list of its code units, and the slice from `start` to `index` is
--   carried along as `piece`. MigrationEngine.ts beside it applies such scripts: the database is
--   core_migrations and a state of any type, which the SQL engine (`execute`) changes.
-- - Handshake: packages/sync-protocol/src/handshake/HandshakeProtocol.ts, the checks on a peer's
--   first message and the set of nonces that a session keeps. `Date.parse` and the signature check
--   over the canonical bytes are arguments. `require_valid` is a call that no other overlaps;
--   Handshake.Overlap splits it at the await of the signature check, so that calls may overlap.
-- - Authorization: packages/authorization/src/engine and repositories/AuthorizationRepository.ts.
--   The four tables are lists of rows, the joins are nested lists, and `JSON.parse` and the strict
--   equality of scope values are arguments.
-- - Identity: packages/identity/src, the devices (device/DeviceIdentityService.ts and its repository)
--   and the session of the user (user/UserSessionService.ts). Queries of one call may see different
--   tables, and a validation may end when the session is another one; session objects are told apart
--   by a number.
-- - Groups: packages/authorization/src/sync-group/SyncGroupService.ts over its repository and the
--   authorization engine. Its six tables are lists in the order of insertion, and a SELECT with
--   LIMIT 1 and no ORDER BY reads the first row. A call is one transaction, whose writes are gone
--   where it throws, and the database may refuse any statement (`refuses`).
-- - Database: packages/database/src/connection, the transactions of the native and the in-memory
--   connection. A callback is the tree of its client calls, and the SQL engine is a parameter
--   (`Engine`), with the batches that the native side admits: its limits on operations and bytes and
--   its check of the texts are in crates/native-core/src/database.rs. The other components read and
--   write as on the in-memory connection: on the native one a read inside a transaction throws, which
--   docs/07-in-development/known-limitations.md says.
-- - Envelope: packages/sync-protocol/src/envelope/SyncEnvelopeBuilder.ts, the signed form of an
--   operation. A value is a leaf, an array or an object with its entries in the order in which they
--   were defined; JSON.stringify, the UTF-8 encoder and the signing callbacks are arguments.
-- - Replication: packages/sync/src/outbox/OutboxService.ts and inbox/InboxService.ts, the durable
--   queues of envelopes to be sent and received, and OutboxSyncWorker.handle of
--   packages/tasks/src/sync, which sends a batch. A table is a list of rows with its unique keys.
--   What the dispatcher does with each entry, and whether the signal is aborted at each check of it,
--   are functions of the entry (`Surroundings`). A call of applyPending runs to its end before the
--   table changes in another way: it holds no lock while applyFn runs, and calls that overlap, or
--   receive an envelope again whose row SyncInboxPruner deleted, are outside the model.
--   TombstoneService.ts beside them keeps the rows of deleted entities.
-- - Maintenance: packages/maintenance/src/orchestrator/MaintenanceOrchestrator.ts, which prunes the
--   tables by handlers; a handler is a function on a database of any type.
-- - Notes: apps/minimal-consumer/src/notes, a feature on top of Authorization, Groups, Envelope and
--   Replication. A call of NotesService is one transaction over the tables of all of them
--   (`NotesStore`), whose writes are gone where it throws; JSON, scope values and the signer are a
--   record of arguments (`Platform`), and the ids and times that a call draws another (`Fresh`).
--   listNotes reads without a transaction; `list_notes` has its queries see one state. In between the
--   DELETE of two handlers of packages/maintenance/src/handlers may remove rows that were sent.
-- - Tasks: packages/tasks/src/queue/TaskQueueService.ts and retry/TaskRetryCalculator.ts. The table
--   core_background_tasks is a list of rows with its primary key and its partial unique index; each
--   SQL statement is an update of the list, and a call that reads before it writes takes the table
--   that it read as a further argument, so that other connections may write in between; only the
--   UPDATE of a claim and those that quarantine its malformed rows follow one another with no write of
--   another connection in between. Floating point numbers are a parameter (`Floats`) of which nothing is
--   assumed. A delay that is NaN or too large for a date makes markFailed throw in toISOString, which
--   is not modelled: `mark_failed` is the call where the new schedule is a date.
-- - Base: what the parts share. Numbers are natural numbers and `Base.Int`; `Result` is a value or
--   what was thrown; `Dict` is a Map with text keys; `Tables` has UPDATE, WHERE and ORDER BY.
--
-- Bounds: safe integers end at 2^53 - 1 (`max_safe`). The digits of a number are produced by
-- recursion on the order of numbers. The `while` loop of the dependency resolver runs on fuel: two
-- steps for each manifest and one for each of its dependencies, which `Features.Total` proves
-- enough. The loop of `splitSqlScript` runs on the length of the script, of which an iteration
-- consumes one character at least. Every other loop is recursion on a list.
--
-- Not modelled: the texts of error messages and reasons, SQL execution, the native side, the user
-- interface, and the services over these parts (pairing, import and export).
pub mod Authorization
pub mod Base
pub mod Clock
pub mod Conflicts
pub mod Database
pub mod Envelope
pub mod Features
pub mod Groups
pub mod Handshake
pub mod Identity
pub mod Maintenance
pub mod Migrations
pub mod Notes
pub mod Replication
pub mod Sync
pub mod Tasks
