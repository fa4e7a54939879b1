-- ===== src/Lib.antt =====
-- A model of the core of the Telegram gateway: a service that lets applications use the Telegram
-- accounts of its users. An application registers at the authorization server (internal/oauth), the
-- account's owner consents in a browser, and the application exchanges a code for tokens, under which
-- the HTTP interface (internal/httpserver, internal/access) serves it. Workers (internal/worker) take
-- jobs from a queue, hold leases on sessions (internal/runtime) and on synchronization states
-- (internal/syncstate), call Telegram under rate limits (internal/ratelimit), and store what it returns:
-- messages (internal/messages) and their files (internal/media). Every sensitive action goes to a
-- hash-chained log (internal/audit).
--
-- Files, and the code that they model:
--   Base          tests, tables as lists of rows, text, and handlers (Base/Handler)
--   Schema        the tables that internal/access and internal/oauth read and write (migrations/)
--   Access        internal/access: scopes.go, token.go, repository.go
--   Oauth         internal/oauth: server.go, registration.go
--   Audit         internal/audit: writer.go, verifier.go
--   SyncState     internal/syncstate/repository.go
--   Runtime       internal/runtime/repository.go
--   Send          internal/httpserver/send.go
--   Permissions   internal/httpserver/chat_permissions.go
--   Worker        internal/worker: errors.go, runner.go, processor.go, failSync of synclease.go;
--                 internal/syncjob/contracts.go (Worker/History: history.go)
--   Messages      internal/messages: repository.go, pagination.go, fresh.go, and the view
--                 active_messages of migrations/000012_message_tombstones.up.sql
--   Media         internal/media: repository.go, claim.go, service.go, preview.go (Media/Download:
--                 internal/worker/media.go)
--   Ratelimit     internal/ratelimit/limiter.go
--   Examples      the same definitions run on small inputs
--
-- How the code is read. A handler (Base.Handler) is a function from the database to an answer and a
-- database: an early return is `reply`, a statement may fail (the list `faults` says which do), and a
-- transaction that is not committed leaves the database as it was. A transaction runs as one step,
-- since the code serialises those that touch one grant, one registration table or one audit chain by an
-- advisory lock; a commit either happens or fails, and an ambiguous outcome is not modelled. NOW(),
-- random texts and new uuids are arguments. A uuid is a natural number, or its text where the code
-- compares texts; a digest is a number, or bytes in the audit log; a timestamp counts microseconds.
-- SHA-256, base64, the URL parser, JSON and the casts of PostgreSQL are parameters. CHECK constraints and
-- foreign keys count as failing statements. Message and file ids are naturals, 0 for none. The loops of
-- the code are structural recursion on a list; the two repetitions between requests, a reader who follows
-- page cursors (Messages.Pages.walk) and a history job that enqueues the next (Worker.History.run_jobs),
-- run on fuel, and one more than the number of messages is enough.
--
-- Not modelled: HTTP routing and rendering, the TDLib binding, object storage, the queue and its
-- goroutines, the browser login (its answer is an argument), previews of videos, the JPEG encoder, the
-- other synchronization handlers of the worker, and the repositories for chats, contacts and members. In
-- the handlers of media and history jobs the synchronization state, the limiter, Telegram and the object
-- store are what they answer.
pub mod Base
pub mod Permissions
pub mod Ratelimit
pub mod Runtime
pub mod Schema
pub mod Send
pub mod Access
pub mod Audit
pub mod Oauth
pub mod Messages
pub mod Media
pub mod SyncState
pub mod Worker
pub mod Examples
