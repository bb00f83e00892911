-- ===== src/Lib.antt =====
-- A verification library of the expense management server: employees submit expenses, managers approve
-- or reject them, and every change leaves an entry in an audit trail. The server is TypeScript over
-- MySQL; many requests are served at once, each as a chain of awaited statements.
--
-- Parts, and the files that model them:
--   * Types, Errors: the rows and enumerations of server/src/types/index.ts, and the errors of
--     server/src/utils/errors.ts with a result type.
--   * Db: the tables of database/schema.sql (Table), asynchronous operations and transactions of
--     server/src/config/db.ts (Monad), how tables may change over time (History), the rules of rely
--     and guarantee (Guarantee), what a run that ended well went through (Runs), what a
--     transaction leaves behind (Atomic), operations that always end well (Total), and the moments of a
--     run that only reads (Moments).
--   * Expenses: server/src/models/expense.ts with the procedures of database/stored-procedures.sql: the
--     changes of a row (Rows), the statements (Sql), the operations (Model), and the lemmas on them
--     (Statements, Operations, Submission, Deletion, Resubmission, Winner), against descriptions of what they
--     write that do not use them (Frame, Fresh, Erased).
--   * Users, Notifications, Comments, Inbox: server/src/models/user.ts, notification.ts and comment.ts,
--     server/src/services/notificationService.ts, and server/src/controllers/commentController.ts and
--     notificationController.ts.
--   * Requests: server/src/utils/requestParsing.ts, pagination.ts and sorting.ts.
--   * Auth: the roles of server/src/middleware/auth.ts and rbac.ts (Roles, Access), and
--     server/src/services/managerAuthorization.ts (Manager, Evidence) over an interface to Microsoft
--     Graph (Graph), the part of server/src/services/graphApi.ts that the check calls.
--   * Handlers: server/src/controllers/approvalController.ts and expenseController.ts (Approval,
--     Submitter), the service that answers one request after the other (Service), and what holds of
--     their answers (Opening, Gate, Decisions, Outcome, Succeeds, Committed, Reading, Guarantee).
--   * Listings: the listings and exports of server/src/models/expense.ts and auditLog.ts and their
--     handlers in expenseController.ts and adminController.ts: LIKE patterns (Like), sorting (Order),
--     the statements (Statements, Model, Filters, Trail), and what holds of their answers (Answers, Pages,
--     Complete, Scope, Exports, Audited).
--   * Graph: server/src/services/graphApi.ts and cacheService.ts: requests and retries (Http, Retry),
--     collections page by page (Paging), tokens, cache and reads (Client), what the reads give
--     (Collected, Sends, Granted, Fresh), and the interface of Auth.Graph filled by them (Api).
--   * Org: the organisation queries of server/src/models/user.ts (Tree), the handlers of
--     server/src/controllers/orgController.ts (Handlers), and what holds of them (Chains, Subtree, Access).
--   * Login: the sign-in of server/src/middleware/auth.ts, with server/src/models/securityEvent.ts and the
--     writes of user.ts (Outside, Accounts, Sessions, Claims, Authenticate), and whom it lets in (Local, Entra,
--     Identity).
--   * Pending: `getPendingApprovals` of server/src/controllers/approvalController.ts (Handler) with the
--     queries of user.ts (Reports) and expense.ts (Model) that it runs, and whose expenses it shows (Rows,
--     Shown).
--   * Logs: server/src/config/pulsarLogsTransport.ts: the configuration and the rows (Config, Row), the
--     transport as steps between awaits (State, Shipper), its batches and the caps of a row (Batch, Limits), what it keeps (Books, Sends,
--     Answers, Shipping), and that a drain ends (Drained).
--   * Settings: `updatePreferences` of server/src/models/user.ts with its handler in
--     server/src/controllers/meController.ts (Preferences), and the notifications that go by it (Obeyed).
--   * Csv: server/src/utils/csv.ts, with a reader of the format to compare against. Uploads: the uploaded
--     file of a submission, and the download names of server/src/utils/receiptFiles.ts.
--   * Base: names, Boolean tests, lists, texts and order. Tests: concrete runs.
--
-- How code becomes definitions. An operation takes a world (tables, clock, schedule) and gives a result
-- and a world. The schedule has one entry for each await of a pooled call: what the other requests
-- commit meanwhile, and whether the call fails. Inside a transaction the others do not touch the rows
-- that it locks, but each statement may still fail, the commit and the rollback included; a commit that
-- fails is taken not to have been applied, and a rollback leaves the AUTO_INCREMENT counters where they
-- are. `throw`, and `next(e)` followed by `return`, raise an error; `res.json` gives the result. There
-- is no fuel but the code's own bounds: a request to Graph counts its retries down, a collection its
-- pages up to the cap of pages, a chain of managers its depth, and the recursive query of the
-- organisation its depth. Every other loop is over a list.
--
-- The transport of log lines moves by steps, one for what runs between two awaits, in any order; a request
-- that is under way is part of its state.
--
-- Texts are lists of UTF-16 code units, amounts are in cents, dates are texts YYYY-MM-DD, and times are
-- numbers. Ids and versions do not overflow, which in INT UNSIGNED they would after 4,294,967,295.
-- `toLowerCase` acts on ASCII. An UPDATE reports the rows that it matched, as the driver's flags have it.
--
-- The collation of MySQL and midnight of a date are given by the parameter Server. The rows of a recursive
-- query come depth by depth. axios, node-cache, jsonwebtoken with its keys, new URL and Number are
-- parameters.
--
-- Not modelled: foreign keys and column widths, isolation levels below the row locks that the code
-- takes, metrics, the log lines that the handlers write and their redaction, detail and metadata of
-- security events, the events of logins and rate limits, the unlinking of files, the validation of bodies
-- (which is a library's), the export of the audit log, the enrichment from Graph in getOrgUser, the
-- manager's list of employees, org attributes and groups of users, the seeding and reaping of demo
-- workspaces, currency conversion and statistics, and the web client.
pub mod Base
pub mod Types
pub mod Errors
pub mod Db
pub mod Expenses
pub mod Requests
pub mod Users
pub mod Listings
pub mod Notifications
pub mod Auth
pub mod Graph
pub mod Org
pub mod Pending
pub mod Login
pub mod Logs
pub mod Settings
pub mod Comments
pub mod Inbox
pub mod Csv
pub mod Uploads
pub mod Handlers
pub mod Tests
