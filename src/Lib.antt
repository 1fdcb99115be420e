-- ===== src/Lib.antt =====
-- WealthTrack takes uploads of investment records as CSV files, previews them, imports them into a
-- database after a confirmation, and reports on them. This library models the core of it.
--
-- The parts, and how they meet. A request to the API (apps/api/src/modules/uploads/uploads.service.ts,
-- Uploads) stores a batch and queues a job. The worker (apps/worker/src/processors/csv-processing.processor.ts,
-- Processing) reads the file (apps/worker/src/common/csv-parser.ts, Csv), checks each row and stores the
-- preview. A confirmation (apps/api/src/modules/imports/imports.service.ts, Imports) queues the import under
-- an idempotency key, and the worker (apps/worker/src/processors/import.processor.ts, Import) inserts the
-- valid rows. Events and jobs go through apps/api/src/modules/outbox/outbox.service.ts (Outbox), and the
-- permission tests of the policies are in Actor.
--
-- Users and their permissions are the other half. The guard (apps/api/src/common/guards/permission.guard.ts,
-- Guard) reads the actor from the headers. apps/api/src/modules/auth/auth.service.ts is Auth, with Auth/Reset for
-- the tokens by which a password is set, apps/api/src/modules/users/users.service.ts is Users,
-- apps/api/src/modules/rbac/rbac.service.ts is Rbac, and apps/api/src/common/utils/password.ts is Password. They
-- share the tables of Accounts.
--
-- Investments also come from other systems. apps/api/src/modules/integrations/integrations.service.ts
-- (Integrations) keeps their sources, with Integrations/Tabs for the tabs of a sheet and
-- Integrations/Webhook for google-sheets-webhook.controller.ts beside it. A user, a notification of Google or
-- the scheduler (apps/worker/src/schedulers/google-sheets-sync.scheduler.ts, Scheduler) adds a batch and a job,
-- and the worker reads the sheet (apps/worker/src/processors/google-sheets-sync.processor.ts, Sheets, with
-- Sheets/Cells for its cells and Sheets/Rows for its rows) or the records that a source holds
-- (apps/worker/src/processors/sync.processor.ts, ManualSync). Integrations/Reachable puts these together: its
-- states are those that any sequence of these operations reaches.
--
-- The stored investments are listed and deleted by
-- apps/api/src/modules/investments/investments.service.ts (Investments) and reported on by
-- apps/api/src/modules/analytics/analytics.service.ts (Analytics): Analytics/Summary is summary,
-- Analytics/Series, Breakdown and Trends are trends, Analytics/Customers the portfolio, Analytics/Managers
-- wealthManagers, and Analytics/Aging the classes of tenors. They fold over the records and group them in
-- a Map, which Analytics/Grouping compares with taking the records of one key.
--
-- The files. Rows holds the rows of packages/shared-types/src/database.ts and the jobs of queues.ts, Store
-- the tables of the pipeline with the queries of the repositories, RowMapper the renaming of
-- columns by mysql-row-mapper.ts, and Prelude what the models share: tests on numbers, lists, texts, and
-- `Action`, the state and the exception of a handler. A state is passed explicitly, and a call that throws
-- returns the state as it was left, since nothing here runs in a transaction.
--
-- Conventions. A string is the list of its UTF-16 code units. A time is its number of milliseconds, and a
-- request or a job reads the clock once. The identifiers that createId gives are a supply `ℕ → Text`, or one by
-- the row and the call they are drawn for.
-- The tables list their rows in the order of insertion. A function keeps the name of the source in
-- snake case. All functions are structurally recursive, so no fuel is needed.
--
-- Every INSERT that the code awaits one by one, or all at once with Promise.all, is made in the order of the
-- list. Texts are compared code unit by code unit, where the collation of the database may be coarser;
-- only the deletions of users and of investments by a list of identifiers take the collation (`same` of
-- Env, Ledger) into account. Two foreign keys are modelled, since they stop a handler in its middle: that of
-- investment records on the rows of their upload, and that of users on their roles. The INSERT of an upload
-- batch and of a user is taken to succeed.
--
-- Parameters, with what the code relies on. JavaScript's numbers (JsNumber, Numbers) and dates (Dates),
-- base64 and the file storage (Files, Storage), the hash functions, whether a queue takes a job (Request),
-- the checks of the database that are not unique keys (Checks, `accepts`), its collation and order (Sql,
-- Ledger), and the answers of Google (Google, Discover). An order that sorts is any Boolean relation, since
-- localeCompare and the comparison of numbers are the runtime's; the theorems on lists do not depend on it.
--
-- Not modelled: the framework, the HTTP layer, the user interface, the mailer, reports, settings, the
-- processor of the outbox, how createId lays out its bits, and the commissions of investments, which SQL
-- computes; names of columns that are properties of every JavaScript object, and the order in which objects
-- list integer-like keys.
pub mod Prelude
pub mod Rows
pub mod Csv
pub mod RowMapper
pub mod Store
pub mod Processing
pub mod Import
pub mod Actor
pub mod Outbox
pub mod Imports
pub mod Uploads
pub mod Password
pub mod Accounts
pub mod Auth
pub mod Users
pub mod Rbac
pub mod Guard
pub mod Analytics
pub mod Sheets
pub mod Scheduler
pub mod Integrations
pub mod ManualSync
pub mod Investments
pub mod Tests
