-- ===== src/Rows.antt =====
-- The rows of the database, packages/shared-types/src/database.ts. A union of string literals is a
-- data type, `null` is `none`, and a timestamp or a date of the clock is its number of milliseconds.
mod Access
mod Upload
mod Sync
mod Outbox
pub use Access.*
pub use Upload.*
pub use Sync.*
pub use Outbox.*
