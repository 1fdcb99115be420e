-- ===== src/Store.antt =====
-- The tables and queues of uploads, imports and synchronisations, and the queries of the repositories on them:
-- apps/api/src/modules/uploads/repositories, imports/repositories and the SQL of the worker.
pub mod Queries
pub mod Laws
pub mod Unique
use wealth_track.Prelude.{List, []}
use wealth_track.Rows.{
  UploadBatchRow, UploadPreviewRow, UploadValidationErrorRow, InvestmentRecordRow,
  IdempotencyKeyRow, OutboxEventRow, Job, IntegrationSourceRow, GoogleSheetTabRow,
  GoogleSheetRowChecksumRow, SyncBatchRow, SyncBatchErrorRow,
}

-- A table lists its rows in the order of insertion; `jobs` lists what was added to the queues.
pub record Store : Type 0 where
  pub batches : List UploadBatchRow
  pub rows : List UploadPreviewRow
  pub errors : List UploadValidationErrorRow
  pub investments : List InvestmentRecordRow
  pub keys : List IdempotencyKeyRow
  pub events : List OutboxEventRow
  pub jobs : List Job
  pub sources : List IntegrationSourceRow
  pub tabs : List GoogleSheetTabRow
  pub checksums : List GoogleSheetRowChecksumRow
  pub sync_batches : List SyncBatchRow
  pub sync_errors : List SyncBatchErrorRow

abbrev pub empty : Store
empty = record {
  batches = [];
  rows = [];
  errors = [];
  investments = [];
  keys = [];
  events = [];
  jobs = [];
  sources = [];
  tabs = [];
  checksums = [];
  sync_batches = [];
  sync_errors = [];
}
