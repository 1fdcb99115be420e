-- ===== src/Rows/Outbox.antt =====
-- Idempotency keys and outbox events, and the jobs of packages/shared-types/src/queues.ts.
use wealth_track.Prelude.{ℕ, Option}
use wealth_track.Prelude.Text.{Text}
use wealth_track.Rows.Access.{Time}
use wealth_track.Rows.Upload.{Json}
use wealth_track.Rows.Sync.{ManualSyncJob, GoogleSheetsSyncJob}

pub data Scope : Type 0 where
  upload_confirm sync_trigger report_export : Scope

pub record IdempotencyKeyRow : Type 0 where
  pub id : Text
  pub idempotency_key : Text
  pub scope : Scope
  pub actor_id : Text
  pub resource_type : Text
  pub resource_id : Text
  pub request_hash : Text
  pub response_status : ℕ
  pub response_body_json : Option Json
  pub locked_until : Option Time
  pub created_at : Time
  pub expires_at : Time

pub data EventStatus : Type 0 where
  pending dispatched failed : EventStatus

pub record OutboxEventRow : Type 0 where
  pub id : Text
  pub aggregate_type : Text
  pub aggregate_id : Text
  pub event_type : Text
  pub event_version : ℕ
  pub payload_json : Json
  pub headers_json : Option Json
  pub correlation_id : Text
  pub request_id : Option Text
  pub occurred_at : Time
  pub status : EventStatus
  pub attempts : ℕ
  pub next_attempt_at : Option Time
  pub dispatched_at : Option Time
  pub last_error_message : Option Text
  pub created_at : Time
  pub updated_at : Time

pub record ProcessCsvUploadJob : Type 0 where
  pub batch_id : Text
  pub request_id : Text
  pub correlation_id : Text
  pub file_content : Option Text

pub record ConfirmImportJob : Type 0 where
  pub batch_id : Text
  pub actor_id : Text
  pub request_id : Text
  pub correlation_id : Text

pub record DispatchOutboxEventJob : Type 0 where
  pub outbox_event_id : Text
  pub correlation_id : Text

-- A job in one of the queues of the program.
pub data Job : Type 0 where
  process_csv_upload : ProcessCsvUploadJob → Job
  confirm_import : ConfirmImportJob → Job
  dispatch_outbox_event : DispatchOutboxEventJob → Job
  manual_sync : ManualSyncJob → Job
  google_sheets_sync : GoogleSheetsSyncJob → Job
