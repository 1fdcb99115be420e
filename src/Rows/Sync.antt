-- ===== src/Rows/Sync.antt =====
-- Rows of the integration sources, their sheets and their synchronisation, and its jobs.
use wealth_track.Prelude.{ℕ, Bool, Option, List}
use wealth_track.Prelude.Text.{Text}
use wealth_track.Rows.Access.{Time}
use wealth_track.Rows.Upload.{Json}

pub data TabStatus : Type 0 where
  active ignored : TabStatus

pub record GoogleSheetTabRow : Type 0 where
  pub id : Text
  pub integration_source_id : Text
  pub sheet_id : Text
  pub sheet_title : Text
  pub range_notation : Text
  pub column_mapping : Json
  pub status : TabStatus
  pub last_synced_at : Option Time
  pub last_row_count : Option ℕ
  pub created_at : Time
  pub updated_at : Time

pub record GoogleSheetRowChecksumRow : Type 0 where
  pub id : Text
  pub sheet_tab_id : Text
  pub row_index : ℕ
  pub row_checksum : Text
  pub investment_record_id : Option Text
  pub synced_at : Time

pub data SourceType : Type 0 where
  api database google_sheets : SourceType

pub data SourceStatus : Type 0 where
  active inactive failed : SourceStatus

pub data SyncFrequency : Type 0 where
  manual daily weekly monthly : SyncFrequency

pub record IntegrationSourceRow : Type 0 where
  pub id : Text
  pub name : Text
  pub source_type : SourceType
  pub status : SourceStatus
  pub secret_ref : Text
  pub connection_config : Option Json
  pub field_mapping : Json
  pub sync_frequency : SyncFrequency
  pub last_tested_at : Option Time
  pub last_successful_sync_at : Option Time
  pub created_by : Text
  pub updated_by : Option Text
  pub created_at : Time
  pub updated_at : Time

pub data SyncSourceType : Type 0 where
  api_sync db_sync : SyncSourceType

pub data TriggerMode : Type 0 where
  manual scheduled webhook : TriggerMode

pub data SyncStatus : Type 0 where
  pending running success failed partial_success : SyncStatus

pub record SyncBatchRow : Type 0 where
  pub id : Text
  pub integration_source_id : Text
  pub triggered_by : Option Text
  pub source_type : SyncSourceType
  pub trigger_mode : TriggerMode
  pub status : SyncStatus
  pub total_records : ℕ
  pub valid_records : ℕ
  pub invalid_records : ℕ
  pub duplicate_records : ℕ
  pub skipped_records : ℕ
  pub request_id : Option Text
  pub correlation_id : Option Text
  pub started_at : Time
  pub completed_at : Option Time
  pub error_message : Option Text
  pub created_at : Time
  pub updated_at : Time

-- A value of a sheet or of a record: absent (`null` or `undefined`), a string, or a number or a
-- Boolean, which is given by whether it is truthy and by `String(x)`.
pub data Cell : Type 0 where
  absent : Cell
  text : Text → Cell
  value : Bool → Text → Cell

-- `Record<string, unknown>`
abbrev pub Payload : Type 0
Payload = List (Text × Cell)

pub record SyncBatchErrorRow : Type 0 where
  pub id : Text
  pub sync_batch_id : Text
  pub source_record_identifier : Option Text
  pub error_code : Text
  pub error_message : Text
  pub raw_payload_json : Option Payload
  pub created_at : Time

pub record ManualSyncJob : Type 0 where
  pub sync_batch_id : Text
  pub integration_source_id : Text
  pub actor_id : Text
  pub request_id : Text
  pub correlation_id : Text

pub record GoogleSheetsSyncJob : Type 0 where
  pub integration_source_id : Text
  pub sync_batch_id : Text
  pub tab_ids : List Text
  pub actor_id : Text
  pub request_id : Text
  pub correlation_id : Text
  pub trigger_mode : TriggerMode
