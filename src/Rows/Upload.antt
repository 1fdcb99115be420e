-- ===== src/Rows/Upload.antt =====
-- Rows of the tables of the upload pipeline.
use wealth_track.Prelude.{ℕ, Option, List}
use wealth_track.Prelude.Text.{Text}
use wealth_track.Rows.Access.{Time}

-- A flat JSON object, `Record<string, unknown>`, whose values are strings here.
abbrev pub Json : Type 0
Json = List (Text × Text)

pub data BatchStatus : Type 0 where
  pending processing validated importing failed imported partially_imported cancelled : BatchStatus

pub record UploadBatchRow : Type 0 where
  pub id : Text
  pub file_name : Text
  pub file_url : Text
  pub file_checksum : Text
  pub uploaded_by : Text
  pub status : BatchStatus
  pub total_rows : ℕ
  pub valid_rows : ℕ
  pub invalid_rows : ℕ
  pub duplicate_rows : ℕ
  pub skipped_rows : ℕ
  pub preview_expires_at : Option Time
  pub error_file_url : Option Text
  pub processing_started_at : Option Time
  pub completed_at : Option Time
  pub created_at : Time
  pub updated_at : Time
  pub created_by : Option Text
  pub updated_by : Option Text

pub data CustomerType : Type 0 where
  new returning : CustomerType

pub data FundType : Type 0 where
  inflow rollover : FundType

pub data TenorCategory : Type 0 where
  short_term mid_short_term medium_term long_term unclassified : TenorCategory

pub data RowStatus : Type 0 where
  valid invalid duplicate skipped : RowStatus

pub record UploadPreviewRow : Type 0 where
  pub id : Text
  pub upload_batch_id : Text
  pub csv_row_number : ℕ
  pub customer_id : Option Text
  pub customer_name : Option Text
  pub customer_type : Option CustomerType
  pub mobilisation_date : Option Text
  pub investment_amount : Option Text
  pub fund_type : Option FundType
  pub tenor_days : Option ℕ
  pub tenor_category : Option TenorCategory
  pub maturity_date : Option Text
  pub investment_reference : Option Text
  pub currency : Text
  pub source_channel : Option Text
  pub relationship_manager : Option Text
  pub cost_of_funds : Option Text
  pub source_record_hash : Option Text
  pub row_status : RowStatus
  pub raw_payload_json : Option Json
  pub normalized_payload_json : Option Json
  pub created_at : Time
  pub updated_at : Time

pub record UploadValidationErrorRow : Type 0 where
  pub id : Text
  pub upload_batch_id : Text
  pub upload_batch_row_id : Option Text
  pub csv_row_number : ℕ
  pub field_name : Text
  pub error_code : Text
  pub error_message : Text
  pub original_value : Option Text
  pub created_at : Time

pub data DataSource : Type 0 where
  csv_upload api_sync db_sync google_sheets : DataSource

pub data ImportStatus : Type 0 where
  pending confirmed rejected archived : ImportStatus

pub data RecordStatus : Type 0 where
  valid invalid duplicate archived : RecordStatus

pub record InvestmentRecordRow : Type 0 where
  pub id : Text
  pub customer_id : Text
  pub customer_name : Text
  pub customer_type : CustomerType
  pub mobilisation_date : Text
  pub investment_amount : Text
  pub fund_type : FundType
  pub tenor_days : ℕ
  pub tenor_category : TenorCategory
  pub maturity_date : Option Text
  pub investment_reference : Option Text
  pub currency : Text
  pub source_channel : Option Text
  pub relationship_manager : Option Text
  pub cost_of_funds : Option Text
  pub import_batch_id : Option Text
  pub upload_batch_row_id : Option Text
  pub sync_batch_id : Option Text
  pub data_source : DataSource
  pub import_status : ImportStatus
  pub record_status : RecordStatus
  pub source_record_hash : Option Text
  pub confirmed_by : Option Text
  pub confirmed_at : Option Time
  pub created_at : Time
  pub updated_at : Time
  pub created_by : Option Text
  pub updated_by : Option Text
