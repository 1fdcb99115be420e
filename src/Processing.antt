-- ===== src/Processing.antt =====
-- apps/worker/src/processors/csv-processing.processor.ts: an uploaded file becomes preview rows and
-- validation errors. The children hold the parts; this file is the job's handler.
pub mod Header
pub mod Dates
pub mod Enums
pub mod Preview
pub mod Insertion
pub mod Outcome
pub mod Ending
use wealth_track.Prelude.{
  ℕ, Bool, true, false, List, [], ◌∷◌, ◌++◌, Option, none, some, length, filter, any, ◌&&◌,
  if◌then◌else◌,
}
use wealth_track.Prelude.Text.{Text, is_empty, text_eq}
use wealth_track.Prelude.Action.{
  Action, Result, ok, err, internal, pure, gets, modify, require, continue, ◌>>=◌, ◌>>◌,
}
use wealth_track.Csv.{parse_csv}
use wealth_track.Rows.{
  Time, UploadBatchRow, UploadPreviewRow, UploadValidationErrorRow, BatchStatus, RowStatus, valid,
  invalid, duplicate, skipped, ProcessCsvUploadJob,
}
use wealth_track.Store.{Store}
use wealth_track.Store.Queries.{find_batch, update_batch, rows_of_others, errors_of_others, sql_eq}
use wealth_track.Processing.Enums.{JsNumber}
use wealth_track.Processing.Preview.{preview}

-- Where the handler finds the text of a file: the bytes of base64 read as UTF-8, and the file
-- storage, which may fail.
pub record Files : Type 0 where
  pub decode_base64 : Text → Text
  pub read_csv : Text → Option Text

-- The checks by which the database refuses a row of the preview or a validation error.
pub record Checks : Type 0 where
  pub accepts_row : UploadPreviewRow → Bool
  pub accepts_error : UploadValidationErrorRow → Bool

-- One INSERT after the other: the first that is refused throws, and the earlier ones stay.
unfoldable pub insert_all : {A : Type 0} → (A → Bool) → List A → List A → Result (Unit {0}) × List A
insert_all accepts [] table = (ok tt, table)
insert_all accepts (r ∷ rs) table =
    let rest = insert_all accepts rs (table ++ r ∷ []) in
    if accepts r then rest else (err (internal "INSERT refused"), table)

abbrev pub is_valid : RowStatus → Bool
is_valid valid = true
is_valid _ = false

abbrev pub is_invalid : RowStatus → Bool
is_invalid invalid = true
is_invalid _ = false

abbrev pub is_duplicate : RowStatus → Bool
is_duplicate duplicate = true
is_duplicate _ = false

-- `previewRows.filter((row) => row.rowStatus === …).length`
abbrev pub count_rows : (RowStatus → Bool) → List UploadPreviewRow → ℕ
count_rows p rows = length (filter (λ r. p r.row_status) rows)

pub record Reply : Type 0 where
  pub status : BatchStatus
  pub batch_id : Text
  pub valid_rows : ℕ

-- `try { m } catch (error) { clean_up; throw error; }`
or_clean_up : {S A : Type 0} → (S → S) → Result A → S → Result A × S
or_clean_up clean_up (ok a) s = (ok a, s)
or_clean_up clean_up (err e) s = (err e, clean_up s)

-- `data.fileContent ? … : …`
unfoldable pub content_of : Files → UploadBatchRow → Option Text → Option Text
content_of files batch none = files.read_csv batch.file_url
content_of files batch (some encoded) =
    if is_empty encoded then files.read_csv batch.file_url else some (files.decode_base64 encoded)

-- Whether an investment record refers to a row of the batch. The foreign key then refuses to delete the
-- rows of the batch.
unfoldable pub is_imported : Text → Store → Bool
is_imported id s =
    any
      (λ row.
        text_eq row.upload_batch_id id
        && any (λ r. sql_eq r.upload_batch_row_id (some row.id)) s.investments)
      s.rows

-- The columns that the three UPDATEs of the batch set.
abbrev processing_batch : Time → UploadBatchRow → UploadBatchRow
processing_batch now b = record b {
  status = BatchStatus.processing;
  processing_started_at = some now;
  updated_at = now;
}

abbrev validated_batch : Time → List UploadPreviewRow → UploadBatchRow → UploadBatchRow
validated_batch now rows b = record b {
  status = BatchStatus.validated;
  total_rows = length rows;
  valid_rows = count_rows is_valid rows;
  invalid_rows = count_rows is_invalid rows;
  duplicate_rows = count_rows is_duplicate rows;
  completed_at = some now;
  updated_at = now;
}

abbrev failed_batch : Time → UploadBatchRow → UploadBatchRow
failed_batch now b = record b {
  status = BatchStatus.failed;
  completed_at = some now;
  updated_at = now;
}

module _ (js : JsNumber) (files : Files) (checks : Checks) (now : Time) (new_id : ℕ → Text) where
  -- `DELETE FROM upload_batch_rows WHERE upload_batch_id = ?`
  unfoldable pub delete_rows : Text → Action Store (Unit {0})
  unfolding is_imported
  delete_rows id s =
      if is_imported id s
      then (err (internal "fk_investment_records_upload_batch_row_id"), s)
      else (ok tt, record s { rows = rows_of_others id s.rows })

  delete_previous : Text → Action Store (Unit {0})
  unfolding delete_rows
  delete_previous id = do
    modify (λ s. record s { errors = errors_of_others id s.errors })
    delete_rows id

  store_rows : List UploadPreviewRow → Action Store (Unit {0})
  unfolding insert_all
  store_rows rows s =
      let (r, table) = insert_all checks.accepts_row rows s.rows in (r, record s { rows = table })

  store_errors : List UploadValidationErrorRow → Action Store (Unit {0})
  unfolding insert_all
  store_errors errors s =
      let (r, table) = insert_all checks.accepts_error errors s.errors in
      (r, record s { errors = table })

  finish : Text → List UploadPreviewRow → Store → Store
  finish id rows s = record s { batches = update_batch id (validated_batch now rows) s.batches }

  -- The body of the `try` block, once the file is read.
  pub process : Text → Text → Action Store Reply
  unfolding delete_previous store_rows store_errors finish
  process id content = do
    let (rows, errors) = preview js id now new_id 0 [] (parse_csv content)
    delete_previous id
    store_rows rows
    store_errors errors
    modify (finish id rows)
    pure (record {
      status = BatchStatus.validated;
      batch_id = id;
      valid_rows = count_rows is_valid rows;
    })

  -- The `try` block: `none` is a file that could not be read.
  attempt : Text → Option Text → Action Store Reply
  unfolding process
  attempt id none s = (err (internal "file not readable"), s)
  attempt id (some content) s = process id content s

  mark_processing : Text → Store → Store
  mark_processing id s = record s { batches = update_batch id (processing_batch now) s.batches }

  mark_failed : Text → Store → Store
  mark_failed id s = record s { batches = update_batch id (failed_batch now) s.batches }

  guarded : Text → Option Text → Action Store Reply
  unfolding attempt mark_failed or_clean_up
  guarded id content s = let (r, s') = attempt id content s in or_clean_up (mark_failed id) r s'

  unfoldable pub handle : ProcessCsvUploadJob → Action Store Reply
  unfolding mark_processing guarded content_of
  handle job = do
    found ← gets (λ s. find_batch job.batch_id s.batches)
    batch ← require found (internal "Upload batch not found")
    modify (mark_processing job.batch_id)
    guarded job.batch_id (content_of files batch job.file_content)
