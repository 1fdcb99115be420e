-- ===== src/Processing/Ending.antt =====
-- What the job stores when its file can be read, and what stops it.
use wealth_track.Prelude.{
  ℕ, ◌≡◌, refl, true, List, [], ◌++◌, some, All, inl, false, Bool-cases, inr,
}
use wealth_track.Prelude.Text.{Text}
use wealth_track.Prelude.Action.{Result, require, ok, err, HttpError}
use wealth_track.Csv.{parse_csv}
use wealth_track.Rows.{
  Time, UploadBatchRow, UploadPreviewRow, UploadValidationErrorRow, BatchStatus,
  ProcessCsvUploadJob,
}
use wealth_track.Store.{Store}
use wealth_track.Store.Queries.{find_batch, rows_of_batch, rows_of_others, errors_of_others}
use wealth_track.Store.Laws.{find_batch-update_batch}
use wealth_track.Processing.Enums.{JsNumber}
use wealth_track.Processing.Preview.{preview}
use wealth_track.Processing.{
  Files, Checks, Reply, or_clean_up, mark_processing, is_valid, count_rows, failed_batch,
  processing_batch, attempt, guarded, handle, is_imported, content_of,
}
use wealth_track.Processing.Outcome.{
  IsFailed, process-accepted, process-ok_errors, process-blocked, process-ok_state,
  rows_of_batch-fresh,
}

module _ (js : JsNumber) (files : Files) (checks : Checks) (now : Time) (new_id : ℕ → Text) where
  module _ (job : ProcessCsvUploadJob) (s : Store) (content : Text) where
    abbrev rows_of_file : List UploadPreviewRow
    rows_of_file = (preview js job.batch_id now new_id 0 [] (parse_csv content)).0

    abbrev errors_of_file : List UploadValidationErrorRow
    errors_of_file = (preview js job.batch_id now new_id 0 [] (parse_csv content)).1

    -- How a job ends whose file can be read.
    pub data Processed : Result Reply × Store → Type 0 where
      stored :
          is_imported job.batch_id s ≡ false
          → (t : Store) → t.rows ≡ rows_of_others job.batch_id s.rows ++ rows_of_file
          → t.errors ≡ errors_of_others job.batch_id s.errors ++ errors_of_file
          → rows_of_batch job.batch_id t.rows ≡ rows_of_file
          → Processed (
            ok (record {
              status = BatchStatus.validated;
              batch_id = job.batch_id;
              valid_rows = count_rows is_valid rows_of_file;
            }),
            t,
          )
      blocked :
          is_imported job.batch_id s ≡ true
          → (e : HttpError) (t : Store) → t.rows ≡ s.rows
          → t.errors ≡ errors_of_others job.batch_id s.errors
          → t.investments ≡ s.investments
          → IsFailed job.batch_id t
          → Processed (err e, t)

    guarded-Processed :
        (b : UploadBatchRow)
        → find_batch job.batch_id s.batches ≡ some b
        → All (λ r. checks.accepts_row r ≡ true) rows_of_file
        → All (λ e. checks.accepts_error e ≡ true) errors_of_file
        → Processed (guarded js files checks now new_id job.batch_id (some content) s)
    unfolding guarded attempt
    guarded-Processed b found rows errors = elim (Bool-cases (is_imported job.batch_id s)) [
      | inl held ↦
          rw (process-blocked js files checks now new_id job.batch_id content s held, or_clean_up)
            (blocked held _ _ refl refl refl (record {
              batch = failed_batch now b;
              found = rw (
                find_batch-update_batch job.batch_id (failed_batch now) (λ c. refl) s.batches,
                found,
              );
              status = refl;
            }))
      | inr free ↦
          let done =
            process-accepted js files checks now new_id job.batch_id content s free rows errors in
          let (all_rows, _) =
            process-ok_state js files checks now new_id job.batch_id content s done in
          rw (done, or_clean_up)
            (stored free _ all_rows
              (process-ok_errors js files checks now new_id job.batch_id content s done)
              (rw all_rows (rows_of_batch-fresh js files checks now new_id job.batch_id content s)))
    ]

  from_marked :
      (job : ProcessCsvUploadJob) (s : Store) (content : Text) (x : Result Reply × Store)
      → Processed job (mark_processing js files checks now new_id job.batch_id s) content x
      → Processed job s content x
  unfolding mark_processing is_imported
  from_marked job s content _ (stored free t rows errors own) = stored free t rows errors own
  from_marked job s content _ (blocked held e t rows errors investments failed) =
      blocked held e t rows errors investments failed

  -- A job for a batch that exists, whose file can be read, and of which the database accepts each row
  -- and each error by its own checks, ends in one of two ways. When no investment record refers to
  -- a row of the batch, the job returns, and the rows and errors that are stored for the batch are
  -- those of the file, whatever was stored before. When one does, as after an import, the foreign
  -- key makes the job throw: the batch is failed, its errors are deleted, its rows and the records stay.
  pub handle-Processed :
      (job : ProcessCsvUploadJob) (s : Store) (content : Text) (b : UploadBatchRow)
      → find_batch job.batch_id s.batches ≡ some b
      → content_of files b job.file_content ≡ some content
      → All (λ r. checks.accepts_row r ≡ true) (rows_of_file job s content)
      → All (λ e. checks.accepts_error e ≡ true) (errors_of_file job s content)
      → Processed job s content (handle js files checks now new_id job s)
  unfolding handle
  handle-Processed job s content b found readable rows errors =
      rw (found, require, readable)
        (from_marked job s content _ (
          guarded-Processed job (mark_processing js files checks now new_id job.batch_id s) content
            (processing_batch now b)
            (rw (
              find_batch-update_batch job.batch_id (processing_batch now) (λ c. refl) s.batches,
              found,
            ))
            rows errors))
