-- ===== src/Processing/Outcome.antt =====
-- The state that the job leaves behind, whether it returns or throws.
use wealth_track.Prelude.{
  ℕ, ◌≡◌, refl, true, not, List, [], ◌++◌, Option, none, some, arith, All, All-map, length, inl,
  false, inr,
}
use wealth_track.Prelude.Text.{Text, text_eq}
use wealth_track.Prelude.Action.{Result, require, ok, err, internal, HttpError, Result-cases}
use wealth_track.Csv.{parse_csv}
use wealth_track.Rows.{
  Time, UploadBatchRow, UploadPreviewRow, UploadValidationErrorRow, BatchStatus,
  ProcessCsvUploadJob,
}
use wealth_track.Store.{Store}
use wealth_track.Store.Queries.{
  find_batch, update_batch, rows_of_batch, rows_of_others, errors_of_others,
}
use wealth_track.Store.Laws.{
  find_batch-update_batch, filter-append, filter-All, filter-filter-not, filter_idempotent,
}
use wealth_track.Processing.Enums.{JsNumber}
use wealth_track.Processing.Preview.{preview}
use wealth_track.Processing.Preview.Batch.{preview-batch}
use wealth_track.Processing.Insertion.{insert_all-ok, insert_all-accepted, insert_all-filter}
use wealth_track.Processing.{
  Files, Checks, Reply, or_clean_up, mark_processing, is_valid, is_invalid, is_duplicate,
  count_rows, validated_batch, failed_batch, processing_batch, process, attempt, guarded, handle,
  is_imported, content_of,
}

-- The batch is found with the status `validated`, and its counters are those of the rows that are
-- stored for it.
pub record IsValidated (id : Text) (t : Store) : Type 0 where
  pub batch : UploadBatchRow
  pub found : find_batch id t.batches ≡ some batch
  pub status : batch.status ≡ BatchStatus.validated
  pub total : batch.total_rows ≡ length (rows_of_batch id t.rows)
  pub valid : batch.valid_rows ≡ count_rows is_valid (rows_of_batch id t.rows)
  pub invalid : batch.invalid_rows ≡ count_rows is_invalid (rows_of_batch id t.rows)
  pub duplicate : batch.duplicate_rows ≡ count_rows is_duplicate (rows_of_batch id t.rows)

pub record IsFailed (id : Text) (t : Store) : Type 0 where
  pub batch : UploadBatchRow
  pub found : find_batch id t.batches ≡ some batch
  pub status : batch.status ≡ BatchStatus.failed

abbrev pub Outcome : Text → Result Reply → Store → Type 0
Outcome id (ok reply) t = IsValidated id t
Outcome id (err e) t = IsFailed id t

module _ (js : JsNumber) (files : Files) (checks : Checks) (now : Time) (new_id : ℕ → Text) where
  module _ (id content : Text) (s : Store) where
    abbrev fresh_rows : List UploadPreviewRow
    fresh_rows = (preview js id now new_id 0 [] (parse_csv content)).0

    process-others :
        rows_of_others id (process js files checks now new_id id content s).1.rows
        ≡ rows_of_others id s.rows
    unfolding process rows_of_others
    process-others = ground (
      arith,
      insert_all-filter checks.accepts_row (λ r. not (text_eq r.upload_batch_id id)) fresh_rows
          (rows_of_others id s.rows)
          (All-map (λ r h. rw h) fresh_rows
            (preview-batch js id now new_id 0 [] (parse_csv content))),
      filter_idempotent (λ (r : UploadPreviewRow). not (text_eq r.upload_batch_id id)) s.rows,
    )

    pub process-ok_state :
        {reply : Reply}
        → (process js files checks now new_id id content s).0 ≡ ok reply
        → let t = (process js files checks now new_id id content s).1 in
          (t.rows ≡ rows_of_others id s.rows ++ fresh_rows)
          × (t.batches ≡ update_batch id (validated_batch now fresh_rows) s.batches)
    unfolding process
    process-ok_state h =
        ground (arith, insert_all-ok checks.accepts_row fresh_rows (rows_of_others id s.rows) tt)

    process-err_batches :
        {e : HttpError}
        → (process js files checks now new_id id content s).0 ≡ err e
        → (process js files checks now new_id id content s).1.batches ≡ s.batches
    unfolding process
    process-err_batches h = ground arith

    abbrev fresh_errors : List UploadValidationErrorRow
    fresh_errors = (preview js id now new_id 0 [] (parse_csv content)).1

    abbrev reply_of_file : Reply
    reply_of_file = record {
      status = BatchStatus.validated;
      batch_id = id;
      valid_rows = count_rows is_valid fresh_rows;
    }

    pub process-accepted :
        is_imported id s ≡ false
        → All (λ r. checks.accepts_row r ≡ true) fresh_rows
        → All (λ e. checks.accepts_error e ≡ true) fresh_errors
        → (process js files checks now new_id id content s).0 ≡ ok reply_of_file
    unfolding process
    process-accepted free rows errors = rw (
      free,
      insert_all-accepted checks.accepts_row fresh_rows (rows_of_others id s.rows) rows,
      insert_all-accepted checks.accepts_error fresh_errors (errors_of_others id s.errors) errors,
    )

    -- The errors that are stored in the end.
    pub process-ok_errors :
        {reply : Reply}
        → (process js files checks now new_id id content s).0 ≡ ok reply
        → (process js files checks now new_id id content s).1.errors
          ≡ errors_of_others id s.errors ++ fresh_errors
    unfolding process
    process-ok_errors h =
        ground
          (arith, insert_all-ok checks.accepts_error fresh_errors (errors_of_others id s.errors) tt)

    -- The foreign key stops the deletion of the rows.
    pub process-blocked :
        is_imported id s ≡ true
        → process js files checks now new_id id content s ≡ (
          err (internal "fk_investment_records_upload_batch_row_id"),
          record s { errors = errors_of_others id s.errors },
        )
    unfolding process
    process-blocked held = rw held refl

    -- The rows that are stored for the batch are those of the file.
    pub rows_of_batch-fresh : rows_of_batch id (rows_of_others id s.rows ++ fresh_rows) ≡ fresh_rows
    unfolding rows_of_batch rows_of_others
    rows_of_batch-fresh =
        rw (filter-append (λ r. text_eq r.upload_batch_id id) (rows_of_others id s.rows) fresh_rows)
          (rw (filter-filter-not (λ (r : UploadPreviewRow). text_eq r.upload_batch_id id) s.rows) (
            filter-All (λ r. text_eq r.upload_batch_id id) fresh_rows
              (preview-batch js id now new_id 0 [] (parse_csv content))))

    process-IsValidated :
        {reply : Reply} {b : UploadBatchRow}
        → find_batch id s.batches ≡ some b
        → (process js files checks now new_id id content s).0 ≡ ok reply
        → IsValidated id (process js files checks now new_id id content s).1
    process-IsValidated {b} found h =
        let (rows, batches) = process-ok_state h in
        record {
          batch = validated_batch now fresh_rows b;
          found = rw (
            batches,
            find_batch-update_batch id (validated_batch now fresh_rows) (λ c. refl) s.batches,
            found,
          );
          status = refl;
          total = rw (rows, rows_of_batch-fresh);
          valid = rw (rows, rows_of_batch-fresh);
          invalid = rw (rows, rows_of_batch-fresh);
          duplicate = rw (rows, rows_of_batch-fresh);
        }

  module _ (id : Text) (s : Store) where
    attempt-others :
        (content : Option Text)
        → rows_of_others id (attempt js files checks now new_id id content s).1.rows
          ≡ rows_of_others id s.rows
    unfolding attempt
    attempt-others none = refl
    attempt-others (some content) = process-others id content s

    attempt-err_batches :
        (content : Option Text) {e : HttpError}
        → (attempt js files checks now new_id id content s).0 ≡ err e
        → (attempt js files checks now new_id id content s).1.batches ≡ s.batches
    unfolding attempt
    attempt-err_batches none h = refl
    attempt-err_batches (some content) h = process-err_batches id content s h

    attempt-IsValidated :
        (content : Option Text) {reply : Reply} {b : UploadBatchRow}
        → find_batch id s.batches ≡ some b
        → (attempt js files checks now new_id id content s).0 ≡ ok reply
        → IsValidated id (attempt js files checks now new_id id content s).1
    unfolding attempt
    attempt-IsValidated none found h = cc
    attempt-IsValidated (some content) found h = process-IsValidated id content s found h

    guarded-Outcome :
        (content : Option Text) (b : UploadBatchRow)
        → find_batch id s.batches ≡ some b
        → let (r, t) = guarded js files checks now new_id id content s in
          Outcome id r t × (rows_of_others id t.rows ≡ rows_of_others id s.rows)
    unfolding guarded
    guarded-Outcome content b found =
        elim (Result-cases (attempt js files checks now new_id id content s).0) [
          | inl (reply, h) ↦
              rw (h, or_clean_up) (attempt-IsValidated content found h, attempt-others content)
          | inr (e, h) ↦
              rw (h, or_clean_up)
                (
                  record {
                    batch = failed_batch now b;
                    found = rw (
                      attempt-err_batches content h,
                      find_batch-update_batch id (failed_batch now) (λ c. refl) s.batches,
                      found,
                    );
                    status = refl;
                  },
                  attempt-others content,
                )
        ]

  -- A job for a batch that exists leaves the batch `validated`, with counters that agree with the
  -- rows stored for it, when it returns, and `failed` when it throws. The rows of all other batches
  -- are left as they were.
  pub handle-Outcome :
      (job : ProcessCsvUploadJob) (s : Store) (b : UploadBatchRow)
      → find_batch job.batch_id s.batches ≡ some b
      → let (r, t) = handle js files checks now new_id job s in
        Outcome job.batch_id r t
        × (rows_of_others job.batch_id t.rows ≡ rows_of_others job.batch_id s.rows)
  unfolding handle
  handle-Outcome job s b found =
      rw (found, require)
        (guarded-Outcome job.batch_id (mark_processing js files checks now new_id job.batch_id s)
          (content_of files b job.file_content) (processing_batch now b)
          (rw (
            find_batch-update_batch job.batch_id (processing_batch now) (λ c. refl) s.batches,
            found,
          )))
