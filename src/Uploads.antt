-- ===== src/Uploads.antt =====
-- apps/api/src/modules/uploads/uploads.service.ts: the uploads that a request makes, reads, confirms,
-- cancels and deletes. Times are read once for each request.
pub mod Enqueue
pub mod Deletion
pub mod Access
pub mod Ingest
use wealth_track.Prelude.{
  ℕ, Bool, true, false, not, ◌&&◌, ◌||◌, List, [], ◌∷◌, ◌++◌, map, Option, none, some, is_some,
  filter, length, leb, ◌==◌, if◌then◌else◌,
}
use wealth_track.Prelude.Text.{Text, codes, is_empty, includes, is_digit}
use wealth_track.Prelude.Action.{
  Action, Result, ok, err, internal, not_found, unavailable, pure, throw, gets, modify, require,
  ◌>>=◌, ◌>>◌,
}
use wealth_track.Rows.{
  BatchStatus, UploadBatchRow, UploadPreviewRow, UploadValidationErrorRow, process_csv_upload,
}
use wealth_track.Store.{Store}
use wealth_track.Store.Queries.{
  find_batch, update_batch, rows_of_batch, errors_of_batch, order_by, order_rows,
}
use wealth_track.Actor.{
  AuthenticatedActor, assert_can_read_preview, assert_can_confirm_import, assert_can_manage_all,
  assert_can_create_csv_upload,
}
use wealth_track.Outbox.{Request, enqueue, queue, event_row}
use wealth_track.Imports.{ConfirmReply, confirm_batch}

-- The body of `POST /uploads`.
pub record CreateCsvUploadRequest : Type 0 where
  pub file_name : Text
  pub file_url : Text
  pub file_checksum : Text

abbrev pub set_status : BatchStatus → UploadBatchRow → UploadBatchRow
set_status status batch = record batch { status = status }

-- `updateStatus`
unfoldable pub update_status : Text → BatchStatus → Action Store (Unit {0})
update_status id status =
    modify (λ s. record s { batches = update_batch id (set_status status) s.batches })

-- The outcome of a `try` block whose `catch` marks the batch as failed.
unfoldable pub or_fail : UploadBatchRow → Action Store (Unit {0}) → Action Store UploadBatchRow
unfolding update_status
or_fail batch try_ s =
    let (r, t) = try_ s in
    elim r [
      | ok _ ↦ (ok batch, t)
      | err e ↦
          (update_status batch.id BatchStatus.failed
              >> throw (
                  unavailable
                    "CSV upload queue is unavailable. Start Redis and the worker, then try again."))
            t
    ]

module _ (request : Request) (actor : AuthenticatedActor) where
  -- The batch that a request creates.
  abbrev pub new_batch : CreateCsvUploadRequest → UploadBatchRow
  new_batch payload = record {
    id = request.new_id 0;
    file_name = payload.file_name;
    file_url = payload.file_url;
    file_checksum = payload.file_checksum;
    uploaded_by = actor.actor_id;
    status = BatchStatus.pending;
    total_rows = 0;
    valid_rows = 0;
    invalid_rows = 0;
    duplicate_rows = 0;
    skipped_rows = 0;
    preview_expires_at = none;
    error_file_url = none;
    processing_started_at = none;
    completed_at = none;
    created_at = request.now;
    updated_at = request.now;
    created_by = some actor.actor_id;
    updated_by = some actor.actor_id;
  }

  -- The batch is stored, its job is queued, and its event: what both ways to upload share.
  unfoldable pub announce :
      UploadBatchRow → Option Text → List (Text × Text) → Action Store UploadBatchRow
  unfolding or_fail enqueue queue event_row
  announce batch file_content payload = do
    modify (λ s. record s { batches = s.batches ++ batch ∷ [] })
    or_fail batch (
        enqueue (request.queue_up 0) (
          process_csv_upload (record {
            batch_id = batch.id;
            request_id = request.new_id 1;
            correlation_id = request.new_id 2;
            file_content = file_content;
          }))
        >> queue (request.queue_up 1) (
            event_row request.now (request.new_id 4) (codes "csv.uploaded") (codes "upload_batch")
              batch.id payload (request.new_id 3)))

  unfoldable pub create_csv_upload : CreateCsvUploadRequest → Action Store UploadBatchRow
  unfolding announce
  create_csv_upload payload =
      let batch = new_batch payload in
      announce batch none (
        (codes "batchId", batch.id)
        ∷ (codes "uploadedBy", actor.actor_id)
        ∷ (codes "fileName", batch.file_name)
        ∷ [])

-- The answer of `preview`.
pub record BatchPreview : Type 0 where
  pub batch : UploadBatchRow
  pub rows : List UploadPreviewRow
  pub errors : List UploadValidationErrorRow

-- The answer of `errors`.
pub record BatchErrors : Type 0 where
  pub batch_id : Text
  pub count : ℕ
  pub items : List UploadValidationErrorRow

-- The answer of `errorReport`.
pub record ErrorReport : Type 0 where
  pub batch_id : Text
  pub error_file_url : Option Text
  pub has_generated_report : Bool

-- `Boolean(url)`
abbrev pub is_truthy : Option Text → Bool
is_truthy none = false
is_truthy (some url) = not (is_empty url)

-- `SELECT * FROM upload_validation_errors WHERE upload_batch_id = ? ORDER BY csv_row_number ASC`
unfoldable pub list_errors : Text → List UploadValidationErrorRow → List UploadValidationErrorRow
list_errors id errors = order_by (λ e. e.csv_row_number) (errors_of_batch id errors)

-- `SELECT * FROM upload_batch_rows WHERE upload_batch_id = ? ORDER BY csv_row_number ASC`
unfoldable pub list_rows : Text → List UploadPreviewRow → List UploadPreviewRow
list_rows id rows = order_rows (rows_of_batch id rows)

-- `const batch = await findById(batchId); if (!batch) throw …`
abbrev get_batch : Text → Action Store UploadBatchRow
get_batch id = do
  found ← gets (λ s. find_batch id s.batches)
  require found (not_found "Upload batch not found")

-- `DELETE FROM … WHERE id IN (…)`, and `affectedRows`.
abbrev is_of : List Text → Option Text → Bool
is_of ids none = false
is_of ids (some id) = includes ids id

unfoldable pub delete_by_ids : List Text → Action Store ℕ
delete_by_ids ids s = (
  ok (length (filter (λ b. includes ids b.id) s.batches)),
  record s {
    errors = filter (λ e. not (includes ids e.upload_batch_id)) s.errors;
    investments = filter (λ r. not (is_of ids r.import_batch_id)) s.investments;
    rows = filter (λ r. not (includes ids r.upload_batch_id)) s.rows;
    batches = filter (λ b. not (includes ids b.id)) s.batches;
  },
)

-- `if (ids.length === 0) return …`
delete_unless_empty : List Text → Action Store ℕ
unfolding delete_by_ids
delete_unless_empty [] = pure 0
delete_unless_empty (id ∷ ids) = delete_by_ids (id ∷ ids)

unfoldable pub delete_all : Action Store ℕ
delete_all s =
    (ok (length s.batches), record s { errors = []; investments = []; rows = []; batches = [] })

module _ (actor : AuthenticatedActor) where
  unfoldable pub preview : Text → Action Store BatchPreview
  unfolding list_rows list_errors
  preview batch_id = do
    assert_can_read_preview (some actor)
    batch ← get_batch batch_id
    rows ← gets (λ s. list_rows batch_id s.rows)
    errors ← gets (λ s. list_errors batch_id s.errors)
    pure (record { batch = batch; rows = rows; errors = errors })

  unfoldable pub cancel : Text → Action Store UploadBatchRow
  unfolding update_status
  cancel batch_id = do
    assert_can_confirm_import (some actor)
    batch ← get_batch batch_id
    update_status batch_id BatchStatus.cancelled
    pure (set_status BatchStatus.cancelled batch)

  unfoldable pub errors_of : Text → Action Store BatchErrors
  unfolding list_errors
  errors_of batch_id = do
    assert_can_read_preview (some actor)
    get_batch batch_id
    errors ← gets (λ s. list_errors batch_id s.errors)
    pure (record { batch_id = batch_id; count = length errors; items = errors })

  unfoldable pub error_report : Text → Action Store ErrorReport
  error_report batch_id = do
    assert_can_read_preview (some actor)
    batch ← get_batch batch_id
    pure (record {
      batch_id = batch_id;
      error_file_url = batch.error_file_url;
      has_generated_report = is_truthy batch.error_file_url;
    })

  -- The message of the answer repeats the number.
  unfoldable pub bulk_delete_all : Action Store ℕ
  unfolding delete_all
  bulk_delete_all = do assert_can_manage_all (some actor); delete_all

  unfoldable pub bulk_delete_by_ids : List Text → Action Store ℕ
  unfolding delete_unless_empty
  bulk_delete_by_ids ids = do assert_can_manage_all (some actor); delete_unless_empty ids

  -- The key of a confirmation: `${batchId}:${actor.actorId}`.
  unfoldable pub confirm : Request → (Text → Text) → Text → Action Store ConfirmReply
  unfolding confirm_batch
  confirm request sha256 batch_id = do
    assert_can_confirm_import (some actor)
    confirm_batch request sha256 batch_id (batch_id ++ codes ":" ++ actor.actor_id) (some actor)
