-- ===== src/Imports.antt =====
-- apps/api/src/modules/imports/imports.service.ts: the confirmation of an import under an idempotency
-- key, and the import that runs inside a request.
pub mod Confirm
pub mod Insertion
pub mod Run
use wealth_track.Prelude.{
  ℕ, ◌+◌, ◌*◌, Bool, true, false, not, ◌&&◌, ◌||◌, List, [], ◌∷◌, ◌++◌, map, Option, none, some,
  or_else, is_some, any, find, filter, length, ◌==◌, ◌-◌, if◌then◌else◌,
}
use wealth_track.Prelude.Text.{Text, codes, text_eq}
use wealth_track.Prelude.Action.{
  Action, Result, ok, err, internal, not_found, pure, gets, modify, require, throw_if, continue,
  ◌>>=◌, ◌>>◌,
}
use wealth_track.Rows.{
  Json, Scope, upload_confirm, sync_trigger, report_export, IdempotencyKeyRow, UploadBatchRow,
  BatchStatus, RowStatus, UploadPreviewRow, InvestmentRecordRow, confirm_import, ConfirmImportJob,
}
use wealth_track.Store.{Store}
use wealth_track.Store.Queries.{
  find_batch, update_batch, rows_of_batch, order_rows, sql_eq, insert_investment,
}
use wealth_track.Actor.{AuthenticatedActor}
use wealth_track.Outbox.{Request, enqueue, queue, event_row}
use wealth_track.Import.{Clock, to_record, truthy}

abbrev is_upload_confirm : Scope → Bool
is_upload_confirm upload_confirm = true
is_upload_confirm _ = false

-- `WHERE scope = 'upload_confirm' AND idempotency_key = ?`
abbrev pub is_key : Text → IdempotencyKeyRow → Bool
is_key key row = is_upload_confirm row.scope && text_eq row.idempotency_key key

abbrev pub find_key : Text → List IdempotencyKeyRow → Option IdempotencyKeyRow
find_key key = find (is_key key)

abbrev pub delete_key : Text → List IdempotencyKeyRow → List IdempotencyKeyRow
delete_key key = filter (λ row. not (is_key key row))

-- `existingKey?.responseBodyJson`
abbrev pub cached_response : Option IdempotencyKeyRow → Option Json
cached_response none = none
cached_response (some row) = row.response_body_json

-- A status in which the cached response is not honoured.
abbrev pub is_unfinished : Option UploadBatchRow → Bool
is_unfinished none = false
is_unfinished (some b) = elim b.status [
  | BatchStatus.validated ↦ true
  | BatchStatus.importing ↦ true
  | BatchStatus.partially_imported ↦ true
  | _ ↦ false
]

-- The response to a confirmation: a new one, or the stored body of an earlier one.
pub data ConfirmReply : Type 0 where
  cached : Json → ConfirmReply
  queued : Text → Text → ConfirmReply

module _ (request : Request) (sha256 : Text → Text) (batch_id key : Text)
    (actor : Option AuthenticatedActor) where
  -- `actor?.actorId ?? batch.uploadedBy`
  abbrev actor_or_uploader : UploadBatchRow → Text
  actor_or_uploader batch = elim actor [ none ↦ batch.uploaded_by | some a ↦ a.actor_id ]

  abbrev pub new_key : UploadBatchRow → IdempotencyKeyRow
  new_key batch = record {
    id = request.new_id 0;
    idempotency_key = key;
    scope = upload_confirm;
    actor_id = actor_or_uploader batch;
    resource_type = codes "upload_batch";
    resource_id = batch_id;
    request_hash = sha256 key;
    response_status = 202;
    response_body_json = some ((codes "batchId", batch_id) ∷ (codes "status", codes "queued") ∷ []);
    locked_until = none;
    created_at = request.now;
    expires_at = request.now + 1000 * 60 * 60 * 24;
  }

  -- INSERT under the unique key (scope, idempotency_key).
  insert_key : IdempotencyKeyRow → Action Store (Unit {0})
  insert_key row s =
      if any (is_key row.idempotency_key) s.keys
      then (err (internal "Duplicate entry"), s)
      else (ok tt, record s { keys = s.keys ++ row ∷ [] })

  abbrev pub import_job : UploadBatchRow → ConfirmImportJob
  import_job batch = record {
    batch_id = batch_id;
    actor_id = actor_or_uploader batch;
    request_id = request.new_id 1;
    correlation_id = request.new_id 2;
  }

  -- What follows the look-up of the key.
  enqueue_import : Action Store ConfirmReply
  unfolding insert_key enqueue queue event_row
  enqueue_import = do
    found ← gets (λ s. find_batch batch_id s.batches)
    batch ← require found (not_found "Upload batch not found")
    insert_key (new_key batch)
    enqueue (request.queue_up 0) (confirm_import (import_job batch))
    queue (request.queue_up 1) (
        event_row request.now (request.new_id 4) (codes "investment.import.requested")
          (codes "upload_batch") batch_id
          ((codes "batchId", batch_id) ∷ (codes "actorId", actor_or_uploader batch) ∷ [])
          (request.new_id 3))
    pure (queued batch_id key)

  forget_key : Store → Store
  forget_key s = record s { keys = delete_key key s.keys }

  after_lookup : Option Json → Action Store ConfirmReply
  unfolding enqueue_import forget_key
  after_lookup none s = enqueue_import s
  after_lookup (some body) s =
      if is_unfinished (find_batch batch_id s.batches)
      then enqueue_import (forget_key s)
      else (ok (cached body), s)

  unfoldable pub confirm_batch : Action Store ConfirmReply
  unfolding after_lookup
  confirm_batch = do body ← gets (λ s. cached_response (find_key key s.keys)); after_lookup body

-- `response` of `runImport`.
pub record RunReply : Type 0 where
  pub batch_id : Text
  pub imported_count : ℕ
  pub skipped_count : ℕ
  pub status : BatchStatus
  pub record_ids : List Text

abbrev is_valid_row : UploadPreviewRow → Bool
is_valid_row row = elim row.row_status [ RowStatus.valid ↦ true | _ ↦ false ]

-- `findByReference(row.investmentReference)`, if that is truthy.
reference_taken : Option Text → List InvestmentRecordRow → Bool
reference_taken none table = false
reference_taken (some r) table = any (λ x. sql_eq (some r) x.investment_reference) table

-- `findBySourceHash(row.sourceRecordHash)`, if that is truthy.
hash_taken : Option Text → List InvestmentRecordRow → Bool
hash_taken none table = false
hash_taken (some h) table = any (λ x. sql_eq (some h) x.source_record_hash) table

abbrev is_new_row : List InvestmentRecordRow → UploadPreviewRow → Bool
is_new_row table row = not (
    reference_taken (truthy row.investment_reference) table
    || hash_taken (truthy row.source_record_hash) table)

-- `Promise.all(records.map(INSERT))`: every INSERT is issued, and the first refusal is thrown.
unfoldable pub insert_confirmed :
    (InvestmentRecordRow → Bool)
    → List InvestmentRecordRow
    → List InvestmentRecordRow
    → Result (Unit {0}) × List InvestmentRecordRow
insert_confirmed accepts [] table = (ok tt, table)
insert_confirmed accepts (r ∷ rs) table = elim (insert_investment accepts r table) [
  | none ↦ (err (internal "INSERT refused"), (insert_confirmed accepts rs table).1)
  | some table' ↦ insert_confirmed accepts rs table'
]

module _ (clock : Clock) (new_id : ℕ → Text) (accepts : InvestmentRecordRow → Bool)
    (batch_id actor_id : Text) where
  abbrev pub run_job : ConfirmImportJob
  run_job = record {
    batch_id = batch_id;
    actor_id = actor_id;
    request_id = [];
    correlation_id = [];
  }

  -- The records that the loop collects; the table is read, and not written, while it runs.
  unfoldable pub collect_records :
      ℕ → List UploadPreviewRow → List InvestmentRecordRow → List InvestmentRecordRow
  unfolding reference_taken hash_taken
  collect_records n [] table = []
  collect_records n (row ∷ rows) table =
      let rest = collect_records (n + 1) rows table in
      if is_new_row table row then to_record clock new_id run_job n row ∷ rest else rest

  insert_records : List InvestmentRecordRow → Action Store (Unit {0})
  unfolding insert_confirmed
  insert_records records s =
      let (r, table) = insert_confirmed accepts records s.investments in
      (r, record s { investments = table })

  unfoldable pub run_import : Action Store RunReply
  unfolding insert_records
  run_import = do
    found ← gets (λ s. find_batch batch_id s.batches)
    require found (not_found "Upload batch not found")
    rows ← gets (λ s. filter is_valid_row (order_rows (rows_of_batch batch_id s.rows)))
    table ← gets (λ s. s.investments)
    let records = collect_records 0 rows table
    insert_records records
    let status =
        if length records == length rows
        then BatchStatus.imported
        else BatchStatus.partially_imported
    modify (λ s. record s {
      batches = update_batch batch_id (λ b. record b { status = status }) s.batches;
    })
    pure (record {
      batch_id = batch_id;
      imported_count = length records;
      skipped_count = length rows - length records;
      status = status;
      record_ids = map (λ r. r.id) records;
    })
