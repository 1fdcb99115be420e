-- ===== src/Tests/Importing.antt =====
-- The theorems on uploads, confirmations, imports and deletions, at sample data.
use wealth_track.Prelude.{ℕ, ◌≡◌, ◌+◌, refl, true, false, [], ◌∷◌, none, some, All, length, arith}
use wealth_track.Prelude.Text.{Text, codes, text_eq}
use wealth_track.Prelude.Action.{ok}
use wealth_track.Rows.{BatchStatus}
use wealth_track.Store.{Store}
use wealth_track.Store.Queries.{find_batch, order_by, insert_investment}
use wealth_track.Import.{truthy, add, handle, importable_rows, has, existing_references}
use wealth_track.Import.Coverage.{IsCovered, handle-covers}
use wealth_track.Import.Preload.{existing_references_recognise_nothing}
use wealth_track.Import.Status.{handle_half_imported}
use wealth_track.Imports.{confirm_batch, cached, queued, run_import}
use wealth_track.Imports.Confirm.{IsQueued, confirm_batch_queues, confirm_batch_replays}
use wealth_track.Imports.Run.{Run, run_import-Run}
use wealth_track.Actor.{AuthenticatedActor, permits}
use wealth_track.Uploads.{
  preview, errors_of, error_report, confirm, bulk_delete_all, create_csv_upload,
  CreateCsvUploadRequest, new_batch, set_status, cancel, bulk_delete_by_ids,
}
use wealth_track.Uploads.Enqueue.{Announced, create_csv_upload-Announced}
use wealth_track.Uploads.Deletion.{IsGone, IsKept, bulk_delete_by_ids_lem}
use wealth_track.Uploads.Access.{IsGuarded, uploads-IsGuarded, cancel-handle}
use wealth_track.Tests.Data.{
  new_id, batch_of, row_of, validated_store, clock, import_job, admin, request,
}

abbrev b1 : Text
b1 = codes "b1"

handle-covers_example :
    All
      (λ row.
        IsCovered clock new_id import_job
          (λ r. true)
          row
          (handle clock new_id import_job (λ r. true) validated_store).1.investments)
      (importable_rows b1 validated_store.rows)
handle-covers_example = handle-covers clock new_id import_job (λ r. true) validated_store

existing_references_example :
    has (some (codes "R1")) (existing_references (row_of [] b1 (some (codes "R1")) ∷ []) []) ≡ false
existing_references_example =
    existing_references_recognise_nothing (row_of [] b1 (some (codes "R1")) ∷ []) [] (codes "R1")

confirm_batch_queues_example :
    let (r, t) = confirm_batch request (λ s. s) b1 (codes "k") (some admin) validated_store in
    (r ≡ ok (queued b1 (codes "k")))
    × IsQueued request
        (λ s. s)
        b1
        (codes "k")
        (some admin)
        validated_store
        t
        (batch_of b1 BatchStatus.validated)
unfolding find_batch text_eq
confirm_batch_queues_example =
    confirm_batch_queues request (λ s. s) b1 (codes "k") (some admin) validated_store
      (batch_of b1 BatchStatus.validated) refl refl tt refl refl

-- The state after that confirmation, and the state in which the batch is imported.
abbrev queued_store : Store
queued_store = (confirm_batch request (λ s. s) b1 (codes "k") (some admin) validated_store).1

abbrev imported_store : Store
imported_store = record queued_store { batches = batch_of b1 BatchStatus.imported ∷ [] }

confirm_batch_replays_example :
    confirm_batch request (λ s. s) b1 (codes "k") (some admin) imported_store
    ≡ (ok (cached ((codes "batchId", b1) ∷ (codes "status", codes "queued") ∷ [])), imported_store)
unfolding find_batch text_eq
confirm_batch_replays_example =
    confirm_batch_replays request (λ s. s) b1 (codes "k") (some admin) validated_store queued_store
      imported_store (batch_of b1 BatchStatus.validated)
      (confirm_batch_queues request (λ s. s) b1 (codes "k") (some admin) validated_store
        (batch_of b1 BatchStatus.validated) refl refl tt refl refl).1
      refl refl

run_import-Run_example :
    Run clock new_id
      (λ r. true)
      b1
      (codes "u1")
      validated_store
      (run_import clock new_id (λ r. true) b1 (codes "u1") validated_store)
run_import-Run_example = run_import-Run clock new_id (λ r. true) b1 (codes "u1") validated_store

bulk_delete_by_ids_example :
    let (r, t) = bulk_delete_by_ids admin (b1 ∷ []) validated_store in
    IsGone b1 t
    × IsKept (codes "b0") validated_store t
    × ((n : ℕ) × (r ≡ ok n) × (n + length t.batches ≡ length validated_store.batches))
unfolding text_eq permits
bulk_delete_by_ids_example =
    bulk_delete_by_ids_lem admin (b1 ∷ []) validated_store b1 (codes "b0") refl refl refl

abbrev payload : CreateCsvUploadRequest
payload = record { file_name = codes "a.csv"; file_url = codes "file:///a.csv"; file_checksum = [] }

create_csv_upload_example :
    Announced request admin validated_store
      (new_batch request admin payload)
      none
      (create_csv_upload request admin payload validated_store)
unfolding find_batch text_eq
create_csv_upload_example = create_csv_upload-Announced request admin validated_store payload refl

cancel-handle_example :
    let (r, t) = cancel admin b1 validated_store in
    (r ≡ ok (set_status BatchStatus.cancelled (batch_of b1 BatchStatus.validated)))
    × (find_batch b1 t.batches
        ≡ some (set_status BatchStatus.cancelled (batch_of b1 BatchStatus.validated)))
    × ((handle clock new_id import_job (λ r. true) t).1.investments
        ≡ (handle clock new_id import_job (λ r. true) validated_store).1.investments)
unfolding find_batch text_eq permits
cancel-handle_example =
    cancel-handle admin validated_store (batch_of b1 BatchStatus.validated) clock new_id import_job
      (λ r. true) refl refl

-- An actor without permissions.
abbrev nobody : AuthenticatedActor
nobody = record admin { permissions = [] }

uploads-IsGuarded_example :
    IsGuarded nobody validated_store (codes "uploads.preview.read") (preview nobody b1)
    × IsGuarded nobody validated_store (codes "uploads.preview.read") (errors_of nobody b1)
    × IsGuarded nobody validated_store (codes "uploads.preview.read") (error_report nobody b1)
    × IsGuarded nobody validated_store
        (codes "uploads.import.confirm")
        (confirm nobody request (λ s. s) b1)
    × IsGuarded nobody validated_store (codes "uploads.import.confirm") (cancel nobody b1)
    × IsGuarded nobody validated_store (codes "users.create") (bulk_delete_all nobody)
    × IsGuarded nobody validated_store (codes "users.create") (bulk_delete_by_ids nobody (b1 ∷ []))
uploads-IsGuarded_example = uploads-IsGuarded nobody validated_store request (λ s. s) b1 (b1 ∷ [])

handle_half_imported_example : BatchStatus.imported ≡ BatchStatus.imported
unfolding handle importable_rows find_batch text_eq order_by truthy has insert_investment add
handle_half_imported_example =
    handle_half_imported clock new_id import_job (λ r. true) validated_store
      (record { status = BatchStatus.imported; batch_id = b1; imported_count = 1 })
      (refl, (refl, tt)) refl (omega arith)
