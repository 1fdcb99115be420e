-- ===== src/Uploads/Enqueue.antt =====
-- What an upload leaves in the tables and in the queues, when the queues take its jobs and when not.
use wealth_track.Prelude.{
  ◌≡◌, refl, ap, ◌∙◌, Bool, true, false, ◌&&◌, List, [], ◌∷◌, ◌++◌, append_assoc, append-nil, sym,
  Option, none, some, arith, find, Bool-cases, inl, inr, if◌then◌else◌,
}
use wealth_track.Prelude.Text.{Text, text_eq, text_eq_refl}
use wealth_track.Prelude.Action.{Result, ok, err, unavailable}
use mathlib.Core.Option
use wealth_track.Rows.{Job, BatchStatus, UploadBatchRow, process_csv_upload, dispatch_outbox_event}
use wealth_track.Store.{Store}
use wealth_track.Store.Queries.{find_batch, update_batch}
use wealth_track.Store.Laws.{find_batch-update_batch}
use wealth_track.Actor.{AuthenticatedActor}
use wealth_track.Outbox.{Request}
use wealth_track.Uploads.{
  CreateCsvUploadRequest, set_status, announce, or_fail, new_batch, create_csv_upload,
}

find-append-fresh :
    {A : Type 0} (p : A → Bool) (xs : List A) (x : A)
    → find p xs ≡ none
    → p x ≡ true
    → find p (xs ++ x ∷ []) ≡ some x
find-append-fresh p [] x h e = rw e refl
find-append-fresh p (y ∷ xs) x h e = ground (arith, find-append-fresh p xs x)

module _ (request : Request) (actor : AuthenticatedActor) where
  -- The job that processes the file.
  abbrev csv_job : UploadBatchRow → Option Text → Job
  csv_job batch file_content = process_csv_upload (record {
    batch_id = batch.id;
    request_id = request.new_id 1;
    correlation_id = request.new_id 2;
    file_content = file_content;
  })

  stored :
      (s : Store) (batch : UploadBatchRow)
      → find_batch batch.id s.batches ≡ none
      → find_batch batch.id (s.batches ++ batch ∷ []) ≡ some batch
  unfolding find_batch
  stored s batch fresh =
      find-append-fresh (λ b. text_eq b.id batch.id) s.batches batch fresh (text_eq_refl batch.id)

  marked_failed :
      (s : Store) (batch : UploadBatchRow)
      → find_batch batch.id s.batches ≡ none
      → find_batch batch.id
          (update_batch batch.id (set_status BatchStatus.failed) (s.batches ++ batch ∷ []))
        ≡ some (set_status BatchStatus.failed batch)
  marked_failed s batch fresh =
      find_batch-update_batch batch.id (set_status BatchStatus.failed) (λ b. refl)
        (s.batches ++ batch ∷ [])
      ∙ ap (Option.map (set_status BatchStatus.failed)) (stored s batch fresh)

  -- How an upload ends: both queues take their jobs and the batch is pending, or one of them does
  -- not and the batch is failed.
  pub data Announced (s : Store) (batch : UploadBatchRow) (file_content : Option Text)
      : Result UploadBatchRow × Store → Type 0 where
    queued :
        (t : Store)
        → request.queue_up 0 && request.queue_up 1 ≡ true
        → find_batch batch.id t.batches ≡ some batch
        → t.jobs
          ≡ s.jobs
            ++ (csv_job batch file_content
                ∷ dispatch_outbox_event (record {
                  outbox_event_id = request.new_id 4;
                  correlation_id = request.new_id 3;
                })
                ∷ [])
        → Announced s batch file_content (ok batch, t)
    failed :
        (t : Store)
        → request.queue_up 0 && request.queue_up 1 ≡ false
        → find_batch batch.id t.batches ≡ some (set_status BatchStatus.failed batch)
        → t.jobs ≡ s.jobs ++ (if request.queue_up 0 then csv_job batch file_content ∷ [] else [])
        → Announced s batch file_content (
          err (
              unavailable
                "CSV upload queue is unavailable. Start Redis and the worker, then try again."),
          t,
        )

  pub announce-Announced :
      (s : Store) (batch : UploadBatchRow) (file_content : Option Text)
      (payload : List (Text × Text))
      → find_batch batch.id s.batches ≡ none
      → Announced s batch file_content (announce request actor batch file_content payload s)
  unfolding announce or_fail
  announce-Announced s batch file_content payload fresh = elim (Bool-cases (request.queue_up 0)) [
    | inl up₀ ↦ elim (Bool-cases (request.queue_up 1)) [
      | inl up₁ ↦
          rw (up₀, up₁)
            (queued _ (rw (up₀, up₁) refl) (stored s batch fresh)
              (append_assoc s.jobs (csv_job batch file_content ∷ []) _))
      | inr down₁ ↦
          rw (up₀, down₁)
            (failed _ (rw (up₀, down₁) refl) (marked_failed s batch fresh) (rw up₀ refl))
    ]
    | inr down₀ ↦ rw down₀ (
        failed _ (rw down₀ refl) (marked_failed s batch fresh) (rw down₀ (sym (append-nil s.jobs))))
  ]

  -- An upload under a fresh identifier succeeds exactly when both queues take a job: then the batch
  -- is stored as pending, and its processing and one event are queued. Otherwise the
  -- request throws, and the batch is stored as failed; its processing is queued all the same when
  -- only the queue of the events was down.
  pub create_csv_upload-Announced :
      (s : Store) (payload : CreateCsvUploadRequest)
      → find_batch (request.new_id 0) s.batches ≡ none
      → Announced s
          (new_batch request actor payload)
          none
          (create_csv_upload request actor payload s)
  unfolding create_csv_upload
  create_csv_upload-Announced s payload fresh =
      announce-Announced s (new_batch request actor payload) none _ fresh
