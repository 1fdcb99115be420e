-- ===== src/Uploads/Ingest.antt =====
-- apps/api/src/modules/uploads/uploads.service.ts: the upload of a file's content, which goes to the
-- file service or to a local directory.
use wealth_track.Prelude.{
  ℕ, ◌≡◌, ◌⊎◌, refl, Bool, true, false, ◌&&◌, ◌||◌, [], ◌∷◌, ◌++◌, map, Option, none, some, All,
  All-append, arith, leb, ◌==◌, if◌then◌else◌, inl, inr,
}
use wealth_track.Prelude.Text.{Text, codes, is_digit}
use wealth_track.Prelude.Action.{Action, ◌>>◌}
use wealth_track.Rows.{UploadBatchRow}
use wealth_track.Store.{Store}
use wealth_track.Store.Queries.{find_batch}
use wealth_track.Actor.{AuthenticatedActor, permits, assert_can_create_csv_upload}
use wealth_track.Outbox.{Request}
use wealth_track.Uploads.{announce, new_batch}
use wealth_track.Uploads.Enqueue.{Announced, announce-Announced}

-- The files of the service: the file service, which may be switched off (`use_mock_storage`) or
-- refuse a file, and the local directory. `stamp` is `Date.now()` in decimal digits.
pub record Storage : Type 0 where
  pub use_mock_storage : Bool
  pub upload_to_cred_pal : Text → Text → Option Text
  pub upload_dir : Text
  pub stamp : Text
  pub sha256 : Text → Text
  pub base64 : Text → Text

-- `[a-zA-Z0-9._-]`
unfoldable pub is_safe : ℕ → Bool
is_safe c =
    (leb b'a' c && leb c b'z')
    || ((leb b'A' c && leb c b'Z')
        || ((leb b'0' c && leb c b'9') || (c == b'.' || (c == b'_' || c == b'-'))))

-- `originalName.replace(/[^a-zA-Z0-9._-]/g, '_')`
unfoldable pub sanitize : Text → Text
unfolding is_safe
sanitize name = map (λ c. if is_safe c then c else b'_') name

module _ (storage : Storage) where
  unfoldable pub safe_name : Text → Text
  unfolding sanitize
  safe_name original_name = storage.stamp ++ codes "-" ++ sanitize original_name

  -- `file://${path.join(uploadDir, safeName)}`
  unfoldable pub write_local_upload : Text → Text
  unfolding safe_name
  write_local_upload original_name =
      codes "file://" ++ storage.upload_dir ++ codes "/" ++ safe_name original_name

  -- The URL, and whether the file is local.
  unfoldable pub store_uploaded_csv : Text → Text → Text × Bool
  unfolding write_local_upload
  store_uploaded_csv buffer original_name =
      if storage.use_mock_storage
      then (write_local_upload original_name, true)
      else elim (storage.upload_to_cred_pal buffer original_name) [
        | none ↦ (write_local_upload original_name, true)
        | some url ↦ (url, false)
      ]

  module _ (request : Request) (actor : AuthenticatedActor) (buffer original_name : Text) where
    abbrev pub ingested_batch : Text → UploadBatchRow
    ingested_batch url = new_batch request actor (record {
      file_name = original_name;
      file_url = url;
      file_checksum = storage.sha256 buffer;
    })

    unfoldable pub ingest_csv : Action Store UploadBatchRow
    unfolding store_uploaded_csv announce
    ingest_csv = do
      assert_can_create_csv_upload (some actor)
      let (url, is_local) = store_uploaded_csv buffer original_name
      let batch = ingested_batch url
      announce request actor batch (if is_local then some (storage.base64 buffer) else none) (
          (codes "batchId", batch.id)
          ∷ (codes "uploadedBy", actor.actor_id)
          ∷ (codes "fileName", batch.file_name)
          ∷ (codes "fileUrl", batch.file_url)
          ∷ [])

    -- Where the file of an upload is, and the content that goes with its job: a local file goes
    -- along, one that the file service took does not.
    pub data Stored : Text → Option Text → Type 0 where
      local :
          (storage.use_mock_storage ≡ true)
            ⊎ (storage.upload_to_cred_pal buffer original_name ≡ none)
          → Stored (write_local_upload original_name) (some (storage.base64 buffer))
      remote :
          (url : Text)
          → storage.use_mock_storage ≡ false
          → storage.upload_to_cred_pal buffer original_name ≡ some url
          → Stored url none

    abbrev stored_at : Bool → Option Text → Text × Bool
    stored_at mock uploaded =
        if mock then (write_local_upload original_name, true) else elim uploaded [
          | none ↦ (write_local_upload original_name, true)
          | some url ↦ (url, false)
        ]

    stored_at-Stored :
        (mock : Bool) (uploaded : Option Text)
        → storage.use_mock_storage ≡ mock
        → storage.upload_to_cred_pal buffer original_name ≡ uploaded
        → let (url, is_local) = stored_at mock uploaded in
          Stored url (if is_local then some (storage.base64 buffer) else none)
    stored_at-Stored true uploaded e f = local (inl e)
    stored_at-Stored false none e f = local (inr f)
    stored_at-Stored false (some url) e f = remote url e f

    store_uploaded_csv-Stored :
        let (url, is_local) = store_uploaded_csv buffer original_name in
        Stored url (if is_local then some (storage.base64 buffer) else none)
    unfolding store_uploaded_csv
    store_uploaded_csv-Stored = stored_at-Stored _ _ refl refl

    -- An upload of a file's content that is permitted, under a fresh identifier, ends like any
    -- upload, for the batch of the file that was stored: its content goes with the job when the file
    -- is local, which it is when the file service is switched off or refuses it, and not otherwise.
    ingest_csv-Announced :
        (s : Store)
        → permits (some actor) (codes "uploads.csv.create") ≡ true
        → find_batch (request.new_id 0) s.batches ≡ none
        → (url : Text) × (content : Option Text) × Stored url content
          × Announced request actor s (ingested_batch url) content (ingest_csv s)
    unfolding ingest_csv
    ingest_csv-Announced s permitted fresh =
        let stored = store_uploaded_csv buffer original_name in
        rw permitted (
          stored.0,
          _,
          store_uploaded_csv-Stored,
          announce-Announced request actor s (ingested_batch stored.0) _ _ fresh,
        )

sanitize-safe : (name : Text) → All (λ c. is_safe c ≡ true) (sanitize name)
unfolding sanitize
sanitize-safe [] = tt
sanitize-safe (c ∷ name) = (ground arith, sanitize-safe name)

digit_safe : (c : ℕ) → is_digit c ≡ true → is_safe c ≡ true
unfolding is_safe
digit_safe c h = ground arith

digits_safe : (s : Text) → All (λ c. is_digit c ≡ true) s → All (λ c. is_safe c ≡ true) s
digits_safe [] h = tt
digits_safe (c ∷ s) h = (digit_safe c h.0, digits_safe s h.1)

-- The name of a local file has only letters, digits, dots, underscores and dashes, whatever the
-- upload is called, so that the file stands in the directory itself.
safe_name-safe :
    (storage : Storage) (original_name : Text)
    → All (λ c. is_digit c ≡ true) storage.stamp
    → All (λ c. is_safe c ≡ true) (safe_name storage original_name)
unfolding safe_name is_safe
safe_name-safe storage original_name h =
    All-append (λ c. is_safe c ≡ true) (storage.stamp ++ codes "-") (sanitize original_name)
      (All-append (λ c. is_safe c ≡ true) storage.stamp (codes "-") (digits_safe storage.stamp h)
        (refl, tt))
      (sanitize-safe original_name)
