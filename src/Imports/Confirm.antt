-- ===== src/Imports/Confirm.antt =====
-- What a confirmation does to the queues and to the idempotency keys.
use wealth_track.Prelude.{
  ◌≡◌, refl, Bool, true, false, not, List, [], ◌∷◌, ◌++◌, Option, none, some, arith, All, any, find,
  filter, is_some, append_assoc, ap, ◌∙◌, Option-cases, inl, inr,
}
use wealth_track.Prelude.Text.{Text, codes, text_eq_refl}
use wealth_track.Prelude.Action.{ok, require}
use wealth_track.Rows.{
  IdempotencyKeyRow, UploadBatchRow, BatchStatus, confirm_import, dispatch_outbox_event,
}
use wealth_track.Store.{Store}
use wealth_track.Store.Queries.{find_batch}
use wealth_track.Store.Laws.{filter-append}
use wealth_track.Actor.{AuthenticatedActor}
use wealth_track.Outbox.{Request}
use wealth_track.Imports.{
  is_key, find_key, cached_response, is_unfinished, cached, queued, new_key, import_job,
  enqueue_import, forget_key, after_lookup, confirm_batch,
}

-- A batch for which a stored response is given again: imported or not, but for three statuses.
abbrev pub is_replayed : Option UploadBatchRow → Bool
is_replayed none = true
is_replayed (some b) = elim b.status [
  | BatchStatus.imported ↦ true
  | BatchStatus.pending ↦ true
  | BatchStatus.processing ↦ true
  | BatchStatus.failed ↦ true
  | BatchStatus.cancelled ↦ true
  | _ ↦ false
]

replayed_status :
    (s : BatchStatus) (b : UploadBatchRow)
    → b.status ≡ s
    → is_replayed (some b) ≡ true
    → is_unfinished (some b) ≡ false
replayed_status BatchStatus.imported b e h = rw e refl
replayed_status BatchStatus.pending b e h = rw e refl
replayed_status BatchStatus.processing b e h = rw e refl
replayed_status BatchStatus.failed b e h = rw e refl
replayed_status BatchStatus.cancelled b e h = rw e refl
replayed_status BatchStatus.validated b e h = cc (rw e at h)
replayed_status BatchStatus.importing b e h = cc (rw e at h)
replayed_status BatchStatus.partially_imported b e h = cc (rw e at h)

is_replayed-is_unfinished :
    (o : Option UploadBatchRow) → is_replayed o ≡ true → is_unfinished o ≡ false
is_replayed-is_unfinished none h = refl
is_replayed-is_unfinished (some b) h = replayed_status b.status b refl h

any-filter-not :
    {A : Type 0} (p : A → Bool) (xs : List A) → any p (filter (λ x. not (p x)) xs) ≡ false
any-filter-not p [] = refl
any-filter-not p (x ∷ xs) = ground (arith, any-filter-not p xs)

any_of_find-none : {A : Type 0} (p : A → Bool) (xs : List A) → find p xs ≡ none → any p xs ≡ false
any_of_find-none p [] h = refl
any_of_find-none p (x ∷ xs) h = ground (arith, any_of_find-none p xs)

filter_of_any-false :
    {A : Type 0} (p : A → Bool) (xs : List A) → any p xs ≡ false → filter p xs ≡ []
filter_of_any-false p [] h = refl
filter_of_any-false p (x ∷ xs) h = ground (arith, filter_of_any-false p xs)

find_of_filter :
    {A : Type 0} (p : A → Bool) (xs ys : List A) (y : A) → filter p xs ≡ y ∷ ys → find p xs ≡ some y
find_of_filter p [] ys y h = grind arith
find_of_filter p (x ∷ xs) ys y h = ground (arith, find_of_filter p xs ys y)

cached_of_key :
    (key : Text) (keys : List IdempotencyKeyRow) (row : IdempotencyKeyRow)
    → All (λ k. is_some k.response_body_json ≡ true) keys
    → find_key key keys ≡ some row
    → is_some row.response_body_json ≡ true
cached_of_key key [] row h e = cc
cached_of_key key (k ∷ keys) row h e = ground (arith, cached_of_key key keys row h.1, h.0)

is_key-new_key :
    (request : Request) (sha256 : Text → Text) (batch_id key : Text)
    (actor : Option AuthenticatedActor) (batch : UploadBatchRow)
    → is_key key (new_key request sha256 batch_id key actor batch) ≡ true
is_key-new_key request sha256 batch_id key actor batch = text_eq_refl key

module _ (request : Request) (sha256 : Text → Text) (batch_id key : Text)
    (actor : Option AuthenticatedActor) where
  -- The state after a confirmation that queued the import.
  pub record IsQueued (s t : Store) (batch : UploadBatchRow) : Type 0 where
    pub job :
        t.jobs
        ≡ s.jobs
          ++ (confirm_import (import_job request sha256 batch_id key actor batch)
              ∷ dispatch_outbox_event
                  (record { outbox_event_id = request.new_id 4; correlation_id = request.new_id 3 })
              ∷ [])
    pub one_key : filter (is_key key) t.keys ≡ new_key request sha256 batch_id key actor batch ∷ []

  enqueue_import-IsQueued :
      (s : Store) (batch : UploadBatchRow)
      → find_batch batch_id s.batches ≡ some batch
      → any (is_key key) s.keys ≡ false
      → request.queue_up 0 ≡ true
      → request.queue_up 1 ≡ true
      → let (r, t) = enqueue_import request sha256 batch_id key actor s in
        (r ≡ ok (queued batch_id key)) × IsQueued s t batch
  unfolding enqueue_import
  enqueue_import-IsQueued s batch found fresh up₀ up₁ =
      rw (found, require, fresh, up₀, up₁)
        (
          refl,
          record {
            job =
                append_assoc s.jobs
                  (confirm_import (import_job request sha256 batch_id key actor batch) ∷ []) _;
            one_key =
                rw
                  (
                    filter-append (is_key key) s.keys _,
                    filter_of_any-false (is_key key) s.keys fresh,
                    is_key-new_key request sha256 batch_id key actor batch,
                  )
                  refl;
          },
        )

  -- The stored key is removed and the import queued again.
  forget_key-IsQueued :
      (s : Store) (batch : UploadBatchRow)
      → find_batch batch_id s.batches ≡ some batch
      → request.queue_up 0 ≡ true
      → request.queue_up 1 ≡ true
      → let (r, t) =
          enqueue_import request sha256 batch_id key actor
            (forget_key request sha256 batch_id key actor s) in
        (r ≡ ok (queued batch_id key)) × IsQueued s t batch
  unfolding forget_key
  forget_key-IsQueued s batch found up₀ up₁ =
      let h =
        enqueue_import-IsQueued (forget_key request sha256 batch_id key actor s) batch found
          (any-filter-not (is_key key) s.keys) up₀ up₁ in
      (h.0, record { job = h.1.job; one_key = h.1.one_key })

  after_lookup-IsQueued :
      (s : Store) (batch : UploadBatchRow) (row : Option IdempotencyKeyRow)
      → find_key key s.keys ≡ row
      → find_batch batch_id s.batches ≡ some batch
      → is_unfinished (some batch) ≡ true
      → All (λ k. is_some k.response_body_json ≡ true) s.keys
      → request.queue_up 0 ≡ true
      → request.queue_up 1 ≡ true
      → let (r, t) = after_lookup request sha256 batch_id key actor (cached_response row) s in
        (r ≡ ok (queued batch_id key)) × IsQueued s t batch
  unfolding after_lookup forget_key
  after_lookup-IsQueued s batch none looked found unfinished bodies up₀ up₁ =
      enqueue_import-IsQueued s batch found (any_of_find-none (is_key key) s.keys looked) up₀ up₁
  after_lookup-IsQueued s batch (some row) looked found unfinished bodies up₀ up₁ =
      elim (Option-cases row.response_body_json) [
        | inl e ↦ cc (cached_of_key key s.keys row bodies looked, e)
        | inr (body, e) ↦
            rw (e, ap is_unfinished found ∙ unfinished) (forget_key-IsQueued s batch found up₀ up₁)
      ]

  -- A confirmation of a batch that is validated, importing or partially imported, while the
  -- queue is up and every stored key has its response, answers that the import is queued,
  -- appends exactly one import job and the dispatch of one event to the jobs, and leaves the
  -- new key as the only one stored under the idempotency key, whatever was stored before.
  pub confirm_batch_queues :
      (s : Store) (batch : UploadBatchRow)
      → find_batch batch_id s.batches ≡ some batch
      → is_unfinished (some batch) ≡ true
      → All (λ k. is_some k.response_body_json ≡ true) s.keys
      → request.queue_up 0 ≡ true
      → request.queue_up 1 ≡ true
      → let (r, t) = confirm_batch request sha256 batch_id key actor s in
        (r ≡ ok (queued batch_id key)) × IsQueued s t batch
  unfolding confirm_batch
  confirm_batch_queues s batch = after_lookup-IsQueued s batch (find_key key s.keys) refl

  -- After a confirmation that queued the import, a confirmation under the same key in any later
  -- state that keeps the keys answers with the stored response and changes nothing, when the batch is
  -- imported, but also when it is pending, processing, failed or cancelled, or is not there.
  pub confirm_batch_replays :
      (s t u : Store) (batch : UploadBatchRow)
      → IsQueued s t batch
      → u.keys ≡ t.keys
      → is_replayed (find_batch batch_id u.batches) ≡ true
      → confirm_batch request sha256 batch_id key actor u
        ≡ (ok (cached ((codes "batchId", batch_id) ∷ (codes "status", codes "queued") ∷ [])), u)
  unfolding confirm_batch after_lookup
  confirm_batch_replays s t u batch done kept replayed =
      rw
        (
          kept,
          find_of_filter (is_key key) t.keys [] _ done.one_key,
          is_replayed-is_unfinished (find_batch batch_id u.batches) replayed,
        )
        refl
