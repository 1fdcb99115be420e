-- ===== src/ManualSync/Outcome.antt =====
-- How a manual synchronisation ends.
use wealth_track.Prelude.{ℕ, ◌+◌, ◌≡◌, not, List, none, some, filter, find, length}
use wealth_track.Prelude.Text.{text_eq}
use wealth_track.Prelude.Action.{Result, HttpError, ok, err}
use wealth_track.Rows.{IntegrationSourceRow, ManualSyncJob, Payload}
use wealth_track.Store.{Store}
use wealth_track.Sheets.{update_sync_batch}
use wealth_track.ManualSync.{
  Env, SyncCounts, ManualReply, lacks_fields, running, finished, change_batch, reply,
}

-- The records that have the fields they need, and those that lack one.
abbrev pub complete : List Payload → List Payload
complete = filter (λ r. not (lacks_fields r))

abbrev pub incomplete : List Payload → List Payload
incomplete = filter lacks_fields

-- The counts after some records.
abbrev pub tally : List Payload → SyncCounts → SyncCounts
tally rs c = record {
  valid = c.valid + length (complete rs);
  invalid = c.invalid + length (incomplete rs);
}

module _ (env : Env) (job : ManualSyncJob) where
  -- Batches and sources are left alone.
  abbrev KeepsBatches : Store → Store → Type 0
  KeepsBatches s t = (t.sync_batches ≡ s.sync_batches) × (t.sources ≡ s.sources)

  -- So many investments and errors are added.
  abbrev pub Grows : ℕ → ℕ → Store → Store → Type 0
  Grows investments errors s t =
      (length t.investments ≡ length s.investments + investments)
      × (length t.sync_errors ≡ length s.sync_errors + errors)

  abbrev Inserted : Store → Result (Unit {0}) × Store → Type 0
  Inserted s (ok done, t) = KeepsBatches s t × Grows 1 0 s t
  Inserted s (err e, t) = KeepsBatches s t

  -- What the loop does from some counts on.
  abbrev Imported : List Payload → SyncCounts → Store → Result SyncCounts × Store → Type 0
  Imported rs c s (ok d, t) =
      (d ≡ tally rs c)
      × KeepsBatches s t
      × Grows (length (complete rs)) (length (incomplete rs)) s t
  Imported rs c s (err e, t) = KeepsBatches s t

  abbrev pub none_yet : SyncCounts
  none_yet = record { valid = 0; invalid = 0 }

  -- The ways in which a manual synchronisation ends.
  pub data ManualEnd (s : Store) : Result ManualReply × Store → Type 0 where
    no_source :
        find (λ x. text_eq x.id job.integration_source_id) s.sources ≡ none
        → (e : HttpError) → ManualEnd s (err e, s)
    stopped :
        (e : HttpError) (t : Store)
        → t.sync_batches ≡ (change_batch env job (running env job) s).sync_batches
        → t.sources ≡ s.sources
        → ManualEnd s (err e, t)
    completed :
        (source : IntegrationSourceRow)
        → find (λ x. text_eq x.id job.integration_source_id) s.sources ≡ some source
        → (t : Store)
        → t.sync_batches
          ≡ update_sync_batch job.sync_batch_id
              (finished env job
                (length (env.records_of source))
                (tally (env.records_of source) none_yet))
              (change_batch env job (running env job) s).sync_batches
        → t.sources ≡ s.sources
        → Grows
            (length (complete (env.records_of source)))
            (length (incomplete (env.records_of source)))
            s
            t
        → ManualEnd s (ok (reply env job (tally (env.records_of source) none_yet)), t)
