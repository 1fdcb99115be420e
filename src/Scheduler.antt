-- ===== src/Scheduler.antt =====
-- apps/worker/src/schedulers/google-sheets-sync.scheduler.ts: every five minutes `run` starts a
-- synchronisation of each Google sheet that is due.
pub mod Due
use wealth_track.Prelude.{
  ℕ, suc, ◌+◌, ◌-◌, ◌*◌, Bool, true, false, ◌&&◌, List, [], ◌∷◌, ◌++◌, Option, none, some, filter,
  leb, if◌then◌else◌,
}
use wealth_track.Prelude.Text.{Text, codes}
use wealth_track.Prelude.Action.{Action, ok, pure, gets, modify, continue, ◌>>=◌, ◌>>◌}
use wealth_track.Rows.{
  Time, IntegrationSourceRow, SourceType, SourceStatus, SyncFrequency, SyncBatchRow, SyncStatus,
  SyncSourceType, TriggerMode, GoogleSheetsSyncJob, google_sheets_sync,
}
use wealth_track.Store.{Store}
use wealth_track.Outbox.{Request, enqueue}

-- `FREQUENCY_THRESHOLDS_MS`, in milliseconds
abbrev threshold_of : SyncFrequency → Option ℕ
threshold_of SyncFrequency.manual = none
threshold_of SyncFrequency.daily = some (24 * 60 * 60 * 1000)
threshold_of SyncFrequency.weekly = some (7 * 24 * 60 * 60 * 1000)
threshold_of SyncFrequency.monthly = some (30 * 24 * 60 * 60 * 1000)

-- A time since `last` that is negative is below every threshold, like 0.
unfoldable pub is_due : Time → IntegrationSourceRow → Bool
is_due now source = elim (threshold_of source.sync_frequency) [
  | none ↦ false
  | some threshold ↦ elim source.last_successful_sync_at [
    | none ↦ true
    | some last ↦ leb threshold (now - last)
  ]
]

unfoldable pub is_google_sheets : SourceType → Bool
is_google_sheets SourceType.google_sheets = true
is_google_sheets _ = false

unfoldable pub is_active : SourceStatus → Bool
is_active SourceStatus.active = true
is_active _ = false

-- `WHERE source_type = 'google_sheets' AND status = 'active'`
abbrev pub is_polled : IntegrationSourceRow → Bool
is_polled source = is_google_sheets source.source_type && is_active source.status

abbrev pub pending_batch :
    Text → Text → SyncSourceType → TriggerMode → Option Text → Option Text → Time → SyncBatchRow
pending_batch id source_id source_type mode triggered_by correlation_id now = record {
  id = id;
  integration_source_id = source_id;
  triggered_by = triggered_by;
  source_type = source_type;
  trigger_mode = mode;
  status = SyncStatus.pending;
  total_records = 0;
  valid_records = 0;
  invalid_records = 0;
  duplicate_records = 0;
  skipped_records = 0;
  request_id = none;
  correlation_id = correlation_id;
  started_at = now;
  completed_at = none;
  error_message = none;
  created_at = now;
  updated_at = now;
}

-- `INSERT INTO sync_batches`
abbrev pub insert_sync_batch : SyncBatchRow → Store → Store
insert_sync_batch b s = record s { sync_batches = s.sync_batches ++ b ∷ [] }

module _ (request : Request) where
  -- The batch and the job of the `n`-th source that is due.
  abbrev pub scheduled_batch : ℕ → IntegrationSourceRow → SyncBatchRow
  scheduled_batch n source =
      pending_batch (request.new_id (3 * n)) source.id SyncSourceType.api_sync TriggerMode.scheduled
        none (some (request.new_id (3 * n + 1))) request.now

  abbrev pub scheduled_job : ℕ → IntegrationSourceRow → GoogleSheetsSyncJob
  scheduled_job n source = record {
    integration_source_id = source.id;
    sync_batch_id = request.new_id (3 * n);
    tab_ids = [];
    actor_id = codes "system";
    request_id = request.new_id (3 * n + 2);
    correlation_id = request.new_id (3 * n + 1);
    trigger_mode = TriggerMode.scheduled;
  }

  unfoldable pub schedule : ℕ → IntegrationSourceRow → Action Store (Unit {0})
  unfolding enqueue
  schedule n source = do
    modify (insert_sync_batch (scheduled_batch n source))
    enqueue (request.queue_up n) (google_sheets_sync (scheduled_job n source))

  -- The loop over the sources; the first queue that is down ends it.
  unfoldable pub schedule_due : ℕ → List IntegrationSourceRow → Action Store (Unit {0})
  unfolding schedule
  schedule_due n [] s = (ok tt, s)
  schedule_due n (source ∷ sources) s =
      let skipped = schedule_due n sources s in
      if is_due request.now source
      then (schedule n source >> schedule_due (suc n) sources) s
      else skipped

  unfoldable pub run : Action Store (Unit {0})
  unfolding schedule_due is_google_sheets is_active
  run s = schedule_due 0 (filter is_polled s.sources) s
