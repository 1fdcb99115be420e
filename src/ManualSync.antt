-- ===== src/ManualSync.antt =====
-- apps/worker/src/processors/sync.processor.ts: the records that stand in the configuration of a
-- source become investment records.
pub mod Outcome
use wealth_track.Prelude.{
  ℕ, suc, ◌+◌, Bool, true, false, not, ◌||◌, List, [], ◌∷◌, ◌++◌, Option, none, some, or_else, find,
  length, ltb, if◌then◌else◌,
}
use wealth_track.Prelude.Text.{Text, codes, text_eq}
use wealth_track.Prelude.Assoc.{lookup}
use wealth_track.Prelude.Action.{Action, ok, internal, pure, gets, modify, require, ◌>>=◌, ◌>>◌}
use wealth_track.Rows.{
  Time, IntegrationSourceRow, SourceType, SyncStatus, SyncBatchRow, SyncBatchErrorRow,
  ManualSyncJob, InvestmentRecordRow, CustomerType, FundType, TenorCategory, DataSource,
  ImportStatus, RecordStatus, Cell, absent, text, value, Payload,
}
use wealth_track.Store.{Store}
use wealth_track.Store.Queries.{insert_investment}
use wealth_track.Sheets.{update_sync_batch}
use wealth_track.Sheets.Cells.{is_truthy, is_text, to_text, get, optional}

-- What a synchronisation draws on: the clock, `createId` by the record it is called for, the records
-- of a configuration, `String(n)`, `Number(tenorDays ?? 30)` and `tenorCategory ?? 'unclassified'`
-- where their columns take them, and the checks of the database other than its unique keys.
pub record Env : Type 0 where
  pub now : Time
  pub today : Text
  pub new_id : ℕ → ℕ → Text
  pub records_of : IntegrationSourceRow → List Payload
  pub decimal : ℕ → Text
  pub number : Cell → Option ℕ
  pub category : Cell → Option TenorCategory
  pub accepts : InvestmentRecordRow → Bool

pub record SyncCounts : Type 0 where
  pub valid : ℕ
  pub invalid : ℕ

pub record ManualReply : Type 0 where
  pub status : SyncStatus
  pub sync_batch_id : Text

-- `!record.customerId || !record.customerName || !record.investmentAmount`
unfoldable pub lacks_fields : Payload → Bool
unfolding lookup is_truthy
lacks_fields r =
    not (is_truthy (get (codes "customerId") r))
    || (not (is_truthy (get (codes "customerName") r))
        || not (is_truthy (get (codes "investmentAmount") r)))

-- `String(record.field ?? other)`
abbrev text_or : Text → Text → Payload → Text
text_or field other r = elim (get field r) [ absent ↦ other | text s ↦ s | value truthy s ↦ s ]

module _ (env : Env) (job : ManualSyncJob) where
  abbrev error_row : ℕ → Payload → SyncBatchErrorRow
  error_row n r = record {
    id = env.new_id n 0;
    sync_batch_id = job.sync_batch_id;
    source_record_identifier = some (text_or (codes "customerId") (env.new_id n 1) r);
    error_code = codes "invalid_record";
    error_message = codes "Missing required sync record fields";
    raw_payload_json = some r;
    created_at = env.now;
  }

  abbrev is_api : SourceType → Bool
  is_api SourceType.api = true
  is_api _ = false

  abbrev pub new_record :
      IntegrationSourceRow → ℕ → ℕ → Payload → ℕ → TenorCategory → InvestmentRecordRow
  new_record source n valid r tenor_days category = record {
    id = env.new_id n 0;
    customer_id = to_text (get (codes "customerId") r);
    customer_name = to_text (get (codes "customerName") r);
    customer_type =
        if is_text (get (codes "customerType") r) (codes "new")
        then CustomerType.new
        else CustomerType.returning;
    mobilisation_date = text_or (codes "mobilisationDate") env.today r;
    investment_amount = to_text (get (codes "investmentAmount") r);
    fund_type =
        if is_text (get (codes "fundType") r) (codes "rollover")
        then FundType.rollover
        else FundType.inflow;
    tenor_days = tenor_days;
    tenor_category = category;
    maturity_date = optional (codes "maturityDate") r;
    investment_reference = optional (codes "investmentReference") r;
    currency = text_or (codes "currency") (codes "NGN") r;
    source_channel = optional (codes "sourceChannel") r;
    relationship_manager = optional (codes "relationshipManager") r;
    cost_of_funds = optional (codes "costOfFunds") r;
    import_batch_id = none;
    upload_batch_row_id = none;
    sync_batch_id = some job.sync_batch_id;
    data_source = if is_api source.source_type then DataSource.api_sync else DataSource.db_sync;
    import_status = ImportStatus.confirmed;
    record_status = RecordStatus.valid;
    source_record_hash = some (
        or_else (optional (codes "investmentReference") r)
          (job.sync_batch_id ++ codes ":" ++ env.decimal valid));
    confirmed_by = some job.actor_id;
    confirmed_at = some env.now;
    created_at = env.now;
    updated_at = env.now;
    created_by = some job.actor_id;
    updated_by = some job.actor_id;
  }

  unfoldable pub import_record : IntegrationSourceRow → ℕ → ℕ → Payload → Action Store (Unit {0})
  unfolding insert_investment is_truthy lookup
  import_record source n valid r = do
    tenor_days ← require (env.number (get (codes "tenorDays") r)) (internal "INSERT refused")
    category ← require (env.category (get (codes "tenorCategory") r)) (internal "INSERT refused")
    inserted ← gets (λ s.
        insert_investment env.accepts (new_record source n valid r tenor_days category)
          s.investments)
    table ← require inserted (internal "INSERT refused")
    modify (λ s. record s { investments = table })

  -- The loop over the records, from the `n`-th on.
  unfoldable pub import_records :
      IntegrationSourceRow → ℕ → List Payload → SyncCounts → Action Store SyncCounts
  unfolding lacks_fields import_record
  import_records source n [] c s = (ok c, s)
  import_records source n (r ∷ rs) c s =
      let invalid =
        import_records source (suc n) rs (record c { invalid = c.invalid + 1 })
          (record s { sync_errors = s.sync_errors ++ error_row n r ∷ [] }) in
      if lacks_fields r
      then invalid
      else (import_record source n c.valid r
            >> import_records source (suc n) rs (record c { valid = c.valid + 1 }))
          s

  abbrev pub status_of : SyncCounts → SyncStatus
  status_of c = if ltb 0 c.invalid then SyncStatus.partial_success else SyncStatus.success

  abbrev pub running : SyncBatchRow → SyncBatchRow
  running b = record b { status = SyncStatus.running; updated_at = env.now }

  abbrev pub finished : ℕ → SyncCounts → SyncBatchRow → SyncBatchRow
  finished total c b = record b {
    status = status_of c;
    total_records = total;
    valid_records = c.valid;
    invalid_records = c.invalid;
    completed_at = some env.now;
    updated_at = env.now;
  }

  -- `UPDATE sync_batches SET … WHERE id = ?`
  abbrev pub change_batch : (SyncBatchRow → SyncBatchRow) → Store → Store
  change_batch f s = record s {
    sync_batches = update_sync_batch job.sync_batch_id f s.sync_batches;
  }

  abbrev pub reply : SyncCounts → ManualReply
  reply c = record { status = status_of c; sync_batch_id = job.sync_batch_id }

  -- What follows the loop over the records.
  unfoldable pub conclude : List Payload → SyncCounts → Action Store ManualReply
  unfolding update_sync_batch
  conclude records c = do modify (change_batch (finished (length records) c)); pure (reply c)

  unfoldable pub handle : Action Store ManualReply
  unfolding import_records update_sync_batch conclude
  handle = do
    found ← gets (λ s. find (λ x. text_eq x.id job.integration_source_id) s.sources)
    source ← require found (internal "Integration source not found")
    modify (change_batch running)
    c ← import_records source 0 (env.records_of source) (record { valid = 0; invalid = 0 })
    conclude (env.records_of source) c
