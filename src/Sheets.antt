-- ===== src/Sheets.antt =====
-- apps/worker/src/processors/google-sheets-sync.processor.ts: the rows of the tabs of a Google sheet
-- become investment records.
pub mod Cells
pub mod Rows
pub mod Skips
pub mod Again
pub mod Outcome
use wealth_track.Prelude.{
  ℕ, ◌+◌, Bool, true, false, not, ◌&&◌, List, [], ◌∷◌, ◌++◌, Option, none, some, filter, find, ltb,
  if◌then◌else◌,
}
use wealth_track.Prelude.Text.{Text, codes, text_eq, includes}
use wealth_track.Prelude.Action.{
  Action, Result, ok, err, internal, pure, gets, modify, require, throw_if, when, continue, ◌>>=◌,
  ◌>>◌,
}
use wealth_track.Csv.{value_of}
use wealth_track.Rows.{
  Json, IntegrationSourceRow, GoogleSheetTabRow, TabStatus, SyncBatchRow, SyncStatus,
  GoogleSheetsSyncJob, Cell,
}
use wealth_track.Store.{Store}
use wealth_track.Store.Queries.{update_where}
use wealth_track.Sheets.Cells.{header_index}
use wealth_track.Sheets.Rows.{Env, Counts, no_counts, process_rows}

-- What Google answers: whether the secret of a source gives a client, and the values of a range of a
-- spreadsheet (`none` where the call throws, and no rows where the answer has none).
pub record Google : Type 0 where
  pub connects : Text → Bool
  pub values : Text → Text → Option (List (List Cell))

pub record SyncReply : Type 0 where
  pub status : SyncStatus
  pub sync_batch_id : Text
  pub counts : Counts

abbrev is_active : GoogleSheetTabRow → Bool
is_active tab = elim tab.status [ TabStatus.active ↦ true | TabStatus.ignored ↦ false ]

-- `id IN (ids)`, which is left out where there are no ids.
abbrev is_named : List Text → Text → Bool
is_named [] id = true
is_named (i ∷ ids) id = includes (i ∷ ids) id

-- The range of a tab, `'title'!A1:ZZ`.
abbrev range_of : GoogleSheetTabRow → Text
range_of tab = codes "'" ++ tab.sheet_title ++ codes "'!" ++ tab.range_notation

-- `UPDATE sync_batches SET … WHERE id = ?`
unfoldable pub update_sync_batch :
    Text → (SyncBatchRow → SyncBatchRow) → List SyncBatchRow → List SyncBatchRow
update_sync_batch id = update_where (λ b. text_eq b.id id)

abbrev pub add_counts : Counts → Counts → Counts
add_counts a b = record {
  valid = a.valid + b.valid;
  invalid = a.invalid + b.invalid;
  skipped = a.skipped + b.skipped;
}

module _ (env : Env) (google : Google) (job : GoogleSheetsSyncJob) where
  -- `processTab`, of the rows of the range: without a header and a row below it, nothing is done.
  unfoldable pub process_values : GoogleSheetTabRow → List (List Cell) → Action Store Counts
  unfolding header_index process_rows
  process_values tab [] = pure no_counts
  process_values tab (header ∷ []) = pure no_counts
  process_values tab (header ∷ row ∷ rows) =
      process_rows env tab job.sync_batch_id job.actor_id
        (header_index env.decimal tab.column_mapping 0 header) 1 (row ∷ rows) no_counts

  -- The rows of a tab; a missing configuration or spreadsheet makes the call throw.
  unfoldable pub tab_values : IntegrationSourceRow → GoogleSheetTabRow → Option (List (List Cell))
  unfolding value_of
  tab_values source tab = elim source.connection_config [
    | none ↦ none
    | some config ↦ elim (value_of (codes "spreadsheetId") config) [
      | none ↦ none
      | some id ↦ google.values id (range_of tab)
    ]
  ]

  abbrev pub mark_tab : GoogleSheetTabRow → Counts → Store → Store
  mark_tab tab counts s = record s {
    tabs =
        update_where (λ t. text_eq t.id tab.id)
          (λ t. record t {
            last_synced_at = some env.now;
            last_row_count = some (counts.valid + counts.invalid);
            updated_at = env.now;
          })
          s.tabs;
  }

  unfoldable pub process_tab : IntegrationSourceRow → GoogleSheetTabRow → Action Store Counts
  unfolding process_values tab_values
  process_tab source tab = do
    rows ← require (tab_values source tab) (internal "values.get")
    counts ← process_values tab rows
    modify (mark_tab tab counts)
    pure counts

  unfoldable pub process_tabs :
      IntegrationSourceRow → List GoogleSheetTabRow → Counts → Action Store Counts
  unfolding process_tab
  process_tabs source [] total = pure total
  process_tabs source (tab ∷ tabs) total = do
    counts ← process_tab source tab
    process_tabs source tabs (add_counts total counts)

  -- The active tabs of the source, of those that the job names if it names any.
  unfoldable pub select_tabs : List GoogleSheetTabRow → List GoogleSheetTabRow
  select_tabs = filter λ t.
      text_eq t.integration_source_id job.integration_source_id
      && (is_named job.tab_ids t.id && is_active t)

  unfoldable pub set_running : Store → Store
  unfolding update_sync_batch
  set_running s = record s {
    sync_batches =
        update_sync_batch job.sync_batch_id
          (λ b. record b { status = SyncStatus.running; updated_at = env.now }) s.sync_batches;
  }

  abbrev pub final_status : Counts → SyncStatus
  final_status counts =
      if ltb 0 counts.invalid then SyncStatus.partial_success else SyncStatus.success

  abbrev pub finished : Counts → SyncBatchRow → SyncBatchRow
  finished counts b = record b {
    status = final_status counts;
    total_records = counts.valid + counts.invalid;
    valid_records = counts.valid;
    invalid_records = counts.invalid;
    skipped_records = counts.skipped;
    completed_at = some env.now;
    updated_at = env.now;
  }

  abbrev pub finish : Counts → Store → Store
  finish counts s = record s {
    sync_batches = update_sync_batch job.sync_batch_id (finished counts) s.sync_batches;
  }

  -- `UPDATE integration_sources SET last_successful_sync_at = ?`
  abbrev pub mark_source : Store → Store
  mark_source s = record s {
    sources =
        update_where (λ x. text_eq x.id job.integration_source_id)
          (λ x. record x { last_successful_sync_at = some env.now; updated_at = env.now })
          s.sources;
  }

  -- `if (finalStatus === 'success') …`
  unfoldable pub advance : Counts → Store → Store
  advance counts s = if ltb 0 counts.invalid then s else mark_source s

  abbrev pub reply : Counts → SyncReply
  reply counts = record {
    status = final_status counts;
    sync_batch_id = job.sync_batch_id;
    counts = counts;
  }

  -- What follows the loop over the tabs.
  unfoldable pub conclude : Counts → Action Store SyncReply
  unfolding update_sync_batch advance
  conclude counts = do modify (finish counts); modify (advance counts); pure (reply counts)

  unfoldable pub handle : Action Store SyncReply
  unfolding select_tabs process_tabs conclude set_running
  handle = do
    found ← gets (λ s. find (λ x. text_eq x.id job.integration_source_id) s.sources)
    source ← require found (internal "Integration source not found")
    modify set_running
    throw_if (not (google.connects source.secret_ref)) (internal "credentials")
    tabs ← gets (λ s. select_tabs s.tabs)
    counts ← process_tabs source tabs no_counts
    conclude counts
